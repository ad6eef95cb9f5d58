-- ===== src/Store/Crypto.antt =====
-- internal/store/crypto.go: key derivation and authenticated encryption. Argon2, AES-GCM and base64
-- are not code of the repository: they are the record `Primitives`, and what is relied on of them the
-- record `IsSound`. A read of crypto/rand is a function from the length asked for to its outcome.

pub mod Laws
use omnivault.Base.{
  ℕ, ◌<◌, Bytes, codes, Bool, true, false, Option, none, some, List, [], ◌∷◌, ◌++◌, length, take,
  drop, ltb, bytes_eq, ◌≡◌, if◌then◌else◌,
}
use omnivault.Vault.Errors.{Error, message, prefixed}
use omnivault.Vault.Interface.{Result, ok, err, panic, ◌>>=◌}

pub record Argon2Params : Type 0 where
  pub time : ℕ
  pub memory : ℕ
  pub threads : ℕ
  pub key_len : ℕ

abbrev pub default_argon2_params : Argon2Params
default_argon2_params = record { time = 3; memory = 65536; threads = 4; key_len = 32 }

-- argon2.IDKey; the errors of aes.NewCipher and cipher.NewGCM at a key; NonceSize, Seal (what it
-- appends to its first argument) and Open of the AEAD of a key; base64.StdEncoding.
pub record Primitives : Type 0 where
  pub id_key : Bytes → Bytes → Argon2Params → Bytes
  pub cipher_error : Bytes → Option Error
  pub gcm_error : Bytes → Option Error
  pub nonce_size : ℕ
  pub seal : Bytes → Bytes → Bytes → Bytes
  pub unseal : Bytes → Bytes → Bytes → Result Bytes
  pub encode : Bytes → Bytes
  pub decode : Bytes → Result Bytes

abbrev pub Rand : Type 0
Rand = ℕ → Result Bytes

pub record Crypto : Type 0 where
  pub params : Argon2Params
  pub salt : Bytes
  pub key : Option Bytes

-- fmt.Errorf("m: %w", err)
abbrev pub context {ℓ} : {A : Type ℓ} → Bytes → Result A → Result A
context m (ok a) = ok a
context m (err e) = err (prefixed m e)
context m panic = panic

abbrev pub check : Bytes → Option Error → Result (Unit {0})
check m none = ok tt
check m (some e) = err (prefixed m e)

abbrev pub salt_or_random : Rand → Option Bytes → Result Bytes
salt_or_random rand none = context (codes "failed to generate salt") (rand 32)
salt_or_random rand (some salt) = ok salt

unfoldable pub new_crypto : Rand → Option Bytes → Argon2Params → Result Crypto
new_crypto rand given params = do
  salt ← salt_or_random rand given
  if ltb (length salt) 16
      then err (message (codes "salt must be at least 16 bytes"))
      else ok (record { params = params; salt = salt; key = none })

unfoldable pub lock : Crypto → Crypto
lock c = record c { key = none }

unfoldable pub is_unlocked : Crypto → Bool
is_unlocked c = elim c.key [ none ↦ false | some k ↦ true ]

abbrev pub verification_magic : Bytes
verification_magic = codes "omnivault-v1"

abbrev pub locked_error : Error
locked_error = message (codes "vault is locked")

module _ (prim : Primitives) where
  open prim use {id_key, cipher_error, gcm_error, nonce_size, seal, unseal, encode, decode}

  unfoldable pub derive_key : Crypto → Bytes → Bytes
  derive_key c password = id_key password c.salt c.params

  unfoldable pub unlock : Crypto → Bytes → Crypto
  unfolding derive_key
  unlock c password = record c { key = some (derive_key c password) }

  -- The AEAD of a key can be made.
  abbrev pub new_aead : Bytes → Result (Unit {0})
  new_aead key = check (codes "failed to create cipher") (cipher_error key) >>= λ _.
      check (codes "failed to create GCM") (gcm_error key)

  unfoldable pub encrypt_with : Rand → Bytes → Bytes → Result Bytes
  encrypt_with rand key plaintext = do
    _ ← new_aead key
    nonce ← context (codes "failed to generate nonce") (rand nonce_size)
    ok (encode (nonce ++ seal key nonce plaintext))

  abbrev pub with_key {ℓ} : {A : Type ℓ} → Option Bytes → (Bytes → Result A) → Result A
  with_key none f = err locked_error
  with_key (some key) f = f key

  unfoldable pub encrypt : Rand → Crypto → Bytes → Result Bytes
  unfolding encrypt_with
  encrypt rand c plaintext = with_key c.key (λ key. encrypt_with rand key plaintext)

  unfoldable pub decrypt_with : Bytes → Bytes → Result Bytes
  decrypt_with key encoded = do
    ciphertext ← context (codes "failed to decode ciphertext") (decode encoded)
    _ ← new_aead key
    if ltb (length ciphertext) nonce_size
        then err (message (codes "ciphertext too short"))
        else context (codes "failed to decrypt")
            (unseal key (take nonce_size ciphertext) (drop nonce_size ciphertext))

  unfoldable pub decrypt : Crypto → Bytes → Result Bytes
  unfolding decrypt_with
  decrypt c encoded = with_key c.key (λ key. decrypt_with key encoded)

  -- subtle.ConstantTimeCompare(plaintext, magic) == 1
  abbrev pub is_magic : Result Bytes → Bool
  is_magic (ok plaintext) = bytes_eq plaintext verification_magic
  is_magic (err e) = false
  is_magic panic = false

  -- The chain of VerifyPassword, in which every failure is `false`.
  abbrev pub verify_opened : Bytes → Result Bytes → Bool
  verify_opened key (ok ciphertext) = elim (new_aead key) [
    | ok u ↦
        if ltb (length ciphertext) nonce_size
        then false
        else is_magic (unseal key (take nonce_size ciphertext) (drop nonce_size ciphertext))
    | err e ↦ false
    | panic ↦ false
  ]
  verify_opened key (err e) = false
  verify_opened key panic = false

  unfoldable pub verify_password : Crypto → Bytes → Bytes → Bool
  unfolding derive_key bytes_eq
  verify_password c password blob = verify_opened (derive_key c password) (decode blob)

  unfoldable pub create_verification_blob : Rand → Crypto → Result Bytes
  unfolding encrypt
  create_verification_blob rand c = encrypt rand c verification_magic

  -- What is relied on: base64 decodes what it encodes, the AEAD of a usable key opens what it sealed
  -- under a nonce of its size, and a read of crypto/rand fills the slice.
  pub record IsSound : Type 0 where
    pub decode-encode : (b : Bytes) → decode (encode b) ≡ ok b
    pub unseal-seal :
        (key nonce p : Bytes)
        → new_aead key ≡ ok tt
        → length nonce ≡ nonce_size
        → unseal key nonce (seal key nonce p) ≡ ok p

unfoldable pub generate_random_bytes : Rand → ℕ → Result Bytes
generate_random_bytes rand n = rand n

-- A read of n bytes that succeeds gives n bytes.
abbrev pub Fills : Rand → Type 0
Fills rand = (n : ℕ) (b : Bytes) → rand n ≡ ok b → length b ≡ n
