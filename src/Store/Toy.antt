-- ===== src/Store/Toy.antt =====
-- A small platform on which the theorems about the store are applied: a cipher that puts the key in
-- front of the text, and files that hold at most one secret, under a path of one byte.
use omnivault.Base.{
  ℕ, zero, suc, Bytes, codes, true, false, Option, none, some, [], ◌∷◌, ◌++◌, length, take, drop,
  bytes_eq, after_prefix, after_prefix-append, ◌≡◌, refl, ap, arith,
}
use omnivault.Vault.Types.{new_secret}
use omnivault.Vault.Errors.{Error, message}
use omnivault.Vault.Interface.{Result, ok, err}
use omnivault.Store.Crypto.{
  Primitives, Rand, Crypto, IsSound, Fills, default_argon2_params, new_aead,
}
use omnivault.Store.Crypto as Crypto
use omnivault.Store.Crypto.{verify_password, derive_key, is_unlocked}
use omnivault.Store.Contents.{IsUnlocked}
use omnivault.Store.Sessions.{Works, HasMeta, HasData}
use omnivault.Store.Consistency.{Reads}
use omnivault.Store.Disk.{VaultMeta, Secrets, Platform, Io, Written, Disk, Store}

abbrev pub zeros : ℕ → Bytes
zeros zero = []
zeros (suc n) = 0 ∷ zeros n

length-zeros : (n : ℕ) → length (zeros n) ≡ n
length-zeros zero = refl
length-zeros (suc n) = ap suc (length-zeros n)

abbrev pub bad_key : Error
bad_key = message (codes "bad key")

abbrev opened : Option Bytes → Result Bytes
opened none = err bad_key
opened (some p) = ok p

abbrev pub toy_prim : Primitives
toy_prim = record {
  id_key = λ password salt params. password;
  cipher_error = λ key. none;
  gcm_error = λ key. none;
  nonce_size = 2;
  seal = λ key nonce p. key ++ p;
  unseal = λ key nonce s. opened (after_prefix s key);
  encode = λ b. b;
  decode = λ b. ok b;
}

pub toy_sound : IsSound toy_prim
toy_sound = record {
  decode-encode = λ b. refl;
  unseal-seal = λ key nonce p u n. ap opened (after_prefix-append key p);
}

abbrev pub toy_rand : Rand
toy_rand n = ok (zeros n)

pub toy_rand-Fills : Fills toy_rand
toy_rand-Fills n b h = ground (arith, length-zeros n, h)

abbrev meta_of : Bytes → VaultMeta
meta_of b = record {
  version = 1;
  created_at = 5;
  salt = take 32 b;
  argon2_params = default_argon2_params;
  verification = drop 32 b;
}

abbrev meta_bytes : Option VaultMeta → Result Bytes
meta_bytes none = err (message (codes "null"))
meta_bytes (some meta) = ok (meta.salt ++ meta.verification)

abbrev data_bytes : Option Secrets → Result Bytes
data_bytes none = ok []
data_bytes (some []) = ok []
data_bytes (some ((k, v) ∷ m)) = ok (k ++ v)

abbrev data_of : Bytes → Result (Option Secrets)
data_of [] = ok (some [])
data_of (k ∷ v) = ok (some ((k ∷ [], v) ∷ []))

abbrev pub toy : Platform
toy = record {
  prim = toy_prim;
  codec = record {
    marshal_meta = meta_bytes;
    unmarshal_meta = λ b. ok (meta_of b);
    marshal_data = data_bytes;
    unmarshal_data = data_of;
    marshal_secret = λ x. ok x.value;
    unmarshal_secret = λ b. ok (new_secret b);
  };
}

-- A system that carries out every call.
abbrev pub works : Io
works = record {
  stat_works = true;
  mkdir_meta = none;
  mkdir_vault = none;
  write_meta = Written.done;
  write_vault = Written.done;
  read_meta = none;
  read_vault = none;
  missing = message (codes "no such file");
  clock = λ i. 5;
  rand = λ i. toy_rand;
}

-- The Crypto of a password, and what it makes of a text.
abbrev pub crypto_for : Bytes → Crypto
crypto_for password = record {
  params = default_argon2_params;
  salt = zeros 32;
  key = some password;
}

abbrev pub sealed : Bytes → Bytes → Bytes
sealed password p = zeros 2 ++ (password ++ p)

abbrev pub meta_for : Bytes → VaultMeta
meta_for password = record {
  version = 1;
  created_at = 5;
  salt = zeros 32;
  argon2_params = default_argon2_params;
  verification = sealed password (codes "omnivault-v1");
}

abbrev pub old_password : Bytes
old_password = codes "old pass"

abbrev pub new_password : Bytes
new_password = codes "new pass"

abbrev pub one_secret : Secrets
one_secret = (codes "a", sealed old_password (codes "1")) ∷ []

abbrev pub one_disk : Disk
one_disk = record {
  meta_file = some (zeros 32 ++ sealed old_password (codes "omnivault-v1"));
  vault_file = some (codes "a" ++ sealed old_password (codes "1"));
}

-- An unlocked vault that holds one secret, at "a".
abbrev pub one_store : Store
one_store = record {
  disk = one_disk;
  crypto = some (crypto_for old_password);
  meta = some (meta_for old_password);
  contents = some one_secret;
  dirty = false;
  auto_save = true;
  unlock_time = 5;
}

pub works-Works : Works works
works-Works = record {
  stat_works = refl;
  mkdir_meta_works = refl;
  mkdir_vault_works = refl;
  write_meta_works = refl;
  write_vault_works = refl;
  read_meta_works = refl;
  read_vault_works = refl;
}

pub one_store-IsUnlocked : IsUnlocked one_store (crypto_for old_password) one_secret
unfolding is_unlocked
one_store-IsUnlocked = record { by_crypto = refl; with_key = refl; with_map = refl }

pub one_store-HasMeta :
    HasMeta toy old_password one_disk
      (crypto_for old_password)
      (meta_for old_password)
      (zeros 32 ++ sealed old_password (codes "omnivault-v1"))
unfolding verify_password Crypto.unlock derive_key bytes_eq after_prefix
one_store-HasMeta = record {
  in_file = refl;
  parsed = refl;
  long = refl;
  verified = refl;
  unlocks = refl;
}

pub one_disk-HasData :
    HasData toy one_disk one_secret one_secret (codes "a" ++ sealed old_password (codes "1"))
one_disk-HasData = record { in_file = refl; parsed = refl; same = λ k. refl }

pub toy-Reads : Reads toy
toy-Reads [] h = cc
toy-Reads (k ∷ v) h = cc

pub toy-writes : (m : Option Secrets) → (b : Bytes) × (data_bytes m ≡ ok b)
toy-writes none = ([], refl)
toy-writes (some []) = ([], refl)
toy-writes (some ((k, v) ∷ m)) = (k ++ v, refl)
