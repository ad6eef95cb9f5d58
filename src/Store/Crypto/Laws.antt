-- ===== src/Store/Crypto/Laws.antt =====
-- Encryption and password verification.
use omnivault.Base.{
  Bytes, codes, true, ◌++◌, length, length-append, take, drop, take-append, drop-append,
  bytes_eq_iff, ◌≡◌, ◌↔◌, refl, arith, inl, inr, Option-cases,
}
use omnivault.Vault.Interface.{Result, Result-cases, >>=-eq-ok, ok, err, panic}
use omnivault.Store.Crypto.{
  Primitives, Rand, Crypto, new_aead, encrypt_with, encrypt, decrypt_with, decrypt, derive_key,
  unlock, verify_password, is_magic, verify_opened, create_verification_blob, verification_magic,
  IsSound, Fills, context,
}

context-eq-ok {ℓ} : {A : Type ℓ} (m : Bytes) (r : Result A) {a : A} → context m r ≡ ok a → r ≡ ok a
context-eq-ok m (ok a) h = h
context-eq-ok m (err e) h = cc
context-eq-ok m panic h = cc

pub context-ok_iff {ℓ} :
    {A : Type ℓ} (m : Bytes) (r : Result A) (a : A) → (context m r ≡ ok a) ↔ (r ≡ ok a)
context-ok_iff m r a = (context-eq-ok m r, λ e. rw e)

module _ (prim : Primitives) (sound : IsSound prim) where
  open prim use {nonce_size, seal, unseal, encode, decode}

  decrypt_with-seal :
      (key nonce p : Bytes)
      → new_aead prim key ≡ ok tt
      → length nonce ≡ nonce_size
      → decrypt_with prim key (encode (nonce ++ seal key nonce p)) ≡ ok p
  unfolding decrypt_with
  decrypt_with-seal key nonce p a l = ground (
    arith,
    sound.decode-encode (nonce ++ seal key nonce p),
    a,
    l,
    length-append nonce (seal key nonce p),
    take-append nonce_size nonce (seal key nonce p) l,
    drop-append nonce_size nonce (seal key nonce p) l,
    sound.unseal-seal key nonce p a l,
  )

  encrypt_with-ok :
      (rand : Rand) (key p e : Bytes)
      → encrypt_with prim rand key p ≡ ok e
      → (new_aead prim key ≡ ok tt)
        × (nonce : Bytes) × (rand nonce_size ≡ ok nonce)
        × (e ≡ encode (nonce ++ seal key nonce p))
  unfolding encrypt_with
  encrypt_with-ok rand key p e h =
      let (u, a, h1) = >>=-eq-ok (new_aead prim key) _ h in
      let (nonce, n, h2) =
        >>=-eq-ok (context (codes "failed to generate nonce") (rand nonce_size)) _ h1 in
      (a, nonce, context-eq-ok (codes "failed to generate nonce") (rand nonce_size) n, ground arith)

  decrypt_with-encrypt_with :
      (rand : Rand) (key p e : Bytes)
      → Fills rand
      → encrypt_with prim rand key p ≡ ok e
      → decrypt_with prim key e ≡ ok p
  decrypt_with-encrypt_with rand key p e fills h =
      let (a, nonce, n, q) = encrypt_with-ok rand key p e h in
      rw q (decrypt_with-seal key nonce p a (fills nonce_size nonce n))

  -- Whatever is encrypted under a key is decrypted to itself by every Crypto that holds that key,
  -- if what is sealed can be opened, what is encoded can be decoded, and reads of randomness fill.
  pub decrypt-encrypt :
      (rand : Rand) (c d : Crypto) (p e : Bytes)
      → Fills rand
      → encrypt prim rand c p ≡ ok e
      → d.key ≡ c.key
      → decrypt prim d e ≡ ok p
  unfolding encrypt decrypt
  decrypt-encrypt rand c d p e fills h k = elim (Option-cases c.key) [
    | inl n ↦ ground arith
    | inr (key, n) ↦ ground (arith, decrypt_with-encrypt_with rand key p e fills)
  ]

module _ (prim : Primitives) where
  is_magic_iff : (r : Result Bytes) → (is_magic prim r ≡ true) ↔ (r ≡ ok verification_magic)
  is_magic_iff (ok p) = ground (arith, bytes_eq_iff p verification_magic)
  is_magic_iff (err e) = ((λ h. cc), (λ h. cc))
  is_magic_iff panic = ((λ h. cc), (λ h. cc))

  verify_opened_iff :
      (key encoded : Bytes)
      → (verify_opened prim key (prim.decode encoded) ≡ true)
        ↔ (decrypt_with prim key encoded ≡ ok verification_magic)
  unfolding decrypt_with
  verify_opened_iff key encoded = elim (Result-cases (prim.decode encoded)) [
    | inl (ct, d) ↦
        let opened = prim.unseal key (take prim.nonce_size ct) (drop prim.nonce_size ct) in
        ground (
          arith,
          is_magic_iff opened,
          context-ok_iff (codes "failed to decrypt") opened verification_magic,
        )
    | inr (inl (e, d)) ↦ ground arith
    | inr (inr d) ↦ ground arith
  ]

  -- VerifyPassword is true exactly where a Crypto unlocked by the password decrypts the blob to the
  -- magic text.
  pub verify_password_iff :
      (c : Crypto) (password blob : Bytes)
      → (verify_password prim c password blob ≡ true)
        ↔ (decrypt prim (unlock prim c password) blob ≡ ok verification_magic)
  unfolding verify_password decrypt unlock
  verify_password_iff c password blob = verify_opened_iff (derive_key prim c password) blob

-- The blob that an unlocked Crypto makes verifies the password that unlocked it.
pub verify_password-create :
    (prim : Primitives) (sound : IsSound prim) (rand : Rand) (c : Crypto) (password blob : Bytes)
    → Fills rand
    → create_verification_blob prim rand (unlock prim c password) ≡ ok blob
    → verify_password prim c password blob ≡ true
unfolding create_verification_blob
verify_password-create prim sound rand c password blob fills h =
    (verify_password_iff prim c password blob).1 (
      decrypt-encrypt prim sound rand (unlock prim c password) (unlock prim c password)
        verification_magic blob fills h refl)
