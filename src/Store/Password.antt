-- ===== src/Store/Password.antt =====
-- Passwords: what Unlock lets in.
use omnivault.Base.{
  Bytes, codes, true, false, not, ◌≡◌, refl, ◌∙◌, ap, some, arith, if◌then◌else◌, ltb, length,
  Option-cases, inl, inr, ◌⊎◌, Bool-cases,
}
use mathlib.Core.Path.{subst}
use omnivault.Vault.Errors.{message}
use omnivault.Vault.Interface.{Result-cases, ok, err, panic}
use omnivault.Store.Crypto.{Crypto, Primitives, new_crypto, verify_password, is_unlocked}
use omnivault.Store.Crypto as Crypto
use omnivault.Store.Disk.{
  VaultMeta, Platform, Io, Store, Outcome, needs, vault_exists, load_meta, load_data,
}
use omnivault.Store.Operations.{is_locked, unlock, finish_unlock}
use omnivault.Store.Sessions.{crypto_of}

new_crypto-eq :
    (pf : Platform) (io : Io) (meta : VaultMeta) (c : Crypto)
    → new_crypto (io.rand 0) (some meta.salt) meta.argon2_params ≡ ok c
    → c ≡ crypto_of meta
unfolding new_crypto
new_crypto-eq pf io meta c h = ground arith

-- The part of Unlock behind the load of the metadata.
unfoldable pub after_meta : Platform → Io → Bytes → Store → VaultMeta → Outcome
after_meta pf io password s1 meta =
    needs (codes "failed to create crypto")
      (new_crypto (io.rand 0) (some meta.salt) meta.argon2_params) s1
      λ fresh.
        if not (verify_password pf.prim fresh password meta.verification)
        then (err (message (codes "invalid password")), s1)
        else finish_unlock pf io (
            load_data pf io (record s1 {
              crypto = some (Crypto.unlock pf.prim fresh password);
              unlock_time = io.clock 0;
            }))

load_data-keeps :
    (pf : Platform) (io : Io) (s : Store)
    → ((load_data pf io s).1.meta ≡ s.meta)
      × ((load_data pf io s).1.crypto ≡ s.crypto)
      × ((load_data pf io s).1.disk ≡ s.disk)
unfolding load_data
load_data-keeps pf io s = ground arith

pub load_meta-keeps :
    (pf : Platform) (io : Io) (s : Store)
    → ((load_meta pf io s).1.crypto ≡ s.crypto)
      × ((load_meta pf io s).1.contents ≡ s.contents)
      × ((load_meta pf io s).1.disk ≡ s.disk)
unfolding load_meta
load_meta-keeps pf io s = ground arith

pub locked_by_crypto : (s t : Store) → t.crypto ≡ s.crypto → is_locked t ≡ is_locked s
unfolding is_locked
locked_by_crypto s t e = ground arith

finish_unlock-meta :
    (pf : Platform) (io : Io) (o : Outcome) → (finish_unlock pf io o).1.meta ≡ o.1.meta
finish_unlock-meta pf io (ok u, s) = refl
finish_unlock-meta pf io (err e, s) = refl
finish_unlock-meta pf io (panic, s) = refl

after_meta-verified :
    (pf : Platform) (io : Io) (password : Bytes) (s1 : Store) (meta : VaultMeta)
    → is_locked s1 ≡ true
    → is_locked (after_meta pf io password s1 meta).1 ≡ false
    → (verify_password pf.prim (crypto_of meta) password meta.verification ≡ true)
      × ((after_meta pf io password s1 meta).1.meta ≡ s1.meta)
unfolding after_meta
after_meta-verified pf io password s1 meta l u =
    elim (Result-cases (new_crypto (io.rand 0) (some meta.salt) meta.argon2_params)) [
      | inl (c, e) ↦
          let next : Store = record s1 {
            crypto = some (Crypto.unlock pf.prim c password);
            unlock_time = io.clock 0;
          } in
          elim (Bool-cases (verify_password pf.prim c password meta.verification)) [
            | inl v ↦ ground (
              arith,
              new_crypto-eq pf io meta c e,
              load_data-keeps pf io next,
              finish_unlock-meta pf io (load_data pf io next),
            )
            | inr v ↦ ground arith
          ]
      | inr (inl (x, e)) ↦ ground arith
      | inr (inr e) ↦ ground arith
    ]

-- Unlock leaves the key alone, or it has loaded metadata and goes on with it.
pub unlock-cases :
    (pf : Platform) (io : Io) (s : Store) (password : Bytes)
    → ((unlock pf io s password).1.crypto ≡ s.crypto)
      ⊎ ((meta : VaultMeta) × ((load_meta pf io s).1.meta ≡ some meta)
          × (unlock pf io s password ≡ after_meta pf io password (load_meta pf io s).1 meta))
unfolding unlock after_meta
unlock-cases pf io s password = elim (Bool-cases (vault_exists io s)) [
  | inr n ↦ inl (ground arith)
  | inl y ↦ elim (Result-cases (load_meta pf io s).0) [
    | inr (inl (e, h)) ↦ inl (ground (arith, load_meta-keeps pf io s))
    | inr (inr h) ↦ inl (ground (arith, load_meta-keeps pf io s))
    | inl (u, h) ↦ elim (Option-cases (load_meta pf io s).1.meta) [
      | inl n ↦ inl (ground (arith, load_meta-keeps pf io s))
      | inr (meta, m) ↦ inr (meta, m, ground arith)
    ]
  ]
]

-- A locked store is unlocked by no password but one that verifies against the metadata that Unlock
-- loaded, whatever the system answers.
pub unlock-verified :
    (pf : Platform) (io : Io) (s : Store) (password : Bytes)
    → is_locked s ≡ true
    → is_locked (unlock pf io s password).1 ≡ false
    → (meta : VaultMeta) × ((unlock pf io s password).1.meta ≡ some meta)
      × (verify_password pf.prim (crypto_of meta) password meta.verification ≡ true)
unlock-verified pf io s password l u = elim (unlock-cases pf io s password) [
  | inl k ↦ absurd (ground (arith, locked_by_crypto s (unlock pf io s password).1 k))
  | inr (meta, m, e) ↦
      let loaded = (load_meta pf io s).1 in
      let v =
        after_meta-verified pf io password loaded meta
          (locked_by_crypto s loaded (load_meta-keeps pf io s).0 ∙ l)
          (subst (λ (o : Outcome). is_locked o.1 ≡ false) e u) in
      (meta, ap (λ (o : Outcome). o.1.meta) e ∙ v.1 ∙ m, v.0)
]

-- Where the vault exists, its metadata loads and the salt has sixteen bytes or more, a password
-- that does not verify changes neither the key, nor the map, nor the disk, and the error is
-- "invalid password".
pub unlock_wrong_password :
    (pf : Platform) (io : Io) (s : Store) (password : Bytes) (meta : VaultMeta)
    → vault_exists io s ≡ true
    → load_meta pf io s ≡ (ok tt, record s { meta = some meta })
    → ltb (length meta.salt) 16 ≡ false
    → verify_password pf.prim (crypto_of meta) password meta.verification ≡ false
    → unlock pf io s password
      ≡ (err (message (codes "invalid password")), record s { meta = some meta })
unfolding unlock new_crypto
unlock_wrong_password pf io s password meta x lm lg v = ground arith
