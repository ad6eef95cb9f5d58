-- ===== src/Store/Locking.antt =====
-- Which calls of the store leave it locked.
use omnivault.Base.{
  Bytes, true, false, ◌≡◌, ◌≢◌, refl, sym, ◌∙◌, none, some, arith, Option-cases, inl, inr, ◌⊎◌,
  Bool-cases, Option,
}
use mathlib.Core.Path.{subst}
use omnivault.Vault.Interface.{Result-cases, ok, err, panic}
use omnivault.Store.Crypto.{Crypto, new_crypto, verify_password}
use omnivault.Store.Crypto as Crypto
use omnivault.Store.Disk.{
  Platform, Io, Store, Outcome, Written, Secrets, VaultMeta, save_data, vault_exists, load_data,
  load_meta,
}
use omnivault.Store.Consistency.{Reads}
use omnivault.Store.Operations.{is_locked, lock, initialize, unlock, finish_unlock}
use omnivault.Store.Password.{after_meta, unlock-cases, locked_by_crypto, load_meta-keeps}

module _ (pf : Platform) (io : Io) where
  save_data-same_crypto : (s : Store) → (save_data pf io s).1.crypto ≡ s.crypto
  unfolding save_data
  save_data-same_crypto s = ground arith

  -- A call of Lock that returns no error has locked the store.
  pub lock-ok : (s : Store) → (lock pf io s).0 ≡ ok tt → is_locked (lock pf io s).1 ≡ true
  unfolding lock is_locked
  lock-ok s h = ground (arith, save_data-same_crypto s)

  pub lock-is_locked : (s : Store) → is_locked s ≡ true → is_locked (lock pf io s).1 ≡ true
  unfolding lock is_locked
  lock-is_locked s h = ground (arith, save_data-same_crypto s)

  -- Where the file can be written, Lock returns no error.
  pub lock-works :
      (s : Store)
      → ((m : Option Secrets) → (b : Bytes) × (pf.codec.marshal_data m ≡ ok b))
      → io.mkdir_vault ≡ none
      → io.write_vault ≡ Written.done
      → (lock pf io s).0 ≡ ok tt
  unfolding lock save_data
  lock-works s m d w = ground (arith, m s.contents, d, w)

  -- Initialize unlocks only where there is no vault.
  pub initialize-fresh :
      (s : Store) (password : Bytes)
      → is_locked s ≡ true
      → is_locked (initialize pf io s password).1 ≡ false
      → vault_exists io s ≡ false
  unfolding initialize
  initialize-fresh s password l u = elim (Bool-cases (vault_exists io s)) [
    | inl y ↦ absurd (ground arith)
    | inr n ↦ n
  ]

  -- Unlock has returned no error, or has left a locked store locked.
  abbrev OkOrLocked : Outcome → Type 0
  OkOrLocked o = (o.0 ≡ ok tt) ⊎ (is_locked o.1 ≡ true)

  load_data-no_panic : (s : Store) → Reads pf → (load_data pf io s).0 ≢ panic
  unfolding load_data
  load_data-no_panic s reads h = elim (Option-cases s.disk.vault_file) [
    | inl n ↦ absurd (ground arith)
    | inr (b, v) ↦ absurd (ground (arith, reads b))
  ]

  OkOrLocked-finish_unlock : (o : Outcome) → o.0 ≢ panic → OkOrLocked (finish_unlock pf io o)
  unfolding is_locked
  OkOrLocked-finish_unlock (ok u, s) h = inl refl
  OkOrLocked-finish_unlock (err e, s) h = inr refl
  OkOrLocked-finish_unlock (panic, s) h = absurd (h refl)

  OkOrLocked-after_meta :
      (s : Store) (password : Bytes) (meta : VaultMeta)
      → Reads pf
      → is_locked s ≡ true
      → OkOrLocked (after_meta pf io password s meta)
  unfolding after_meta
  OkOrLocked-after_meta s password meta reads l =
      elim (Result-cases (new_crypto (io.rand 0) (some meta.salt) meta.argon2_params)) [
        | inl (c, e) ↦
            let next : Store = record s {
              crypto = some (Crypto.unlock pf.prim c password);
              unlock_time = io.clock 0;
            } in
            elim (Bool-cases (verify_password pf.prim c password meta.verification)) [
              | inl v ↦ ground (
                arith,
                OkOrLocked-finish_unlock (load_data pf io next) (load_data-no_panic next reads),
              )
              | inr v ↦ ground arith
            ]
        | inr (inl (x, e)) ↦ ground arith
        | inr (inr e) ↦ ground arith
      ]

  -- Where the vault file can be read or not, Unlock of a locked store has opened it without an
  -- error, or leaves it locked.
  pub unlock-OkOrLocked :
      (s : Store) (password : Bytes)
      → Reads pf
      → is_locked s ≡ true
      → OkOrLocked (unlock pf io s password)
  unlock-OkOrLocked s password reads l = elim (unlock-cases pf io s password) [
    | inl k ↦ inr (locked_by_crypto s (unlock pf io s password).1 k ∙ l)
    | inr (meta, m, e) ↦
        let loaded = (load_meta pf io s).1 in
        subst OkOrLocked (sym e) (
          OkOrLocked-after_meta loaded password meta reads
            (locked_by_crypto s loaded (load_meta-keeps pf io s).0 ∙ l))
  ]
