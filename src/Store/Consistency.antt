-- ===== src/Store/Consistency.antt =====
-- internal/store/encrypted.go: an invariant of the store through each method.
use omnivault.Base.{
  Bytes, codes, Bool, true, false, ◌&&◌, ◌≡◌, ◌≢◌, refl, ◌∙◌, Option, none, some, arith, insert,
  delete, [], Option-cases, inl, inr, if◌then◌else◌, not,
}
use omnivault.Vault.Types.{Secret, Time}
use omnivault.Vault.Contract.{is_some}
use omnivault.Vault.Interface.{Result, ok, err, panic}
use omnivault.Store.Crypto.{is_unlocked, Crypto, new_crypto, default_argon2_params, verify_password}
use omnivault.Store.Crypto as Crypto
use omnivault.Store.Disk.{
  VaultMeta, Secrets, Platform, Io, Store, Outcome, vault_exists, save_meta, load_meta, save_data,
  load_data, then_do, needs, needs_plain,
}
use omnivault.Store.Rekey.{unlock-is_unlocked}
use omnivault.Store.Operations.{
  is_locked, deref_or, set, remove, stamped, initialize, unlock, finish_unlock, lock, auto_saved,
  save_both, rekey, changed, change_password, seal_secret,
}

-- A store that has a Crypto has one with a key, and has a map and metadata.
unfoldable pub is_consistent : Store → Bool
is_consistent s = elim s.crypto [
  | none ↦ true
  | some c ↦ is_unlocked c && (is_some s.contents && is_some s.meta)
]

-- encoding/json returns an error where it cannot read the vault file; it does not panic.
abbrev pub Reads : Platform → Type 0
Reads pf = (b : Bytes) → pf.codec.unmarshal_data b ≢ panic

-- The store that a call leaves is consistent.
abbrev pub Keeps : Outcome → Type 0
Keeps o = is_consistent o.1 ≡ true

Keeps-needs {ℓ} :
    {A : Type ℓ} (m : Bytes) (r : Result A) (s : Store) (f : A → Outcome)
    → is_consistent s ≡ true
    → ((a : A) → Keeps (f a))
    → Keeps (needs m r s f)
Keeps-needs m (ok a) s f h k = k a
Keeps-needs m (err e) s f h k = h
Keeps-needs m panic s f h k = h

Keeps-needs_plain {ℓ} :
    {A : Type ℓ} (r : Result A) (s : Store) (f : A → Outcome)
    → is_consistent s ≡ true
    → ((a : A) → Keeps (f a))
    → Keeps (needs_plain r s f)
Keeps-needs_plain (ok a) s f h k = k a
Keeps-needs_plain (err e) s f h k = h
Keeps-needs_plain panic s f h k = h

Keeps-deref_or {ℓ} :
    {A : Type ℓ} (o : Option A) (s : Store) (f : A → Outcome)
    → is_consistent s ≡ true
    → ((a : A) → Keeps (f a))
    → Keeps (deref_or o s f)
Keeps-deref_or none s f h k = h
Keeps-deref_or (some a) s f h k = k a

Keeps-deref_some {ℓ} :
    {A : Type ℓ} (o : Option A) (s : Store) (f : A → Outcome)
    → is_consistent s ≡ true
    → ((a : A) → o ≡ some a → Keeps (f a))
    → Keeps (deref_or o s f)
Keeps-deref_some none s f h k = h
Keeps-deref_some (some a) s f h k = k a refl

Keeps-then_do :
    (m : Bytes) (o : Outcome) (next : Store → Outcome)
    → Keeps o
    → ((t : Store) → is_consistent t ≡ true → Keeps (next t))
    → Keeps (then_do m o next)
Keeps-then_do m (ok u, s) next h k = k s h
Keeps-then_do m (err e, s) next h k = h
Keeps-then_do m (panic, s) next h k = h

Keeps-if : (b : Bool) (x y : Outcome) → Keeps x → Keeps y → Keeps (if b then x else y)
Keeps-if true x y h k = h
Keeps-if false x y h k = k

module _ (pf : Platform) (io : Io) where
  is_consistent-save_data : (s : Store) → is_consistent (save_data pf io s).1 ≡ is_consistent s
  unfolding is_consistent save_data
  is_consistent-save_data s = ground arith

  is_consistent-save_meta : (s : Store) → is_consistent (save_meta pf io s).1 ≡ is_consistent s
  unfolding is_consistent save_meta
  is_consistent-save_meta s = ground arith

  is_consistent-then_do :
      (m : Bytes) (o : Outcome) (next : Store → Outcome)
      → ((t : Store) → is_consistent (next t).1 ≡ is_consistent t)
      → is_consistent (then_do m o next).1 ≡ is_consistent o.1
  is_consistent-then_do m (ok u, s) next h = h s
  is_consistent-then_do m (err e, s) next h = refl
  is_consistent-then_do m (panic, s) next h = refl

  loaded : (s : Store) → is_consistent s ≡ true → Keeps (load_meta pf io s)
  unfolding load_meta is_consistent
  loaded s h = ground arith

  is_consistent-save_both : (s : Store) → is_consistent (save_both pf io s).1 ≡ is_consistent s
  unfolding save_both
  is_consistent-save_both s =
      is_consistent-then_do (codes "failed to save metadata") (save_meta pf io s) _ (λ t.
        is_consistent-then_do (codes "failed to save data") (save_data pf io t) _ (λ v. refl)
        ∙ is_consistent-save_data t)
      ∙ is_consistent-save_meta s

  with_contents :
      (s : Store) (m : Secrets)
      → is_consistent s ≡ true
      → is_consistent (record s { contents = some m; dirty = true }) ≡ true
  unfolding is_consistent
  with_contents s m h = ground arith

  is_consistent-auto_saved : (s : Store) → is_consistent (auto_saved pf io s).1 ≡ is_consistent s
  is_consistent-auto_saved s = ground (arith, is_consistent-save_data s)

  -- What Initialize makes in memory.
  is_consistent-opened :
      (s : Store) (fresh : Crypto) (password : Bytes) (meta : VaultMeta) (now : Time)
      → is_consistent (record s {
        meta = some meta;
        contents = some [];
        crypto = some (Crypto.unlock pf.prim fresh password);
        unlock_time = now;
      })
        ≡ true
  unfolding is_consistent Crypto.unlock is_unlocked
  is_consistent-opened s fresh password meta now = refl

  pub Keeps-initialize :
      (s : Store) (password : Bytes) → is_consistent s ≡ true → Keeps (initialize pf io s password)
  unfolding initialize
  Keeps-initialize s password h = Keeps-if (vault_exists io s) _ _ h (
      Keeps-needs (codes "failed to create crypto")
        (new_crypto (io.rand 0) none default_argon2_params) s _ h
        (λ fresh.
          Keeps-needs (codes "failed to create verification") _ s _ h (λ v.
            is_consistent-save_both _ ∙ is_consistent-opened s fresh password _ (io.clock 1))))

  pub Keeps-lock : (s : Store) → is_consistent s ≡ true → Keeps (lock pf io s)
  unfolding lock is_consistent
  Keeps-lock s h = ground (arith, is_consistent-save_data s)

  pub Keeps-set :
      (s : Store) (path : Bytes) (x : Option Secret)
      → is_consistent s ≡ true
      → Keeps (set pf io s path x)
  unfolding set
  Keeps-set s path x h = Keeps-if (is_locked s) _ _ h (
      Keeps-deref_or x s _ h (λ y. Keeps-deref_or s.crypto s _ h (λ c.
        Keeps-needs_plain (seal_secret pf io c (stamped (io.clock 0) y)) s _ h (λ e.
          Keeps-deref_or s.contents s _ h
            (λ m. is_consistent-auto_saved _ ∙ with_contents s (insert path e m) h)))))

  pub Keeps-remove :
      (s : Store) (path : Bytes) → is_consistent s ≡ true → Keeps (remove pf io s path)
  unfolding remove
  Keeps-remove s path h = Keeps-if (is_locked s) _ _ h (
      Keeps-deref_or s.contents s _ h
        (λ m. is_consistent-auto_saved _ ∙ with_contents s (delete path m) h))

  is_consistent-changed :
      (s : Store) (meta : VaultMeta) (locked : Crypto) (password v : Bytes) (m : Secrets)
      → is_consistent (changed s meta (Crypto.unlock pf.prim locked password) v m) ≡ true
  unfolding is_consistent Crypto.unlock is_unlocked
  is_consistent-changed s meta locked password v m = refl

  pub Keeps-change_password :
      (s : Store) (old new : Bytes)
      → is_consistent s ≡ true
      → Keeps (change_password pf io s old new)
  unfolding change_password rekey
  Keeps-change_password s old new h = Keeps-deref_or s.meta s _ h (λ meta.
      Keeps-deref_or s.crypto s _ h (λ c.
        Keeps-if (not (verify_password pf.prim c old meta.verification)) _ _ h (
          Keeps-needs (codes "failed to create crypto")
            (new_crypto (io.rand 0) none default_argon2_params) s _ h
            (λ locked. Keeps-needs (codes "failed to create verification") _ s _ h (λ v.
              Keeps-deref_or s.contents s _ h (λ m. Keeps-needs_plain _ s _ h (λ resealed.
                is_consistent-save_both _
                ∙ is_consistent-changed s meta locked new v resealed)))))))

  Keeps-finish_unlock :
      (s : Store) (c : Crypto) (meta : VaultMeta)
      → Reads pf
      → s.crypto ≡ some c
      → is_unlocked c ≡ true
      → s.meta ≡ some meta
      → Keeps (finish_unlock pf io (load_data pf io s))
  unfolding load_data is_consistent
  Keeps-finish_unlock s c meta reads e u m = elim (Option-cases s.disk.vault_file) [
    | inl n ↦ ground arith
    | inr (b, v) ↦ ground (arith, reads b)
  ]

  pub Keeps-unlock :
      (s : Store) (password : Bytes)
      → Reads pf
      → is_consistent s ≡ true
      → Keeps (unlock pf io s password)
  unfolding unlock
  Keeps-unlock s password reads h = Keeps-if (not (vault_exists io s)) _ _ h (
      Keeps-then_do (codes "failed to load metadata") (load_meta pf io s) _ (loaded s h) (λ s1 k.
        Keeps-deref_some s1.meta s1 _ k (λ meta m.
          Keeps-needs (codes "failed to create crypto")
            (new_crypto (io.rand 0) (some meta.salt) meta.argon2_params) s1 _ k
            (λ fresh.
              Keeps-if (not (verify_password pf.prim fresh password meta.verification)) _ _ k (
                Keeps-finish_unlock
                  (record s1 {
                    crypto = some (Crypto.unlock pf.prim fresh password);
                    unlock_time = io.clock 0;
                  })
                  (Crypto.unlock pf.prim fresh password) meta reads refl
                  (unlock-is_unlocked pf fresh password) m)))))
