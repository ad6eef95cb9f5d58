-- ===== src/Store/Steps.antt =====
-- The sessions of the encrypted store as a step relation: calls in any order, whatever the system
-- answers, and restarts of the process.
use omnivault.Base.{
  Bytes, true, false, ◌≡◌, refl, Option, some, arith, has_key, Option-cases, inl, inr,
}
use omnivault.Vault.Types.{Secret}
use omnivault.Vault.Interface.{ok}
use omnivault.Store.Crypto.{Crypto}
use omnivault.Store.Disk.{VaultMeta, Secrets, Disk, Platform, Io, Store, new_encrypted_store}
use omnivault.Store.Consistency.{
  is_consistent, Reads, Keeps-initialize, Keeps-lock, Keeps-set, Keeps-remove,
  Keeps-change_password, Keeps-unlock,
}
use omnivault.Store.Contents.{IsUnlocked}
use omnivault.Store.Operations.{
  is_locked, exists, set, remove, initialize, unlock, lock, change_password,
}

-- One event in the life of the store: a call with its arguments and the answers of the system, or the
-- end of the process and a new store over the disk.
pub data Step (pf : Platform) : Store → Store → Type 0 where
  initializes : (io : Io) (s : Store) (p : Bytes) → Step pf s (initialize pf io s p).1
  unlocks : (io : Io) (s : Store) (p : Bytes) → Step pf s (unlock pf io s p).1
  locks : (io : Io) (s : Store) → Step pf s (lock pf io s).1
  sets : (io : Io) (s : Store) (p : Bytes) (x : Option Secret) → Step pf s (set pf io s p x).1
  removes : (io : Io) (s : Store) (p : Bytes) → Step pf s (remove pf io s p).1
  changes : (io : Io) (s : Store) (p q : Bytes) → Step pf s (change_password pf io s p q).1
  restarts : (s : Store) → Step pf s (new_encrypted_store s.disk)

pub data Reachable (pf : Platform) : Store → Type 0 where
  starts : (d : Disk) → Reachable pf (new_encrypted_store d)
  steps : {s t : Store} → Reachable pf s → Step pf s t → Reachable pf t

is_consistent-new_encrypted_store : (d : Disk) → is_consistent (new_encrypted_store d) ≡ true
unfolding is_consistent
is_consistent-new_encrypted_store d = refl

is_consistent-Step :
    (pf : Platform) (s t : Store)
    → Reads pf
    → Step pf s t
    → is_consistent s ≡ true
    → is_consistent t ≡ true
is_consistent-Step pf _ _ r (Step.initializes io s p) h = Keeps-initialize pf io s p h
is_consistent-Step pf _ _ r (Step.unlocks io s p) h = Keeps-unlock pf io s p r h
is_consistent-Step pf _ _ r (Step.locks io s) h = Keeps-lock pf io s h
is_consistent-Step pf _ _ r (Step.sets io s p x) h = Keeps-set pf io s p x h
is_consistent-Step pf _ _ r (Step.removes io s p) h = Keeps-remove pf io s p h
is_consistent-Step pf _ _ r (Step.changes io s p q) h = Keeps-change_password pf io s p q h
is_consistent-Step pf _ _ r (Step.restarts s) h = is_consistent-new_encrypted_store s.disk

pub is_consistent-Reachable :
    (pf : Platform) (s : Store) → Reads pf → Reachable pf s → is_consistent s ≡ true
is_consistent-Reachable pf _ r (Reachable.starts d) = is_consistent-new_encrypted_store d
is_consistent-Reachable pf _ r (Reachable.steps {s} {t} a b) =
    is_consistent-Step pf s t r b (is_consistent-Reachable pf s r a)

-- In every state that calls and restarts can reach, whatever the system answers them, a store that
-- is not locked has a key, a map and metadata, none of them nil, and Exists answers from that map.
-- Reading the vault file with encoding/json returns a map or an error.
pub exists-Reachable :
    (pf : Platform) (s : Store) (p : Bytes)
    → Reads pf
    → Reachable pf s
    → is_locked s ≡ false
    → (c : Crypto) × (m : Secrets) × (meta : VaultMeta) × IsUnlocked s c m
      × (s.meta ≡ some meta)
      × (exists s p ≡ ok (has_key p m))
unfolding is_consistent is_locked exists
exists-Reachable pf s p reads r u =
    let h = is_consistent-Reachable pf s reads r in
    elim (Option-cases s.crypto) [
      | inl n ↦ absurd (ground arith)
      | inr (c, e) ↦ elim (Option-cases s.contents) [
        | inl n ↦ absurd (ground (arith, h))
        | inr (m, k) ↦ elim (Option-cases s.meta) [
          | inl n ↦ absurd (ground (arith, h))
          | inr (meta, l) ↦ (
            c,
            m,
            meta,
            record { by_crypto = e; with_key = ground (arith, h); with_map = k },
            l,
            ground (arith, h),
          )
        ]
      ]
    ]
