-- ===== src/Daemon/Importing.antt =====
-- internal/daemon/server.go: the loop of handleImport.
use omnivault.Base.{
  if◌then◌else◌, ℕ, suc, ◌+◌, Bytes, Bool, true, false, ◌≡◌, ◌∙◌, some, arith, lookup, insert,
  has_key, List, [], ◌∷◌, length, bytes_eq_iff, lookup-insert, Bool-cases, inl, inr, ◌⊎◌,
}
use omnivault.Vault.Types.{Secret}
use omnivault.Vault.Interface.{Result-cases, ok, err, panic}
use omnivault.Store.Disk.{Platform, Io, Store, Secrets, Outcome}
use omnivault.Store.Operations.{is_locked, exists, set, seal_secret, stamped}
use omnivault.Store.Crypto.{Crypto}
use omnivault.Store.Contents.{IsUnlocked, set-IsUnlocked, unlocked}
use omnivault.Daemon.Protocol.{ExportedSecret, ImportResponse}
use omnivault.Daemon.Bulk.{import_loop, imported_secret, count_set, Import}

abbrev pub total : ImportResponse → ℕ
total n = n.imported + n.skipped + n.errors

-- An import that returns has counted each secret of the request exactly once, as imported, as skipped
-- or as an error; nothing is skipped unless the request asks for a merge.
pub total-import_loop :
    (pf : Platform) (merge : Bool) (ios : ℕ → Io) (xs : List ExportedSecret) (n r : ImportResponse)
    (s : Store)
    → (import_loop pf merge ios xs n s).0 ≡ ok r
    → (total r ≡ total n + length xs) × (r.skipped ≡ (if merge then r.skipped else n.skipped))
unfolding import_loop
total-import_loop pf merge ios [] n r s h = ground arith
total-import_loop pf merge ios (x ∷ xs) n r s h =
    let t = (set pf (ios 0) s x.path (some (imported_secret x))).1 in
    ground (
      arith,
      total-import_loop pf merge (λ i. ios (suc i)) xs (record n { skipped = n.skipped + 1 }) r s,
      total-import_loop pf merge (λ i. ios (suc i)) xs (record n { imported = n.imported + 1 }) r t,
      total-import_loop pf merge (λ i. ios (suc i)) xs (record n { errors = n.errors + 1 }) r t,
    )

-- Whatever a Set does to an unlocked store, it stays unlocked, and its map is as before or has a new
-- entry at the path.
set_effect :
    (pf : Platform) (io : Io) (s : Store) (c : Crypto) (m : Secrets) (p : Bytes) (x : Secret)
    → IsUnlocked s c m
    → IsUnlocked (set pf io s p (some x)).1 c m
      ⊎ ((e : Bytes) × IsUnlocked (set pf io s p (some x)).1 c (insert p e m))
unfolding set
set_effect pf io s c m p x u = elim (Result-cases (seal_secret pf io c (stamped (io.clock 0) x))) [
  | inl (e, h) ↦ inr (e, set-IsUnlocked pf io s c m u p x e h)
  | inr (inl (e, h)) ↦ inl (kept (ground (arith, unlocked pf io s c m u, u.by_crypto, h)))
  | inr (inr h) ↦ inl (kept (ground (arith, unlocked pf io s c m u, u.by_crypto, h)))
]
  where
    kept : (set pf io s p (some x)).1 ≡ s → IsUnlocked (set pf io s p (some x)).1 c m
    kept e = rw e u

exists_unlocked :
    (s : Store) (c : Crypto) (m : Secrets) (p : Bytes)
    → IsUnlocked s c m
    → exists s p ≡ ok (has_key p m)
unfolding exists is_locked
exists_unlocked s c m p u = ground (arith, u.by_crypto, u.with_key, u.with_map)

-- The store is unlocked by `c`, with a map that has `e` at `q`.
abbrev pub Holds : Crypto → Bytes → Bytes → Store → Type 0
Holds c q e s = (m : Secrets) × IsUnlocked s c m × (lookup q m ≡ some e)

set-Holds :
    (pf : Platform) (io : Io) (s : Store) (c : Crypto) (p q e : Bytes) (x : Secret)
    → ((m : Secrets) × IsUnlocked s c m × (lookup q m ≡ some e) × (has_key p m ≡ false))
    → Holds c q e (set pf io s p (some x)).1
unfolding has_key
set-Holds pf io s c p q e x (m, u, l, k) = elim (set_effect pf io s c m p x u) [
  | inl v ↦ (m, v, l)
  | inr (enc, v) ↦ (insert p enc m, v, lookup-insert p q enc m ∙ ground (arith, bytes_eq_iff p q))
]

count_set-Holds :
    (pf : Platform) (c : Crypto) (q e : Bytes) (o : Outcome) (n : ImportResponse)
    (next : ImportResponse → Store → Import)
    → Holds c q e o.1
    → ((k : ImportResponse) (t : Store) → Holds c q e t → Holds c q e (next k t).1)
    → Holds c q e (count_set pf true o n next).1
count_set-Holds pf c q e (ok u, t) n next h keep = keep (record n { imported = n.imported + 1 }) t h
count_set-Holds pf c q e (err x, t) n next h keep = keep (record n { errors = n.errors + 1 }) t h
count_set-Holds pf c q e (panic, t) n next h keep = h

-- An import with merge into an unlocked vault keeps every secret that is there: whatever the
-- request and the answers of the system, the vault stays unlocked and has the same sealed secret
-- at the path.
pub import_loop-merge :
    (pf : Platform) (ios : ℕ → Io) (xs : List ExportedSecret) (n : ImportResponse) (s : Store)
    (c : Crypto) (q e : Bytes)
    → Holds c q e s
    → Holds c q e (import_loop pf true ios xs n s).1
unfolding import_loop
import_loop-merge pf ios [] n s c q e h = h
import_loop-merge pf ios (x ∷ xs) n s c q e (m, u, l) = elim (Bool-cases (has_key x.path m)) [
  | inl k ↦
      rw (exists_unlocked s c m x.path u, k)
        (import_loop-merge pf (λ i. ios (suc i)) xs (record n { skipped = n.skipped + 1 }) s c q e
          (m, u, l))
  | inr k ↦
      rw (exists_unlocked s c m x.path u, k)
        (count_set-Holds pf c q e (set pf (ios 0) s x.path (some (imported_secret x))) n
          (import_loop pf true (λ i. ios (suc i)) xs)
          (set-Holds pf (ios 0) s c x.path q e (imported_secret x) (m, u, l, k))
          (λ r t. import_loop-merge pf (λ i. ios (suc i)) xs r t c q e))
]
