-- ===== src/Daemon/Locking.antt =====
-- The lock request and the auto-lock timer.
use omnivault.Base.{codes, true, false, ◌≡◌, none, some, arith, Option-cases, inl, inr}
use omnivault.Vault.Types.{Time}
use omnivault.Vault.Errors.{Error, prefixed}
use omnivault.Store.Disk.{Platform, Io, Store, save_data}
use omnivault.Store.Operations as Operations
use omnivault.Store.Operations.{is_locked, secret_count}
use omnivault.Store.Crypto.{Crypto, is_unlocked}
use omnivault.Daemon.Protocol.{Method, Server}
use omnivault.Daemon.Session.{handle_lock, done, internal_error}

save_data-crypto :
    (pf : Platform) (io : Io) (s : Store)
    → ((save_data pf io s).1.crypto ≡ s.crypto) × ((save_data pf io s).1.contents ≡ s.contents)
unfolding save_data
save_data-crypto pf io s = ground arith

-- A lock request to an unlocked vault that is answered with success leaves the vault locked, no
-- secret in memory and no auto-lock pending.
pub handle_lock-done :
    (pf : Platform) (io : Io) (now : Time) (s : Server)
    → is_locked s.store ≡ false
    → (handle_lock pf io now s Method.post).0 ≡ done (codes "vault locked")
    → let t = (handle_lock pf io now s Method.post).1 in
      (is_locked t.store ≡ true) × (t.auto_lock_timer ≡ none) × (secret_count t.store ≡ 0)
unfolding handle_lock Operations.lock is_locked secret_count
handle_lock-done pf io now s u h = elim (Option-cases s.store.crypto) [
  | inl n ↦ absurd (ground arith)
  | inr (c, k) ↦ (
    ground (arith, save_data-crypto pf io s.store),
    ground (arith, save_data-crypto pf io s.store),
    ground (arith, save_data-crypto pf io s.store),
  )
]

-- A lock request to an unlocked vault with unsaved changes, where the directory of the vault file
-- cannot be made, answers 500 and leaves the vault unlocked, with no auto-lock pending any more.
pub handle_lock-unsaved :
    (pf : Platform) (io : Io) (now : Time) (s : Server) (c : Crypto) (e : Error)
    → s.store.crypto ≡ some c
    → is_unlocked c ≡ true
    → s.store.dirty ≡ true
    → io.mkdir_vault ≡ some e
    → let (answer, t) = handle_lock pf io now s Method.post in
      (answer ≡ internal_error (prefixed (codes "failed to save data") e))
      × (is_locked t.store ≡ false)
      × (t.auto_lock_timer ≡ none)
unfolding handle_lock Operations.lock save_data is_locked
handle_lock-unsaved pf io now s c e k u d f = ground arith
