-- ===== src/Daemon/Deadlines.antt =====
-- The auto-lock timer over whole runs of the daemon.
use omnivault.Base.{
  Bytes, true, false, ◌≡◌, ◌≤◌, ◌+◌, refl, Option, none, some, arith, Option-cases, inl, inr,
}
use omnivault.Vault.Interface.{ok}
use omnivault.Vault.Types.{Time}
use omnivault.Store.Disk.{Io, Disk, Written, Secrets, new_encrypted_store}
use omnivault.Store.Consistency.{Reads}
use omnivault.Store.Locking.{lock-ok, lock-works}
use omnivault.Store.Operations.{is_locked}
use omnivault.Daemon.Protocol.{Server}
use omnivault.Daemon.Session.{auto_lock, shutdown, new_server}
use omnivault.Daemon.Routes.{Host}
use omnivault.Daemon.Pending.{is_pending}
use omnivault.Daemon.AutoLock.{Moment, Step, Healthy, Reachable, is_guarded}
use omnivault.Daemon.Guarded.{by_lock, serve-is_guarded}

is_guarded-later :
    (clock now : Time) (s : Server)
    → clock ≤ now
    → is_guarded (clock, s) ≡ true
    → is_guarded (now, s) ≡ true
unfolding is_guarded is_pending
is_guarded-later clock now s le g = ground arith

is_guarded-new_server :
    (d : Disk) (now duration : Time)
    → is_guarded (now, new_server (new_encrypted_store d) duration) ≡ true
unfolding is_guarded is_locked new_server
is_guarded-new_server d now duration = refl

-- Every healthy step keeps an unlocked vault guarded by a timer.
is_guarded-Step :
    (h : Host) (x y : Moment) (step : Step h x y)
    → Reads h.pf
    → Healthy step
    → is_guarded x ≡ true
    → is_guarded y ≡ true
unfolding auto_lock shutdown
is_guarded-Step h _ _ (Step.serves clock s a r le) reads k g =
    serve-is_guarded h a s r reads k (is_guarded-later clock a.now s le g)
is_guarded-Step h _ _ (Step.fires clock now deadline s io e l le) reads k g =
    by_lock now (auto_lock h.pf io now s) (lock-ok h.pf io s.store k)
is_guarded-Step h _ _ (Step.fires_late clock now s io le) reads k g =
    by_lock now _ (lock-ok h.pf io s.store k)
is_guarded-Step h _ _ (Step.shuts clock now s io le) reads k g =
    by_lock now (shutdown h.pf io now s) (lock-ok h.pf io s.store k)
is_guarded-Step h _ _ (Step.restarts clock now duration s le) reads k g =
    is_guarded-new_server s.store.disk now duration

is_guarded-Reachable : (h : Host) (x : Moment) → Reads h.pf → Reachable h x → is_guarded x ≡ true
is_guarded-Reachable h _ reads (Reachable.starts d now duration) =
    is_guarded-new_server d now duration
is_guarded-Reachable h _ reads (Reachable.goes {x} {y} run step k) =
    is_guarded-Step h x y step reads k (is_guarded-Reachable h x reads run)

pending_deadline :
    (now : Time) (s : Server)
    → is_guarded (now, s) ≡ true
    → is_locked s.store ≡ false
    → (t : Time) × (s.auto_lock_timer ≡ some t) × (t ≤ now + s.auto_lock_duration)
unfolding is_guarded is_pending
pending_deadline now s g u = elim (Option-cases s.auto_lock_timer) [
  | inl n ↦ absurd (ground arith)
  | inr (t, e) ↦ (t, e, ground arith)
]

-- In every state that healthy steps reach from the start of a daemon, an unlocked vault has a pending
-- timer, due within the auto-lock duration of the last event; once that time has passed without a
-- further event the timer can fire, and where the vault file can be written it locks the vault. A step
-- is healthy if no request to make or to lock a vault fails with an internal error and if Lock returns
-- no error to a timer or a shutdown. encoding/json returns a map or an error when it reads the vault file, and writes
-- every map.
pub auto_locks :
    (h : Host) (clock : Time) (s : Server) (io : Io)
    → Reads h.pf
    → ((m : Option Secrets) → (b : Bytes) × (h.pf.codec.marshal_data m ≡ ok b))
    → Reachable h (clock, s)
    → is_locked s.store ≡ false
    → io.mkdir_vault ≡ none
    → io.write_vault ≡ Written.done
    → let due = clock + s.auto_lock_duration in
      (deadline : Time) × (s.auto_lock_timer ≡ some deadline)
      × (deadline ≤ due)
      × Step h (clock, s) (due, auto_lock h.pf io due s)
      × (is_locked (auto_lock h.pf io due s).store ≡ true)
unfolding auto_lock
auto_locks h clock s io reads writes run u d w =
    let due = clock + s.auto_lock_duration in
    let (t, e, l) = pending_deadline clock s (is_guarded-Reachable h (clock, s) reads run) u in
    (
      t,
      e,
      l,
      Step.fires clock due t s io e l (omega arith),
      lock-ok h.pf io s.store (lock-works h.pf io s.store writes d w),
    )
