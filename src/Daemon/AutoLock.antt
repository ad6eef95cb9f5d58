-- ===== src/Daemon/AutoLock.antt =====
-- The life of the daemon as a step relation: requests in any order, the functions of auto-lock timers,
-- shutdowns and restarts, each at a time that is not before the last.
use omnivault.Base.{Bool, true, false, ◌||◌, ◌&&◌, ◌==◌, ◌≡◌, ◌≤◌, Option, some}
use omnivault.Vault.Types.{Time}
use omnivault.Vault.Interface.{ok}
use omnivault.Store.Disk.{Io, Disk, new_encrypted_store}
use omnivault.Store.Operations as Operations
use omnivault.Store.Operations.{is_locked, initialize}
use omnivault.Daemon.Protocol.{respond, crashed, Server}
use omnivault.Daemon.Session.{auto_lock, shutdown, new_server}
use omnivault.Daemon.Routes.{Host, Answers, Request, Handler, Response, handler_of, serve}
use omnivault.Daemon.Pending.{is_pending}

-- The server, and the time of its last event.
abbrev pub Moment : Type 0
Moment = Time × Server

-- A timer fires at its deadline or later. `fires_late` is a timer that is no longer the server's: its
-- function had started when a request replaced it, or two requests replaced it at once. A shutdown takes
-- the stop of the timer and Lock in one step; Daemon/Lifecycle has what can come between them.
pub data Step (h : Host) : Moment → Moment → Type 0 where
  serves :
      (clock : Time) (s : Server) (a : Answers) (r : Request)
      → clock ≤ a.now
      → Step h (clock, s) (a.now, (serve h a s r).1)
  fires :
      (clock now deadline : Time) (s : Server) (io : Io)
      → s.auto_lock_timer ≡ some deadline
      → deadline ≤ now
      → clock ≤ now
      → Step h (clock, s) (now, auto_lock h.pf io now s)
  fires_late :
      (clock now : Time) (s : Server) (io : Io)
      → clock ≤ now
      → Step h (clock, s) (now, record s { store = (Operations.lock h.pf io s.store).1 })
  shuts :
      (clock now : Time) (s : Server) (io : Io)
      → clock ≤ now
      → Step h (clock, s) (now, shutdown h.pf io now s)
  restarts :
      (clock now duration : Time) (s : Server)
      → clock ≤ now
      → Step h (clock, s) (now, new_server (new_encrypted_store s.store.disk) duration)

-- The handler panicked, or answered with an internal error.
unfoldable pub is_failure : Response → Bool
is_failure (Response.handled (respond code body)) = code == 500
is_failure (Response.handled crashed) = true
is_failure Response.unrouted = false

-- The handlers whose failure can leave an unlocked vault without a timer.
abbrev pub is_critical : Option Handler → Bool
is_critical (some Handler.init) = true
is_critical (some Handler.lock) = true
is_critical _ = false

-- The requests to make or to lock a vault are not answered with a failure, and Lock returns no error
-- to a timer or a shutdown.
abbrev pub Healthy : {h : Host} {x y : Moment} → Step h x y → Type 0
Healthy {h} (Step.serves clock s a r le) =
    (is_critical (handler_of h r) && is_failure (serve h a s r).0) ≡ false
Healthy {h} (Step.fires clock now deadline s io e l le) =
    (Operations.lock h.pf io s.store).0 ≡ ok tt
Healthy {h} (Step.fires_late clock now s io le) = (Operations.lock h.pf io s.store).0 ≡ ok tt
Healthy {h} (Step.shuts clock now s io le) = (Operations.lock h.pf io s.store).0 ≡ ok tt
Healthy (Step.restarts clock now duration s le) = Unit

-- What a daemon that starts over a disk comes to by healthy steps.
pub data Reachable (h : Host) : Moment → Type 0 where
  starts :
      (d : Disk) (now duration : Time)
      → Reachable h (now, new_server (new_encrypted_store d) duration)
  goes : {x y : Moment} → Reachable h x → (step : Step h x y) → Healthy step → Reachable h y

-- The vault is locked, or a timer is pending that will lock it.
unfoldable pub is_guarded : Moment → Bool
is_guarded (now, s) = is_locked s.store || is_pending now s
