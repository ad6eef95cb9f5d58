-- ===== src/Daemon/Lifecycle.antt =====
-- internal/daemon/server.go: how the daemon starts, serves and ends. The operating system is the record
-- `Os` over its state `W`; net/http's Serve is a parameter, the log is left out.
use omnivault.Base.{ℕ, Bytes, codes, Bool, true, Option, none, some, if◌then◌else◌}
use omnivault.Vault.Errors.{Error, prefixed}
use omnivault.Config.{Paths, ensure_config_dir, cleanup_socket}
use omnivault.Store.Disk.{Platform, Io}
use omnivault.Daemon.Protocol.{Server}
use omnivault.Store.Operations as Operations

-- Each call gives its error, if any, and what it has made of the state. `listen` takes a network and an
-- address; `write_private` is fs.WriteFilePrivate; `close` is Shutdown of the HTTP server.
pub record Os {ℓ} (W : Type ℓ) : Type ℓ where
  pub windows : Bool
  pub mkdir_private : W → Bytes → Option Error × W
  pub remove : W → Bytes → Option Error × W
  pub listen : W → Bytes → Bytes → Option Error × W
  pub write_private : W → Bytes → Bytes → Option Error × W
  pub close : W → Option Error × W
  pub pid : ℕ
  pub decimal : ℕ → Bytes

-- What Run waits for: the end of its context, a signal, or the return of Serve, whose error is none
-- for ErrServerClosed too.
pub data Ended : Type 0 where
  cancelled : Ended
  signalled : Ended
  served : Option Error → Ended

-- What happens to the server during a Shutdown, which does not hold its mutex, while requests are still
-- served and timers fire: between the stop of the timer and Lock, and from there until the HTTP server
-- has been shut down.
pub record Meanwhile {ℓ} (W : Type ℓ) : Type ℓ where
  pub before_lock : Server → W → Server × W
  pub before_close : Server → W → Server × W

module _ {ℓ} {W : Type ℓ} (os : Os W) (paths : Paths) where
  open os use {windows, mkdir_private, remove, listen, write_private, close, pid, decimal}

  unfoldable pub create_listener : W → Option Error × W
  create_listener w =
      if windows
      then listen w (codes "tcp") paths.tcp_addr
      else listen w (codes "unix") paths.socket_path

  unfoldable pub write_pid_file : W → Option Error × W
  write_pid_file w = write_private w paths.pid_file (decimal pid)

  -- s.server.Shutdown, if there is an HTTP server.
  abbrev pub close_server : Bool → W → W
  close_server started w = if started then (close w).1 else w

  module _ (pf : Platform) (io : Io) (meanwhile : Meanwhile W) where
    -- What Shutdown does to the server: it stops the timer, and locks the store; a failure to lock is
    -- logged only.
    abbrev pub locked_by_shut_down : Server → W → Server × W
    locked_by_shut_down s w =
        let (t, v) = meanwhile.before_lock (record s { auto_lock_timer = none }) w in
        (record t { store = (Operations.lock pf io t.store).1 }, v)

    -- Shutdown; the removals of the socket and of the PID file may fail unnoticed.
    unfoldable pub shut_down : Bool → Server → W → Server × W
    shut_down started s w =
        let (s1, w1) = locked_by_shut_down s w in
        let (s2, w2) = meanwhile.before_close s1 w1 in
        let closed = close_server started w2 in
        let cleaned = (cleanup_socket paths windows remove closed).1 in
        (s2, (remove cleaned paths.pid_file).1)

    -- What handleStop starts behind its reply: Shutdown, whose error is only logged, and the exit status
    -- of the process. The pause before it is left out.
    abbrev after_stop : Server → W → ℕ × Server × W
    after_stop s w = let (t, v) = shut_down true s w in (0, t, v)

    abbrev pub ended_with : Ended → Server → W → Option Error × Server × W
    ended_with (Ended.served (some e)) s w = (some e, s, w)
    ended_with (Ended.served none) s w = let (t, v) = shut_down true s w in (none, t, v)
    ended_with Ended.cancelled s w = let (t, v) = shut_down true s w in (none, t, v)
    ended_with Ended.signalled s w = let (t, v) = shut_down true s w in (none, t, v)

    abbrev pub listening :
        (Server → W → Ended × Server × W) → Server → Option Error × W → Option Error × Server × W
    listening serving s (some e, w) = (some (prefixed (codes "failed to create listener") e), s, w)
    listening serving s (none, w) =
        let (how, t, v) = serving s (write_pid_file w).1 in ended_with how t v

    abbrev pub prepared :
        (Server → W → Ended × Server × W) → Server → Option Error × W → Option Error × Server × W
    prepared serving s (some e, w) =
        (some (prefixed (codes "failed to create config directory") e), s, w)
    prepared serving s (none, w) =
        listening serving s (create_listener (cleanup_socket paths windows remove w).1)

    -- Run: `serving` is what happens while the server listens, with what ends it.
    unfoldable pub run : (Server → W → Ended × Server × W) → Server → W → Option Error × Server × W
    run serving s w = prepared serving s (ensure_config_dir paths mkdir_private w)
