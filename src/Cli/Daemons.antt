-- ===== src/Cli/Daemons.antt =====
-- cmd/omnivault/daemon.go: the daemon commands. os/exec, the signals and the PID file are the record
-- `Processes`.
use omnivault.Base.{
  ℕ, Bytes, codes, Bool, not, Option, none, some, List, [], ◌∷◌, ◌++◌, bytes_eq, if◌then◌else◌,
}
use omnivault.Vault.Errors.{Error}
use omnivault.Vault.Interface.{Result, ok, err, panic}
use omnivault.Daemon.Protocol.{StatusResponse}
use omnivault.DaemonClient.{Answer, get_status, stop, is_daemon_running}
use omnivault.Cli.Sessions.{say}
use omnivault.Cli.Console.{Step, State, Setting, Outcome, CommandError, ◌>>=◌, fail, read_result}

-- os.Executable; the start of a detached process of its path with the arguments "daemon run", which
-- gives its PID; Run of a server with an empty configuration; the PID file, strconv.Atoi, a signal to
-- a process, and the removal of the file, where a file that does not exist is no error.
pub record Processes {ℓ} (W : Type ℓ) : Type ℓ where
  pub executable : Result Bytes
  pub start : W → Bytes → Result ℕ × W
  pub run_server : W → Option Error × W
  pub read_pid_file : W → Result Bytes
  pub atoi : Bytes → Result ℕ
  pub signal : W → ℕ → Option Error × W
  pub remove_pid_file : W → Option Error × W

module _ {ℓ} {W : Type ℓ} (os : Setting W) (processes : Processes W) where
  open os use {http, json, encoders}
  open processes use {executable, start, run_server, read_pid_file, atoi, signal, remove_pid_file}

  abbrev pub running : State W → Bool
  running s = is_daemon_running http json os.client os.windows s.world

  -- A step whose error, if any, is wrapped by `m`.
  abbrev pub effect : Bytes → State W → Option Error × W → Outcome (Unit {0}) × State W
  effect m s (none, w) = (Outcome.value tt, record s { world = w })
  effect m s (some e, w) = (Outcome.stop (CommandError.because m e), record s { world = w })

  abbrev pub started : State W → Result ℕ × W → Outcome ℕ × State W
  started s (ok pid, w) = (Outcome.value pid, record s { world = w })
  started s (err e, w) = (
    Outcome.stop (CommandError.because (codes "failed to start daemon") e),
    record s { world = w },
  )
  started s (panic, w) = (Outcome.panicked, record s { world = w })

  abbrev pub start_process : Step W (Unit {0})
  start_process = do
    exe ← read_result (codes "failed to get executable path") executable
    pid ← λ s. started s (start s.world exe)
    say os (codes "Daemon started (PID: " ++ encoders.decimal pid ++ codes ")")

  unfoldable pub daemon_start : Step W (Unit {0})
  daemon_start s =
      if running s then say os (codes "Daemon is already running") s else start_process s

  unfoldable pub kill_daemon_by_pid : Step W (Unit {0})
  kill_daemon_by_pid = do
    text ← λ s. read_result (codes "failed to read PID file") (read_pid_file s.world) s
    pid ← read_result (codes "invalid PID file") (atoi text)
    u ← λ s. effect (codes "failed to stop process") s (signal s.world pid)
    v ← λ s. effect (codes "failed to remove PID file") s (remove_pid_file s.world)
    say os (codes "Daemon stopped")

  abbrev pub or_kill : State W → Answer Bytes × W → Outcome (Unit {0}) × State W
  or_kill s (Answer.done a, w) = say os (codes "Daemon stopped") (record s { world = w })
  or_kill s (Answer.failed e, w) = kill_daemon_by_pid (record s { world = w })
  or_kill s (Answer.crashed, w) = (Outcome.panicked, record s { world = w })

  unfoldable pub daemon_stop : Step W (Unit {0})
  daemon_stop s =
      if not (running s)
      then say os (codes "Daemon is not running") s
      else or_kill s (stop http json s.world)

  abbrev pub vault_lines : StatusResponse → Step W (Unit {0})
  vault_lines status =
      if not status.vault_exists
      then say os (codes "Vault: not initialized")
      else if status.locked
      then say os (codes "Vault: locked")
      else do
        u ← say os (codes "Vault: unlocked")
        say os (codes "Secrets: " ++ encoders.decimal status.secret_count)

  abbrev pub status_lines : StatusResponse → Step W (Unit {0})
  status_lines status = do
    u ← say os (codes "Daemon: running")
    v ← say os (codes "Uptime: " ++ status.uptime)
    vault_lines status

  abbrev pub status_or_unavailable :
      State W → Answer StatusResponse × W → Outcome (Unit {0}) × State W
  status_or_unavailable s (Answer.done status, w) = status_lines status (record s { world = w })
  status_or_unavailable s (Answer.failed e, w) =
      say os (codes "Daemon: running (status unavailable)") (record s { world = w })
  status_or_unavailable s (Answer.crashed, w) = (Outcome.panicked, record s { world = w })

  unfoldable pub daemon_status : Step W (Unit {0})
  daemon_status s =
      if not (running s)
      then say os (codes "Daemon: not running") s
      else status_or_unavailable s (get_status http json s.world)

  abbrev pub served : State W → Option Error × W → Outcome (Unit {0}) × State W
  served s (none, w) = (Outcome.value tt, record s { world = w })
  served s (some e, w) = (Outcome.stop (CommandError.plain_error e), record s { world = w })

  unfoldable pub daemon_run : Step W (Unit {0})
  daemon_run = do
    u ← say os (codes "Starting OmniVault daemon...")
    λ s. served s (run_server s.world)

  unfoldable pub cmd_daemon : List Bytes → Step W (Unit {0})
  cmd_daemon [] = fail (codes "usage: omnivault daemon <start|stop|status|run>")
  cmd_daemon (name ∷ rest) =
      if bytes_eq name (codes "start")
      then daemon_start
      else if bytes_eq name (codes "stop")
      then daemon_stop
      else if bytes_eq name (codes "status")
      then daemon_status
      else if bytes_eq name (codes "run")
      then daemon_run
      else fail (codes "unknown daemon command: " ++ name)
