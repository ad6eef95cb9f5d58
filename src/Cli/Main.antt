-- ===== src/Cli/Main.antt =====
-- cmd/omnivault/main.go: the choice of the command and the exit of the process. The texts of the errors
-- are those of their Error methods.
use omnivault.Base.{Bytes, codes, none, some, List, [], ◌∷◌, ◌++◌, Map, lookup}
use omnivault.Vault.Errors.{error_text}
use omnivault.DaemonClient.{ClientError, daemon_error_text}
use omnivault.Cli.Console.{Step, State, Setting, Outcome, CommandError, print, warn}
use omnivault.Cli.Sessions.{cmd_init, cmd_unlock, cmd_lock, cmd_status, cmd_passwd}
use omnivault.Cli.Secrets.{cmd_get, cmd_set, cmd_list, cmd_delete, cmd_search}
use omnivault.Cli.Transfers.{Files, cmd_export, cmd_import}
use omnivault.Cli.Daemons.{Processes, cmd_daemon}
use omnivault.Cli.Usage.{usage_lines, unlines}

abbrev pub version : Bytes
version = codes "0.5.0"

pub data Command : Type 0 where
  init unlock lock status get set list delete search export import passwd : Command
  daemon show_version help : Command

-- The cases of the switch on the first argument.
abbrev pub command_names : Map Command
command_names =
    (codes "init", Command.init)
    ∷ (codes "unlock", Command.unlock)
    ∷ (codes "lock", Command.lock)
    ∷ (codes "status", Command.status)
    ∷ (codes "get", Command.get)
    ∷ (codes "set", Command.set)
    ∷ (codes "list", Command.list)
    ∷ (codes "ls", Command.list)
    ∷ (codes "delete", Command.delete)
    ∷ (codes "rm", Command.delete)
    ∷ (codes "search", Command.search)
    ∷ (codes "export", Command.export)
    ∷ (codes "import", Command.import)
    ∷ (codes "passwd", Command.passwd)
    ∷ (codes "daemon", Command.daemon)
    ∷ (codes "version", Command.show_version)
    ∷ (codes "help", Command.help)
    ∷ (codes "-h", Command.help)
    ∷ (codes "--help", Command.help)
    ∷ []

-- The process ends with a status, or by a panic.
pub data Exit : Type 0 where
  success failure crashed : Exit

module _ {ℓ} {W : Type ℓ} (os : Setting W) (files : Files) (processes : Processes W) where
  open os use {encoders}

  unfoldable pub client_error_text : ClientError → Bytes
  client_error_text (ClientError.wrapped m e) = m ++ codes ": " ++ error_text e
  client_error_text (ClientError.bad_status n body) =
      codes "request failed with status " ++ encoders.decimal n ++ codes ": " ++ body
  client_error_text (ClientError.daemon e) = daemon_error_text e

  unfoldable pub command_error_text : CommandError → Bytes
  command_error_text (CommandError.plain m) = m
  command_error_text (CommandError.because m e) = m ++ codes ": " ++ error_text e
  command_error_text (CommandError.call_failed e) = client_error_text e
  command_error_text (CommandError.because_call m e) = m ++ codes ": " ++ client_error_text e
  command_error_text (CommandError.plain_error e) = error_text e

  abbrev pub print_usage : Step W (Unit {0})
  print_usage = print (unlines usage_lines)

  unfoldable pub run_command : Command → List Bytes → Step W (Unit {0})
  run_command Command.init args = cmd_init os
  run_command Command.unlock args = cmd_unlock os
  run_command Command.lock args = cmd_lock os
  run_command Command.status args = cmd_status os args
  run_command Command.get args = cmd_get os args
  run_command Command.set args = cmd_set os args
  run_command Command.list args = cmd_list os args
  run_command Command.delete args = cmd_delete os args
  run_command Command.search args = cmd_search os args
  run_command Command.export args = cmd_export os files args
  run_command Command.import args = cmd_import os files args
  run_command Command.passwd args = cmd_passwd os
  run_command Command.daemon args = cmd_daemon os processes args
  run_command Command.show_version args = print (codes "omnivault version " ++ version ++ 10 ∷ [])
  run_command Command.help args = print_usage

  abbrev pub exit_with : Outcome (Unit {0}) × State W → Exit × State W
  exit_with (Outcome.value u, s) = (Exit.success, s)
  exit_with (Outcome.stop e, s) =
      (Exit.failure, (warn (codes "Error: " ++ command_error_text e ++ 10 ∷ []) s).1)
  exit_with (Outcome.panicked, s) = (Exit.crashed, s)

  abbrev pub unknown : Bytes → State W → Exit × State W
  unknown name s =
      let told = (warn (codes "Unknown command: " ++ name ++ 10 ∷ 10 ∷ []) s).1 in
      (Exit.failure, (print_usage told).1)

  -- The arguments are those after the name of the program.
  unfoldable pub main : List Bytes → State W → Exit × State W
  main [] s = (Exit.failure, (print_usage s).1)
  main (name ∷ args) s = elim (lookup name command_names) [
    | none ↦ unknown name s
    | some command ↦ exit_with (run_command command args s)
  ]
