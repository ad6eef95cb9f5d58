-- ===== src/Cli/Sessions.antt =====
-- cmd/omnivault/init.go: the commands init, unlock, lock, status and passwd.
use omnivault.Base.{
  Bytes, codes, Bool, not, Option, none, some, List, [], ◌∷◌, ◌++◌, ltb, bytes_eq, if◌then◌else◌,
}
use omnivault.Output.Writer.{write_status}
use omnivault.Daemon.Protocol.{StatusResponse}
use omnivault.DaemonClient.{
  get_status, initialize, unlock, lock, change_password, is_daemon_running,
}
use omnivault.Cli.Flags.{ParsedFlags, parse_flags}
use omnivault.Cli.Console.{
  Step, Setting, CommandError, ◌>>=◌, give, require, print, read_password, byte_length, call,
  write_out, require_daemon, output_format,
}

module _ {ℓ} {W : Type ℓ} (os : Setting W) where
  open os use {http, json, codec, config_file, encoders}

  abbrev pub prompt : Bytes → Step W Bytes
  prompt text = do u ← print text; read_password (codes "failed to read password")

  abbrev pub say : Bytes → Step W (Unit {0})
  say text = print (text ++ 10 ∷ [])

  abbrev pub status_of : Step W StatusResponse
  status_of =
      call (CommandError.because_call (codes "failed to get status")) (λ w. get_status http json w)

  abbrev pub same_password : Bytes → Bytes → Step W Bytes
  same_password password confirm = do
    v ← require (bytes_eq password confirm) (codes "passwords do not match")
    give password

  abbrev pub confirmed : Bytes → Bytes → Step W Bytes
  confirmed second password = do confirm ← prompt second; same_password password confirm

  abbrev pub long_enough : Bytes → Bytes → Step W Bytes
  long_enough second password = do
    u ←
        require (not (ltb (byte_length password) 8))
          (codes "password must be at least 8 characters")
    confirmed second password

  -- A new password, entered twice.
  abbrev pub new_password : Bytes → Bytes → Step W Bytes
  new_password first second = do password ← prompt first; long_enough second password

  abbrev pub init_calls : Bytes → Step W (Unit {0})
  init_calls password = do
    reply ←
        call (CommandError.because_call (codes "failed to initialize vault"))
          (λ w. initialize http json w password)
    u ← say (codes "Vault initialized successfully!")
    say (codes "Your vault is now unlocked and ready to use.")

  abbrev pub init_entered : Step W (Unit {0})
  init_entered = do
    password ←
        new_password (codes "Enter master password (min 8 chars): ")
          (codes "Confirm master password: ")
    init_calls password

  abbrev pub init_checked : StatusResponse → Step W (Unit {0})
  init_checked status = do
    v ← require (not status.vault_exists) (codes "vault already exists")
    init_entered

  abbrev pub init_running : Step W (Unit {0})
  init_running = do status ← status_of; init_checked status

  unfoldable pub cmd_init : Step W (Unit {0})
  cmd_init = do u ← require_daemon os; init_running

  abbrev pub unlock_calls : Bytes → Step W (Unit {0})
  unlock_calls password = do
    reply ←
        call (CommandError.because_call (codes "failed to unlock"))
          (λ w. unlock http json w password)
    say (codes "Vault unlocked successfully!")

  abbrev pub unlock_locked : Step W (Unit {0})
  unlock_locked = do password ← prompt (codes "Enter master password: "); unlock_calls password

  abbrev pub unlock_if : Bool → Step W (Unit {0})
  unlock_if locked = if not locked then say (codes "Vault is already unlocked") else unlock_locked

  unfoldable pub cmd_unlock : Step W (Unit {0})
  cmd_unlock = do
    u ← require_daemon os
    status ← status_of
    v ← require status.vault_exists (codes "vault does not exist, run: omnivault init")
    unlock_if status.locked

  abbrev pub require_running : Step W (Unit {0})
  require_running s =
      require (is_daemon_running http json os.client os.windows s.world)
        (codes "daemon is not running") s

  unfoldable pub cmd_lock : Step W (Unit {0})
  cmd_lock = do
    u ← require_running
    reply ← call (CommandError.because_call (codes "failed to lock")) (λ w. lock http json w)
    say (codes "Vault locked")

  abbrev pub status_written : ParsedFlags → Option StatusResponse → Step W (Unit {0})
  status_written flags status =
      write_out (write_status encoders (output_format codec config_file flags) status)

  abbrev pub status_called : ParsedFlags → Step W (Unit {0})
  status_called flags = do status ← status_of; status_written flags (some status)

  unfoldable pub cmd_status : List Bytes → Step W (Unit {0})
  cmd_status args s =
      let flags = parse_flags args [] in
      if is_daemon_running http json os.client os.windows s.world
      then status_called flags s
      else status_written flags none s

  abbrev pub passwd_calls : Bytes → Bytes → Step W (Unit {0})
  passwd_calls current password = do
    reply ←
        call (CommandError.because_call (codes "failed to change password"))
          (λ w. change_password http json w current password)
    say (codes "Password changed successfully!")

  abbrev pub first_prompt : Bytes
  first_prompt = codes "Enter new password (min 8 chars): "

  abbrev pub second_prompt : Bytes
  second_prompt = codes "Confirm new password: "

  abbrev pub passwd_new : Bytes → Step W (Unit {0})
  passwd_new current = do
    password ← new_password first_prompt second_prompt
    passwd_calls current password

  abbrev pub passwd_entered : Step W (Unit {0})
  passwd_entered = do current ← prompt (codes "Enter current password: "); passwd_new current

  abbrev pub passwd_unlocked : StatusResponse → Step W (Unit {0})
  passwd_unlocked status = do
    x ←
        require (not status.locked)
          (codes "vault is locked, unlock it first with: omnivault unlock")
    passwd_entered

  abbrev pub passwd_checked : StatusResponse → Step W (Unit {0})
  passwd_checked status = do
    v ← require status.vault_exists (codes "vault does not exist, run: omnivault init")
    passwd_unlocked status

  abbrev pub passwd_running : Step W (Unit {0})
  passwd_running = do status ← status_of; passwd_checked status

  unfoldable pub cmd_passwd : Step W (Unit {0})
  cmd_passwd = do u ← require_daemon os; passwd_running
