-- ===== src/Cli/Offline.antt =====
-- Commands while no daemon runs.
use omnivault.Base.{
  Bytes, codes, Bool, true, false, some, List, [], ◌∷◌, lookup, bytes_eq, ◌≡◌, ◌≢◌, refl, ap, ◌∙◌,
}
use omnivault.Vault.Interface.{Result, ok, err, panic}
use omnivault.DaemonClient.{is_daemon_running}
use omnivault.Cli.Flags.{ParsedFlags}
use omnivault.Cli.Console.{
  Step, State, Setting, Stdin, Outcome, CommandError, require_daemon, read_result, password_from,
  print, read_password, warn, continue, ◌>>=◌,
}
use omnivault.Cli.Sessions.{cmd_init, cmd_unlock, cmd_lock, cmd_passwd}
use omnivault.Cli.Secrets.{cmd_set, cmd_list, cmd_delete, get_path, search_pattern}
use omnivault.Cli.Transfers.{Files, cmd_export, cmd_import}
use omnivault.Cli.Daemons.{Processes}
use omnivault.Cli.Main.{Command, command_names, Exit, run_command, exit_with, main}

-- The commands that do without a daemon.
abbrev pub is_local : Command → Bool
is_local Command.daemon = true
is_local Command.status = true
is_local Command.show_version = true
is_local Command.help = true
is_local _ = false

module _ {ℓ} {W : Type ℓ} where
  -- A step that has ended without a value and has left the world and the files alone.
  pub record IsRefused {κ} {A : Type κ} (s : State W) (o : Outcome A × State W) : Type (ℓ ⊔ κ) where
    pub no_value : (a : A) → o.0 ≢ Outcome.value a
    pub same_world : o.1.world ≡ s.world
    pub same_files : o.1.files ≡ s.files

  IsRefused-stop {κ} :
      {A : Type κ} (s t : State W) (e : CommandError)
      → t.world ≡ s.world
      → t.files ≡ s.files
      → IsRefused {A = A} s (Outcome.stop e, t)
  IsRefused-stop s t e w f = record { no_value = λ a h. cc; same_world = w; same_files = f }

-- No daemon can be reached through the world of `s`.
abbrev pub is_up {ℓ} : {W : Type ℓ} → Setting W → State W → Bool
is_up os s = is_daemon_running os.http os.json os.client os.windows s.world

module _ {ℓ} {W : Type ℓ} (os : Setting W) (s : State W) (down : is_up os s ≡ false) where
  IsRefused-require_daemon {κ} :
      {A : Type κ} (t : State W) (f : Unit {0} → Step W A)
      → t.world ≡ s.world
      → t.files ≡ s.files
      → IsRefused s ((require_daemon os >>= f) t)
  unfolding require_daemon
  IsRefused-require_daemon t f w g =
      let e : is_up os t ≡ false =
        ap (λ v. is_daemon_running os.http os.json os.client os.windows v) w ∙ down in
      rw e (IsRefused-stop s t _ w g)

  -- The value of a set is read before the daemon is looked for.
  IsRefused-after {κ} :
      {A B : Type κ} (o : Outcome A × State W) (f : A → Unit {0} → Step W B)
      → o.1.world ≡ s.world
      → o.1.files ≡ s.files
      → IsRefused s (continue o (λ a. require_daemon os >>= f a))
  IsRefused-after (Outcome.value a, t) f w g = IsRefused-require_daemon t (f a) w g
  IsRefused-after (Outcome.stop e, t) f w g = IsRefused-stop s t e w g
  IsRefused-after (Outcome.panicked, t) f w g = record {
    no_value = λ b h. cc;
    same_world = w;
    same_files = g;
  }

  read_same :
      (m : Bytes) (r : Result Bytes) (t : State W)
      → ((read_result m r t).1.world ≡ t.world) × ((read_result m r t).1.files ≡ t.files)
  read_same m (ok x) t = (refl, refl)
  read_same m (err e) t = (refl, refl)
  read_same m panic t = (refl, refl)

  password_same :
      (m : Bytes) (i : Stdin) (t : State W)
      → ((password_from m i t).1.world ≡ t.world) × ((password_from m i t).1.files ≡ t.files)
  password_same m (Stdin.terminal lines) t = read_same m _ _
  password_same m (Stdin.pipe chunks) t = read_same m _ _

  IsRefused-cmd_set : (args : List Bytes) → IsRefused s (cmd_set os args s)
  unfolding cmd_set print read_password
  IsRefused-cmd_set [] = IsRefused-stop s s _ refl refl
  IsRefused-cmd_set (path ∷ []) =
      let asked = (print (codes "Enter secret value: ") s).1 in
      let same = password_same (codes "failed to read value") s.stdin asked in
      IsRefused-after (read_password (codes "failed to read value") asked) _ same.0 same.1
  IsRefused-cmd_set (path ∷ value ∷ rest) = IsRefused-require_daemon s _ refl refl

  IsRefused-get_path :
      (flags : ParsedFlags) (args : List Bytes) → IsRefused s (get_path os flags args s)
  unfolding get_path
  IsRefused-get_path flags [] = IsRefused-stop s s _ refl refl
  IsRefused-get_path flags (path ∷ rest) = IsRefused-require_daemon s _ refl refl

  IsRefused-search_pattern :
      (flags : ParsedFlags) (args : List Bytes) → IsRefused s (search_pattern os flags args s)
  unfolding search_pattern
  IsRefused-search_pattern flags [] = IsRefused-stop s s _ refl refl
  IsRefused-search_pattern flags (pattern ∷ rest) = IsRefused-require_daemon s _ refl refl

  IsRefused-cmd_delete : (args : List Bytes) → IsRefused s (cmd_delete os args s)
  unfolding cmd_delete
  IsRefused-cmd_delete [] = IsRefused-stop s s _ refl refl
  IsRefused-cmd_delete (path ∷ rest) = IsRefused-require_daemon s _ refl refl

  IsRefused-cmd_lock : IsRefused s (cmd_lock os s)
  unfolding cmd_lock
  IsRefused-cmd_lock = rw down (IsRefused-stop s s _ refl refl)

  -- Every command that needs the daemon.
  IsRefused-run_command :
      (files : Files) (processes : Processes W) (c : Command) (args : List Bytes)
      → is_local c ≡ false
      → IsRefused s (run_command os files processes c args s)
  unfolding run_command cmd_init cmd_unlock cmd_list cmd_export cmd_import cmd_passwd
  IsRefused-run_command files processes Command.init args n = IsRefused-require_daemon s _ refl refl
  IsRefused-run_command files processes Command.unlock args n =
      IsRefused-require_daemon s _ refl refl
  IsRefused-run_command files processes Command.lock args n = IsRefused-cmd_lock
  IsRefused-run_command files processes Command.get args n = IsRefused-get_path _ _
  IsRefused-run_command files processes Command.set args n = IsRefused-cmd_set args
  IsRefused-run_command files processes Command.list args n = IsRefused-require_daemon s _ refl refl
  IsRefused-run_command files processes Command.delete args n = IsRefused-cmd_delete args
  IsRefused-run_command files processes Command.search args n = IsRefused-search_pattern _ _
  IsRefused-run_command files processes Command.export args n =
      IsRefused-require_daemon s _ refl refl
  IsRefused-run_command files processes Command.import args n =
      IsRefused-require_daemon s _ refl refl
  IsRefused-run_command files processes Command.passwd args n =
      IsRefused-require_daemon s _ refl refl
  IsRefused-run_command files processes Command.status args n = cc
  IsRefused-run_command files processes Command.daemon args n = cc
  IsRefused-run_command files processes Command.show_version args n = cc
  IsRefused-run_command files processes Command.help args n = cc

  exit_refused :
      (files : Files) (processes : Processes W) (o : Outcome (Unit {0}) × State W)
      → IsRefused s o
      → let r = exit_with os files processes o in
        (r.0 ≢ Exit.success) × (r.1.world ≡ s.world) × (r.1.files ≡ s.files)
  unfolding warn
  exit_refused files processes (Outcome.value u, t) h = absurd (h.no_value u refl)
  exit_refused files processes (Outcome.stop e, t) h = (λ q. cc, h.same_world, h.same_files)
  exit_refused files processes (Outcome.panicked, t) h = (λ q. cc, h.same_world, h.same_files)

  -- While no daemon can be reached, main does not succeed with any command but daemon, status, version
  -- and help, whatever its arguments and its input: it sends nothing to the daemon and writes no file.
  pub main-offline :
      (files : Files) (processes : Processes W) (name : Bytes) (args : List Bytes) (c : Command)
      → lookup name command_names ≡ some c
      → is_local c ≡ false
      → let (exit, t) = main os files processes (name ∷ args) s in
        (exit ≢ Exit.success) × (t.world ≡ s.world) × (t.files ≡ s.files)
  unfolding main lookup bytes_eq
  main-offline files processes name args c e n = rw e (
      exit_refused files processes (run_command os files processes c args s)
        (IsRefused-run_command files processes c args n))
