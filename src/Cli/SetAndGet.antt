-- ===== src/Cli/SetAndGet.antt =====
-- A secret from the command line to the vault and back.
use omnivault.Base.{
  Bytes, codes, true, false, none, [], ◌∷◌, ◌++◌, lookup, bytes_eq, is_empty, has_prefix, ◌≡◌, refl,
  sym, ap, append-nil, sort_strings, keys,
}
use mathlib.Core.Path.{subst}
use omnivault.Config.{Reading, load_config_from_file}
use omnivault.Output.Format.{Format, parse_format}
use omnivault.Output.Writer.{write_secret, write_text_secret, write_fields, sorted_keys}
use omnivault.Daemon.Protocol.{SecretResponse}
use omnivault.DaemonClient as DaemonClient
use omnivault.DaemonClient.{Answer, ClientError, is_daemon_running}
use omnivault.Cli.Flags.{Kind, kind, no_flags, parse_flags, parse_loop}
use omnivault.Cli.Flags as Flags
use omnivault.Cli.Console.{
  State, Setting, Outcome, CommandError, answered, call, print, warn, require_daemon, output_format,
  write_out,
}
use omnivault.Cli.Transfers.{Files}
use omnivault.Cli.Daemons.{Processes}
use omnivault.Cli.Main.{Exit, exit_with, run_command, main}
use omnivault.Cli.Secrets.{cmd_set, cmd_get, get_path, shown}

module _ {ℓ} {W : Type ℓ} (os : Setting W) where
  open os use {http, json, codec, config_file, texts, encoders, now}

  pub answered-done {κ} :
      {A : Type κ} (f : ClientError → CommandError) (s : State W) (r : Answer A × W) (a : A)
      → r.0 ≡ Answer.done a
      → answered f s r ≡ (Outcome.value a, record s { world = r.1 })
  answered-done f s r a h = rw h refl

  abbrev pub saved_line : Bytes → Bytes
  saved_line path = codes "Secret '" ++ path ++ codes "' saved" ++ 10 ∷ []

  -- Set of a value that is given as an argument.
  pub cmd_set-done :
      (s : State W) (path value message : Bytes)
      → is_daemon_running http json os.client os.windows s.world ≡ true
      → (DaemonClient.set_secret http json s.world path value none none).0 ≡ Answer.done message
      → cmd_set os (path ∷ value ∷ []) s ≡ (
        Outcome.value tt,
        record s {
          world = (DaemonClient.set_secret http json s.world path value none none).1;
          stdout = s.stdout ++ saved_line path;
        },
      )
  unfolding cmd_set require_daemon call print
  cmd_set-done s path value message up h = rw (up, h) refl

  -- What Get prints of a secret without fields, in the format that is the default.
  write_text_secret-plain :
      (r : SecretResponse)
      → is_empty r.value ≡ false
      → r.fields ≡ none
      → write_text_secret r ≡ r.value ++ 10 ∷ []
  unfolding write_text_secret write_fields sorted_keys sort_strings keys
  write_text_secret-plain r v n = rw (n, v) (append-nil (r.value ++ 10 ∷ []))

  shown-text :
      (s : State W) (flags : Flags.ParsedFlags) (r : SecretResponse)
      → output_format codec config_file flags ≡ Format.text
      → Flags.get flags (codes "field") ≡ []
      → is_empty r.value ≡ false
      → r.fields ≡ none
      → ((shown os flags r s).0 ≡ Outcome.value tt)
        × ((shown os flags r s).1.stdout ≡ s.stdout ++ (r.value ++ 10 ∷ []))
  unfolding print warn write_out write_secret
  shown-text s flags r t f v n =
      rw (t, f) (refl, ap (λ text. s.stdout ++ text) (write_text_secret-plain r v n))

  text_by_default :
      (path : Bytes)
      → config_file ≡ Reading.missing
      → output_format codec config_file (record no_flags { args = path ∷ [] }) ≡ Format.text
  unfolding output_format load_config_from_file parse_format Flags.get lookup bytes_eq
  text_by_default path c = rw c refl

  abbrev one_arg : Bytes → Flags.ParsedFlags
  one_arg path = record no_flags { args = path ∷ [] }

  parse_flags-positional :
      (path : Bytes) → kind [] path ≡ Kind.positional → parse_flags (path ∷ []) [] ≡ one_arg path
  unfolding parse_flags parse_loop kind has_prefix
  parse_flags-positional path k = rw k refl

  -- The secret's value has been printed, on a line of its own.
  abbrev Prints : Bytes → State W → Outcome (Unit {0}) × State W → Type 0
  Prints text s o = (o.0 ≡ Outcome.value tt) × (o.1.stdout ≡ s.stdout ++ (text ++ 10 ∷ []))

  get_path-done :
      (s : State W) (path : Bytes) (r : SecretResponse)
      → is_daemon_running http json os.client os.windows s.world ≡ true
      → config_file ≡ Reading.missing
      → (DaemonClient.get_secret http json s.world path).0 ≡ Answer.done r
      → is_empty r.value ≡ false
      → r.fields ≡ none
      → Prints r.value s (get_path os (one_arg path) (path ∷ []) s)
  unfolding get_path require_daemon call Flags.get lookup
  get_path-done s path r up c h v n =
      rw (up, h)
        (shown-text (record s { world = (DaemonClient.get_secret http json s.world path).1 })
          (one_arg path) r (text_by_default path c) refl v n)

  -- Get of a path that is no flag.
  pub cmd_get-done :
      (s : State W) (path : Bytes) (r : SecretResponse)
      → is_daemon_running http json os.client os.windows s.world ≡ true
      → kind [] path ≡ Kind.positional
      → config_file ≡ Reading.missing
      → (DaemonClient.get_secret http json s.world path).0 ≡ Answer.done r
      → is_empty r.value ≡ false
      → r.fields ≡ none
      → Prints r.value s (cmd_get os (path ∷ []) s)
  cmd_get-done s path r up k c h v n =
      subst (λ (p : Flags.ParsedFlags). Prints r.value s (get_path os p p.args s))
        (sym (parse_flags-positional path k)) (get_path-done s path r up c h v n)

-- The exit status and the state of a command that ends with a value.
pub exit-value {ℓ} :
    {W : Type ℓ} (os : Setting W) (files : Files) (processes : Processes W)
    (o : Outcome (Unit {0}) × State W)
    → o.0 ≡ Outcome.value tt
    → exit_with os files processes o ≡ (Exit.success, o.1)
exit-value os files processes (Outcome.value u, s) h = refl
exit-value os files processes (Outcome.stop e, s) h = cc
exit-value os files processes (Outcome.panicked, s) h = cc

module _ {ℓ} {W : Type ℓ} (os : Setting W) (files : Files) (processes : Processes W) where
  pub main-set :
      (path value : Bytes) (s : State W)
      → main os files processes (codes "set" ∷ path ∷ value ∷ []) s
        ≡ exit_with os files processes (cmd_set os (path ∷ value ∷ []) s)
  unfolding main lookup bytes_eq run_command
  main-set path value s = refl

  pub main-get :
      (path : Bytes) (s : State W)
      → main os files processes (codes "get" ∷ path ∷ []) s
        ≡ exit_with os files processes (cmd_get os (path ∷ []) s)
  unfolding main lookup bytes_eq run_command
  main-get path s = refl
