-- ===== src/Cli/Secrets.antt =====
-- cmd/omnivault/secrets.go: the commands get, set, list, search and delete.
use omnivault.Base.{Bytes, codes, Bool, ◌||◌, none, List, [], ◌∷◌, ◌++◌, bytes_eq, if◌then◌else◌}
use omnivault.Output.Format.{normal}
use omnivault.Output.Writer.{write_secret, write_list, write_search}
use omnivault.Daemon.Protocol.{SecretResponse}
use omnivault.DaemonClient.{get_secret, set_secret, list_secrets, search, delete_secret}
use omnivault.Cli.Flags.{ParsedFlags, parse_flags, get_bool}
use omnivault.Cli.Flags as Flags
use omnivault.Cli.Expiring.{check_expiry_warning}
use omnivault.Cli.Console.{
  Step, Setting, CommandError, ◌>>=◌, give, fail, print, warn, read_password, read_answer, call,
  write_out, require_daemon, output_format,
}

module _ {ℓ} {W : Type ℓ} (os : Setting W) where
  open os use {http, json, codec, config_file, texts, encoders, now}

  abbrev pub shown : ParsedFlags → SecretResponse → Step W (Unit {0})
  shown flags secret = do
    u ← warn (check_expiry_warning texts codec config_file now secret).0
    write_out (
        write_secret encoders (output_format codec config_file flags) secret
          (Flags.get flags (codes "field")))

  unfoldable pub get_path : ParsedFlags → List Bytes → Step W (Unit {0})
  get_path flags [] =
      fail (codes "usage: omnivault get <path> [--format text|json|yaml|shell] [--field <name>]")
  get_path flags (path ∷ rest) = do
    u ← require_daemon os
    secret ← call CommandError.call_failed (λ w. get_secret http json w path)
    shown flags secret

  abbrev pub cmd_get : List Bytes → Step W (Unit {0})
  cmd_get args = let flags = parse_flags args [] in get_path flags flags.args

  abbrev pub given_or_read : List Bytes → Step W Bytes
  given_or_read (value ∷ rest) = give value
  given_or_read [] = do
    u ← print (codes "Enter secret value: ")
    read_password (codes "failed to read value")

  unfoldable pub cmd_set : List Bytes → Step W (Unit {0})
  cmd_set [] = fail (codes "usage: omnivault set <path> [value]")
  cmd_set (path ∷ rest) = do
    value ← given_or_read rest
    u ← require_daemon os
    reply ← call CommandError.call_failed (λ w. set_secret http json w path value none none)
    print (codes "Secret '" ++ path ++ codes "' saved" ++ 10 ∷ [])

  abbrev pub first_or_empty : List Bytes → Bytes
  first_or_empty [] = []
  first_or_empty (x ∷ xs) = x

  unfoldable pub cmd_list : List Bytes → Step W (Unit {0})
  cmd_list args =
      let flags = parse_flags args (codes "metadata" ∷ []) in
      do
        u ← require_daemon os
        listed ←
            call CommandError.call_failed
              (λ w. list_secrets http json w (first_or_empty flags.args))
        write_out (
            write_list encoders (output_format codec config_file flags) listed.0 listed.1
              (get_bool flags (codes "metadata")))

  unfoldable pub search_pattern : ParsedFlags → List Bytes → Step W (Unit {0})
  search_pattern flags [] =
      fail (codes "usage: omnivault search <pattern> [--regex] [--format json|yaml]")
  search_pattern flags (pattern ∷ rest) = do
    u ← require_daemon os
    found ←
        call CommandError.call_failed
          (λ w. search http json w pattern (get_bool flags (codes "regex")))
    write_out (write_search encoders (output_format codec config_file flags) found.0 found.1)

  abbrev pub cmd_search : List Bytes → Step W (Unit {0})
  cmd_search args =
      let flags = parse_flags args (codes "regex" ∷ []) in search_pattern flags flags.args

  -- The answers that confirm a deletion.
  abbrev pub is_yes : Bytes → Bool
  is_yes answer = bytes_eq (normal answer) (codes "y") || bytes_eq (normal answer) (codes "yes")

  abbrev pub deleted : Bytes → Step W (Unit {0})
  deleted path = do
    reply ← call CommandError.call_failed (λ w. delete_secret http json w path)
    print (codes "Secret '" ++ path ++ codes "' deleted" ++ 10 ∷ [])

  abbrev pub if_yes : Bytes → Bytes → Step W (Unit {0})
  if_yes path answer = if is_yes answer then deleted path else print (codes "Cancelled" ++ 10 ∷ [])

  abbrev pub confirm_delete : Bytes → Step W (Unit {0})
  confirm_delete path = do
    v ← print (codes "Delete secret '" ++ path ++ codes "'? [y/N]: ")
    answer ← read_answer (codes "failed to read response")
    if_yes path answer

  unfoldable pub cmd_delete : List Bytes → Step W (Unit {0})
  cmd_delete [] = fail (codes "usage: omnivault delete <path>")
  cmd_delete (path ∷ rest) = do u ← require_daemon os; confirm_delete path
