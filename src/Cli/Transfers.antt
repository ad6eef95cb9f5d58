-- ===== src/Cli/Transfers.antt =====
-- cmd/omnivault/importexport.go: the commands export and import.
use omnivault.Base.{
  ℕ, Bytes, codes, Bool, ◌||◌, Option, none, some, List, [], ◌∷◌, ◌++◌, ltb, insert, is_empty,
  bytes_eq, if◌then◌else◌, length,
}
use omnivault.Vault.Errors.{Error}
use omnivault.Vault.Interface.{Result, ok, err, panic}
use omnivault.Daemon.Protocol.{ExportedSecret, ImportResponse}
use omnivault.DaemonClient.{export, import}
use omnivault.Cli.Flags.{ParsedFlags, parse_flags, get_bool}
use omnivault.Cli.Flags as Flags
use omnivault.Cli.Secrets.{first_or_empty}
use omnivault.Cli.Console.{
  Step, Setting, Stdin, terminal, pipe, Outcome, CommandError, ◌>>=◌, give, fail, print, warn,
  read_all, read_line, read_result, call, require_daemon,
}

-- encoding/json on an ExportResponse and on a list of its secrets; os.Create; os.Open and then
-- io.ReadAll.
pub record Files : Type 0 where
  pub encode : List ExportedSecret × ℕ → Result Bytes
  pub decode_response : Bytes → Result (List ExportedSecret)
  pub decode_list : Bytes → Result (List ExportedSecret)
  pub create_error : Bytes → Option Error
  pub open_input : Bytes → Result (Result Bytes)

module _ {ℓ} {W : Type ℓ} (os : Setting W) (files : Files) where
  open os use {http, json, encoders}

  -- A file that is written whole.
  abbrev pub put_file : Bytes → Bytes → Step W (Unit {0})
  put_file name text s = (Outcome.value tt, record s { files = insert name text s.files })

  abbrev pub output_to : Bytes → Bytes → Step W (Unit {0})
  output_to name text = if is_empty name then print text else put_file name text

  abbrev pub created : Bytes → Step W (Unit {0})
  created name = elim (files.create_error name) [
    | none ↦ put_file name []
    | some e ↦
        λ s. (Outcome.stop (CommandError.because (codes "failed to create output file") e), s)
  ]

  abbrev pub destination : Bytes → Step W (Unit {0})
  destination name = if is_empty name then give tt else created name

  abbrev pub encoded_export : List ExportedSecret × ℕ → Step W Bytes
  encoded_export resp = read_result (codes "failed to encode export") (files.encode resp)

  abbrev pub exported_to : Bytes → ℕ → Step W (Unit {0})
  exported_to name count =
      if is_empty name
      then give tt
      else warn
          (codes "Exported " ++ encoders.decimal count ++ codes " secret(s) to " ++ name ++ 10 ∷ [])

  unfoldable pub cmd_export : List Bytes → Step W (Unit {0})
  cmd_export args =
      let flags = parse_flags args [] in
      let name = Flags.get flags (codes "output") in
      do
        u ← require_daemon os
        resp ←
            call CommandError.call_failed (λ w. export http json w (first_or_empty os flags.args))
        v ← destination name
        text ← encoded_export resp
        x ← output_to name text
        exported_to name resp.1

  abbrev pub opened : Result (Result Bytes) → Step W Bytes
  opened (ok content) s = read_result (codes "failed to read input") content s
  opened (err e) s = (Outcome.stop (CommandError.because (codes "failed to open input file") e), s)
  opened panic s = (Outcome.panicked, s)

  -- What is printed before a read of the standard input: only for a terminal.
  abbrev pub hint_for : Stdin → Bytes
  hint_for (terminal lines) =
      codes "Reading from stdin (paste JSON and press Ctrl+D when done)..." ++ 10 ∷ []
  hint_for (pipe chunks) = []

  abbrev pub hint : Step W (Unit {0})
  hint s = warn (hint_for s.stdin) s

  abbrev pub from_stdin : Step W Bytes
  from_stdin = do u ← hint; read_all (codes "failed to read input")

  abbrev pub import_input : List Bytes → Step W Bytes
  import_input (name ∷ rest) = opened (files.open_input name)
  import_input [] = from_stdin

  abbrev pub list_or_error : Result (List ExportedSecret) → Step W (List ExportedSecret)
  list_or_error (ok secrets) s = (Outcome.value secrets, s)
  list_or_error (err e) s =
      (Outcome.stop (CommandError.because (codes "failed to parse import data") e), s)
  list_or_error panic s = (Outcome.panicked, s)

  abbrev pub or_list : Bytes → Result (List ExportedSecret) → Step W (List ExportedSecret)
  or_list text (ok secrets) s = (Outcome.value secrets, s)
  or_list text (err e) s = list_or_error (files.decode_list text) s
  or_list text panic s = (Outcome.panicked, s)

  abbrev pub question : ℕ → Bool → Bytes
  question count merge =
      codes "Import "
      ++ encoders.decimal count
      ++ codes " secret(s)? "
      ++ (if merge
          then codes "(merge mode - existing secrets will be skipped) "
          else codes "(existing secrets will be overwritten) ")
      ++ codes "[y/N]: "

  abbrev pub is_yes : Bytes → Bool
  is_yes answer =
      bytes_eq answer (codes "y")
      || bytes_eq answer (codes "Y")
      || bytes_eq answer (codes "yes")
      || bytes_eq answer (codes "Yes")

  abbrev pub summary : ImportResponse → Bytes
  summary r =
      codes "Imported: "
      ++ encoders.decimal r.imported
      ++ codes ", Skipped: "
      ++ encoders.decimal r.skipped
      ++ codes ", Errors: "
      ++ encoders.decimal r.errors
      ++ 10 ∷ []

  abbrev pub reported : ImportResponse → Step W (Unit {0})
  reported r = do
    u ← warn (summary r)
    if ltb 0 r.errors
        then fail (encoders.decimal r.errors ++ codes " secret(s) failed to import")
        else give tt

  abbrev pub import_calls : List ExportedSecret → Bool → Step W (Unit {0})
  import_calls secrets merge = do
    resp ← call CommandError.call_failed (λ w. import http json w secrets merge)
    reported resp

  abbrev pub import_if : List ExportedSecret → Bool → Bytes → Step W (Unit {0})
  import_if secrets merge answer =
      if is_yes answer then import_calls secrets merge else warn (codes "Cancelled" ++ 10 ∷ [])

  abbrev pub confirm_import : Bool → List ExportedSecret → Step W (Unit {0})
  confirm_import merge secrets =
      if is_empty secrets then fail (codes "no secrets to import") else do
        u ← warn (question (length secrets) merge)
        answer ← read_line (codes "failed to read response")
        import_if secrets merge answer

  abbrev pub import_text : Bool → Bytes → Step W (Unit {0})
  import_text merge text = do
    secrets ← or_list text (files.decode_response text)
    confirm_import merge secrets

  abbrev pub import_args : Bool → List Bytes → Step W (Unit {0})
  import_args merge args = do text ← import_input args; import_text merge text

  unfoldable pub cmd_import : List Bytes → Step W (Unit {0})
  cmd_import args =
      let flags = parse_flags args (codes "merge" ∷ []) in
      do u ← require_daemon os; import_args (get_bool flags (codes "merge")) flags.args
