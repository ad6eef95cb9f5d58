-- ===== src/Cli/Console.antt =====
-- What the commands of cmd/omnivault do with the terminal and with the daemon. A string is the list of
-- its code points. A command is a function of the console and of the world `W` behind the daemon's
-- socket; it ends with a value, an error, or a panic.
use omnivault.Base.{
  ℕ, ◌+◌, Bytes, codes, Bool, true, false, ltb, Option, none, some, List, Map, [], ◌∷◌, ◌++◌, ◌==◌,
  if◌then◌else◌, is_empty,
}
use omnivault.Vault.Types.{Time}
use omnivault.Vault.Errors.{Error, message}
use omnivault.Vault.Interface.{Result, ok, err, panic}
use omnivault.Config as Config
use omnivault.Config.{Reading, load_config_from_file}
use omnivault.Expiry.{Texts}
use omnivault.Output.Format.{Format, parse_format, trim_space}
use omnivault.Output.Writer.{Encoders}
use omnivault.DaemonClient.{Http, Json, Client, Answer, ClientError, is_daemon_running}
use omnivault.Cli.Flags.{ParsedFlags}
use omnivault.Cli.Flags as Flags

pub data Typed : Type 0 where
  typed_line : Bytes → Typed
  end_of_file : Typed
  broken : Error → Typed

-- A terminal gives what is typed at each read of a line; a pipe gives what each read of it returns,
-- and then its end.
pub data Stdin : Type 0 where
  terminal : List Typed → Stdin
  pipe : List Bytes → Stdin

pub record State {ℓ} (W : Type ℓ) : Type ℓ where
  pub world : W
  pub stdin : Stdin
  pub stdout : Bytes
  pub stderr : Bytes
  pub files : Map Bytes

-- `because m e` is fmt.Errorf("m: %w", e), with an error of the console or of a call.
pub data CommandError : Type 0 where
  plain : Bytes → CommandError
  because : Bytes → Error → CommandError
  call_failed : ClientError → CommandError
  because_call : Bytes → ClientError → CommandError
  plain_error : Error → CommandError

pub data Outcome {ℓ} (A : Type ℓ) : Type ℓ where
  value : A → Outcome A
  stop : CommandError → Outcome A
  panicked : Outcome A

-- What a command runs with.
pub record Setting {ℓ} (W : Type ℓ) : Type ℓ where
  pub http : Http W
  pub json : Json
  pub client : Client
  pub windows : Bool
  pub codec : Config.Codec
  pub config_file : Reading
  pub texts : Texts
  pub encoders : Encoders
  pub now : Time

abbrev pub eof : Error
eof = message (codes "EOF")

-- What is before the first newline, or nothing if there is none.
unfoldable pub before_newline : Bytes → Option Bytes
before_newline [] = none
before_newline (r ∷ s) = elim (before_newline s) [
  | none ↦ if r == 10 then some [] else none
  | some line ↦ if r == 10 then some [] else some (r ∷ line)
]

abbrev pub after_chunk : Bytes → Result Bytes × List Bytes → Result Bytes × List Bytes
after_chunk chunk (ok line, chunks) = (ok (chunk ++ line), chunks)
after_chunk chunk (err e, chunks) = (err e, chunks)
after_chunk chunk (panic, chunks) = (panic, chunks)

abbrev pub after_line :
    Bytes → List Bytes → Option Bytes → Result Bytes × List Bytes → Result Bytes × List Bytes
after_line chunk chunks (some line) rest = (ok line, chunks)
after_line chunk chunks none rest = after_chunk chunk rest

-- ReadString('\n') of a new bufio.Reader, less the newline: the reader reads whole chunks, and what
-- it has read beyond the line is lost with it.
unfoldable pub read_string : List Bytes → Result Bytes × List Bytes
read_string [] = (err eof, [])
read_string (chunk ∷ chunks) = after_line chunk chunks (before_newline chunk) (read_string chunks)

-- A read of a line from the terminal.
abbrev pub typed : List Typed → Result Bytes × List Typed
typed [] = (err eof, [])
typed (typed_line line ∷ lines) = (ok line, lines)
typed (end_of_file ∷ lines) = (err eof, lines)
typed (broken e ∷ lines) = (err e, lines)

abbrev pub before_rest : Bytes → Result Bytes × List Typed → Result Bytes × List Typed
before_rest line (ok rest, lines) = (ok (line ++ 10 ∷ rest), lines)
before_rest line (err e, lines) = (err e, lines)
before_rest line (panic, lines) = (panic, lines)

-- io.ReadAll of a terminal and of a pipe.
unfoldable pub typed_all : List Typed → Result Bytes × List Typed
typed_all [] = (ok [], [])
typed_all (typed_line line ∷ lines) = before_rest line (typed_all lines)
typed_all (end_of_file ∷ lines) = (ok [], lines)
typed_all (broken e ∷ lines) = (err e, lines)

unfoldable pub all_chunks : List Bytes → Bytes
all_chunks [] = []
all_chunks (chunk ∷ chunks) = chunk ++ all_chunks chunks

abbrev pub trimmed : Result Bytes → Result Bytes
trimmed (ok s) = ok (trim_space s)
trimmed (err e) = err e
trimmed panic = panic

-- len of a string, in bytes of UTF-8.
abbrev pub rune_length : ℕ → ℕ
rune_length r = if ltb r 128 then 1 else if ltb r 2048 then 2 else if ltb r 65536 then 3 else 4

unfoldable pub byte_length : Bytes → ℕ
byte_length [] = 0
byte_length (r ∷ s) = rune_length r + byte_length s

abbrev pub read_result {ℓ κ} :
    {W : Type ℓ} {A : Type κ} → Bytes → Result A → State W → Outcome A × State W
read_result m (ok s) t = (Outcome.value s, t)
read_result m (err e) t = (Outcome.stop (CommandError.because m e), t)
read_result m panic t = (Outcome.panicked, t)

abbrev pub answered {ℓ κ} :
    {W : Type ℓ} {A : Type κ}
    → (ClientError → CommandError)
    → State W
    → Answer A × W
    → Outcome A × State W
answered f s (Answer.done a, w) = (Outcome.value a, record s { world = w })
answered f s (Answer.failed e, w) = (Outcome.stop (f e), record s { world = w })
answered f s (Answer.crashed, w) = (Outcome.panicked, record s { world = w })

abbrev pub continue {ℓ κ μ} :
    {W : Type ℓ} {A : Type κ} {B : Type μ}
    → Outcome A × State W
    → (A → State W → Outcome B × State W)
    → Outcome B × State W
continue (Outcome.value a, s) f = f a s
continue (Outcome.stop e, s) f = (Outcome.stop e, s)
continue (Outcome.panicked, s) f = (Outcome.panicked, s)

-- A step of a command.
abbrev pub Step {ℓ κ} : Type ℓ → Type κ → Type (ℓ ⊔ κ)
Step W A = State W → Outcome A × State W

module _ {ℓ} {W : Type ℓ} where
  infixl 20 ◌>>=◌
  abbrev pub ◌>>=◌ {κ μ} : {A : Type κ} {B : Type μ} → Step W A → (A → Step W B) → Step W B
  (m >>= f) s = continue (m s) f

  abbrev pub give {κ} : {A : Type κ} → A → Step W A
  give a s = (Outcome.value a, s)

  abbrev pub fail {κ} : {A : Type κ} → Bytes → Step W A
  fail m s = (Outcome.stop (CommandError.plain m), s)

  unfoldable pub print : Bytes → Step W (Unit {0})
  print text s = (Outcome.value tt, record s { stdout = s.stdout ++ text })

  unfoldable pub warn : Bytes → Step W (Unit {0})
  warn text s = (Outcome.value tt, record s { stderr = s.stderr ++ text })

  abbrev pub require : Bool → Bytes → Step W (Unit {0})
  require true m = give tt
  require false m = fail m

  abbrev pub password_from : Bytes → Stdin → Step W Bytes
  password_from m (terminal lines) s =
      read_result m (typed lines).0
        (record s { stdin = terminal (typed lines).1; stdout = s.stdout ++ 10 ∷ [] })
  password_from m (pipe chunks) s =
      read_result m (trimmed (read_string chunks).0)
        (record s { stdin = pipe (read_string chunks).1 })

  -- readPassword, whose error is wrapped by `m`; with a terminal a newline is printed after it.
  unfoldable pub read_password : Bytes → Step W Bytes
  read_password m s = password_from m s.stdin s

  -- io.ReadAll of the standard input.
  abbrev pub all_from : Bytes → Stdin → Step W Bytes
  all_from m (terminal lines) s =
      read_result m (typed_all lines).0 (record s { stdin = terminal (typed_all lines).1 })
  all_from m (pipe chunks) s = (Outcome.value (all_chunks chunks), record s { stdin = pipe [] })

  unfoldable pub read_all : Bytes → Step W Bytes
  read_all m s = all_from m s.stdin s

  -- ReadString of a new reader, less the newline.
  abbrev pub line_from : Bytes → Stdin → Step W Bytes
  line_from m (terminal lines) s =
      read_result m (typed lines).0 (record s { stdin = terminal (typed lines).1 })
  line_from m (pipe chunks) s =
      read_result m (read_string chunks).0 (record s { stdin = pipe (read_string chunks).1 })

  unfoldable pub read_line : Bytes → Step W Bytes
  unfolding read_string
  read_line m s = line_from m s.stdin s

  abbrev pub answer_from : Bytes → Stdin → Step W Bytes
  answer_from m (terminal lines) s =
      read_result m (trimmed (typed lines).0) (record s { stdin = terminal (typed lines).1 })
  answer_from m (pipe chunks) s =
      read_result m (trimmed (read_string chunks).0)
        (record s { stdin = pipe (read_string chunks).1 })

  -- ReadString of a new reader, then TrimSpace.
  unfoldable pub read_answer : Bytes → Step W Bytes
  read_answer m s = answer_from m s.stdin s

  -- A call of the daemon, its error turned into that of the command by `f`.
  unfoldable pub call {κ} :
      {A : Type κ} → (ClientError → CommandError) → (W → Answer A × W) → Step W A
  call f perform s = answered f s (perform s.world)

  -- What the output writer gives for the standard output.
  unfoldable pub write_out : Result Bytes → Step W (Unit {0})
  unfolding print
  write_out (ok text) s = print text s
  write_out (err e) s = (Outcome.stop (CommandError.plain_error e), s)
  write_out panic s = (Outcome.panicked, s)

  unfoldable pub require_daemon : Setting W → Step W (Unit {0})
  require_daemon os s =
      require (is_daemon_running os.http os.json os.client os.windows s.world)
        (codes "daemon is not running, start it with: omnivault daemon start") s

abbrev pub config_format : Result Config.Config → Bytes
config_format (ok c) = c.default_format
config_format (err e) = []
config_format panic = []

-- NewOutputWriterFromFlags
unfoldable pub output_format : Config.Codec → Reading → ParsedFlags → Format
output_format codec file flags =
    let given = Flags.get flags (codes "format") in
    parse_format
      (if is_empty given then config_format (load_config_from_file codec file) else given)
