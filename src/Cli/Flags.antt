-- ===== src/Cli/Flags.antt =====
-- cmd/omnivault/flags.go: the flags and the positional arguments of a command.
pub mod Written
use omnivault.Base.{
  ℕ, Bytes, codes, Bool, true, false, ◌&&◌, Option, none, some, List, [], ◌∷◌, ◌++◌, Map, lookup,
  insert, has_prefix, trim_prefix, member, length, ◌==◌, if◌then◌else◌,
}

pub record ParsedFlags : Type 0 where
  pub flags : Map Bytes
  pub bools : Map Bool
  pub args : List Bytes

-- A key that is not there reads as the zero value.
abbrev pub or_zero {ℓ} : {A : Type ℓ} → A → Option A → A
or_zero z none = z
or_zero z (some a) = a

unfoldable pub get : ParsedFlags → Bytes → Bytes
get p name = or_zero [] (lookup name p.flags)

unfoldable pub get_bool : ParsedFlags → Bytes → Bool
get_bool p name = or_zero false (lookup name p.bools)

unfoldable pub get_with_default : ParsedFlags → Bytes → Bytes → Bytes
get_with_default p name default_val = or_zero default_val (lookup name p.flags)

abbrev pub set_flag : Bytes → Bytes → ParsedFlags → ParsedFlags
set_flag name value p = record p { flags = insert name value p.flags }

abbrev pub set_bool : Bytes → ParsedFlags → ParsedFlags
set_bool name p = record p { bools = insert name true p.bools }

abbrev pub add_arg : Bytes → ParsedFlags → ParsedFlags
add_arg arg p = record p { args = p.args ++ arg ∷ [] }

-- The texts before and behind the first byte `b`.
unfoldable pub cut_at : ℕ → Bytes → Option (Bytes × Bytes)
cut_at b [] = none
cut_at b (c ∷ s) =
    if c == b
    then some ([], s)
    else elim (cut_at b s) [ none ↦ none | some (t, u) ↦ some (c ∷ t, u) ]

-- What one argument is, in the order of the tests: --name=value, a flag without a value, a flag whose
-- value is the next argument unless that begins with `dashes`, or a positional argument.
pub data Kind : Type 0 where
  assigned : Bytes → Bytes → Kind
  switch : Bytes → Kind
  valued : Bytes → Bytes → Kind
  positional : Kind

-- isBoolFlag
abbrev pub flag_kind : List Bytes → Bytes → Bytes → Kind
flag_kind names name dashes =
    if member name names then Kind.switch name else Kind.valued name dashes

abbrev pub long_kind : List Bytes → Bytes → Option (Bytes × Bytes) → Kind
long_kind names name (some (key, value)) = Kind.assigned key value
long_kind names name none = flag_kind names name (codes "--")

unfoldable pub kind : List Bytes → Bytes → Kind
kind names arg =
    if has_prefix arg (codes "--")
    then long_kind names (trim_prefix arg (codes "--")) (cut_at b'=' (trim_prefix arg (codes "--")))
    else if has_prefix arg (codes "-") && (length arg == 2)
    then flag_kind names (trim_prefix arg (codes "-")) (codes "-")
    else Kind.positional

-- The loop from `args[i]` on.
unfoldable pub parse_loop : List Bytes → List Bytes → ParsedFlags → ParsedFlags
parse_loop names [] p = p
parse_loop names (arg ∷ []) p = elim (kind names arg) [
  | assigned name value ↦ set_flag name value p
  | switch name ↦ set_bool name p
  | valued name dashes ↦ set_flag name [] p
  | positional ↦ add_arg arg p
]
parse_loop names (arg ∷ next ∷ rest) p = elim (kind names arg) [
  | assigned name value ↦ parse_loop names (next ∷ rest) (set_flag name value p)
  | switch name ↦ parse_loop names (next ∷ rest) (set_bool name p)
  | valued name dashes ↦ elim (has_prefix next dashes) [
    | true ↦ parse_loop names (next ∷ rest) (set_flag name [] p)
    | false ↦ parse_loop names rest (set_flag name next p)
  ]
  | positional ↦ parse_loop names (next ∷ rest) (add_arg arg p)
]

abbrev pub no_flags : ParsedFlags
no_flags = record { flags = []; bools = []; args = [] }

unfoldable pub parse_flags : List Bytes → List Bytes → ParsedFlags
unfolding parse_loop
parse_flags args bool_flags = parse_loop bool_flags args no_flags
