-- ===== src/Cli/Flags/Written.antt =====
-- cmd/omnivault/flags.go: the parser on flags and arguments that are written out.
use omnivault.Base.{
  ℕ, Bytes, codes, true, false, none, some, List, [], ◌∷◌, ◌++◌, Lacks, has_prefix,
  has_prefix-append, trim_prefix-append, member, ◌≡◌, ◌∙◌, refl, arith,
}
use omnivault.Cli.Flags.{
  ParsedFlags, Kind, set_flag, set_bool, add_arg, cut_at, kind, flag_kind, parse_loop, parse_flags,
  no_flags,
}

-- What a caller may write: --name=value, --name value, --name, or an argument.
pub data Item : Type 0 where
  equals : Bytes → Bytes → Item
  pair : Bytes → Bytes → Item
  toggle : Bytes → Item
  argument : Bytes → Item

abbrev pub dashed : Bytes → Bytes
dashed name = codes "--" ++ name

unfoldable pub write : List Item → List Bytes
write [] = []
write (Item.equals name value ∷ items) = dashed (name ++ b'=' ∷ value) ∷ write items
write (Item.pair name value ∷ items) = dashed name ∷ value ∷ write items
write (Item.toggle name ∷ items) = dashed name ∷ write items
write (Item.argument arg ∷ items) = arg ∷ write items

unfoldable pub apply : List Item → ParsedFlags → ParsedFlags
apply [] p = p
apply (Item.equals name value ∷ items) p = apply items (set_flag name value p)
apply (Item.pair name value ∷ items) p = apply items (set_flag name value p)
apply (Item.toggle name ∷ items) p = apply items (set_bool name p)
apply (Item.argument arg ∷ items) p = apply items (add_arg arg p)

-- Names hold no '='; a flag has a value exactly if it is not one of the boolean `names`; a value does
-- not begin with "--"; an argument does not begin with '-'.
abbrev pub IsWritable : List Bytes → List Item → Type 0
IsWritable names [] = Unit
IsWritable names (Item.equals name value ∷ items) = Lacks b'=' name × IsWritable names items
IsWritable names (Item.pair name value ∷ items) =
    Lacks b'=' name
    × (member name names ≡ false)
    × (has_prefix value (codes "--") ≡ false)
    × IsWritable names items
IsWritable names (Item.toggle name ∷ items) =
    Lacks b'=' name × (member name names ≡ true) × IsWritable names items
IsWritable names (Item.argument arg ∷ items) =
    (has_prefix arg (codes "-") ≡ false) × IsWritable names items

cut_at-append : (b : ℕ) (s t : Bytes) → Lacks b s → cut_at b (s ++ b ∷ t) ≡ some (s, t)
unfolding cut_at
cut_at-append b [] t h = ground arith
cut_at-append b (c ∷ s) t h = ground (arith, cut_at-append b s t)

cut_at-none : (b : ℕ) (s : Bytes) → Lacks b s → cut_at b s ≡ none
unfolding cut_at
cut_at-none b [] h = refl
cut_at-none b (c ∷ s) h = ground (arith, cut_at-none b s)

kind-equals :
    (names : List Bytes) (name value : Bytes)
    → Lacks b'=' name
    → kind names (dashed (name ++ b'=' ∷ value)) ≡ Kind.assigned name value
unfolding kind
kind-equals names name value h = rw (
  has_prefix-append (codes "--") (name ++ b'=' ∷ value),
  trim_prefix-append (codes "--") (name ++ b'=' ∷ value),
  cut_at-append b'=' name value h,
)

kind-dashed :
    (names : List Bytes) (name : Bytes)
    → Lacks b'=' name
    → kind names (dashed name) ≡ flag_kind names name (codes "--")
unfolding kind
kind-dashed names name h = rw (
  has_prefix-append (codes "--") name,
  trim_prefix-append (codes "--") name,
  cut_at-none b'=' name h,
)

kind-argument :
    (names : List Bytes) (arg : Bytes)
    → has_prefix arg (codes "-") ≡ false
    → kind names arg ≡ Kind.positional
unfolding kind has_prefix
kind-argument names [] h = refl
kind-argument names (c ∷ s) h = ground arith

-- One argument that needs no next one.
parse_loop-switch :
    (names : List Bytes) (arg name : Bytes) (rest : List Bytes) (p : ParsedFlags)
    → kind names arg ≡ Kind.switch name
    → parse_loop names (arg ∷ rest) p ≡ parse_loop names rest (set_bool name p)
unfolding parse_loop
parse_loop-switch names arg name [] p h = rw (h, parse_loop)
parse_loop-switch names arg name (next ∷ rest) p h = rw (h, parse_loop)

parse_loop-assigned :
    (names : List Bytes) (arg name value : Bytes) (rest : List Bytes) (p : ParsedFlags)
    → kind names arg ≡ Kind.assigned name value
    → parse_loop names (arg ∷ rest) p ≡ parse_loop names rest (set_flag name value p)
unfolding parse_loop
parse_loop-assigned names arg name value [] p h = rw (h, parse_loop)
parse_loop-assigned names arg name value (next ∷ rest) p h = rw (h, parse_loop)

parse_loop-positional :
    (names : List Bytes) (arg : Bytes) (rest : List Bytes) (p : ParsedFlags)
    → kind names arg ≡ Kind.positional
    → parse_loop names (arg ∷ rest) p ≡ parse_loop names rest (add_arg arg p)
unfolding parse_loop
parse_loop-positional names arg [] p h = rw (h, parse_loop)
parse_loop-positional names arg (next ∷ rest) p h = rw (h, parse_loop)

parse_loop-valued :
    (names : List Bytes) (arg name value dashes : Bytes) (rest : List Bytes) (p : ParsedFlags)
    → kind names arg ≡ Kind.valued name dashes
    → has_prefix value dashes ≡ false
    → parse_loop names (arg ∷ value ∷ rest) p ≡ parse_loop names rest (set_flag name value p)
unfolding parse_loop
parse_loop-valued names arg name value dashes rest p h v = rw (h, v, parse_loop)

parse_loop-write :
    (names : List Bytes) (items : List Item) (p : ParsedFlags)
    → IsWritable names items
    → parse_loop names (write items) p ≡ apply items p
unfolding write apply parse_loop
parse_loop-write names [] p h = refl
parse_loop-write names (Item.equals name value ∷ items) p h =
    parse_loop-assigned names _ name value (write items) p (kind-equals names name value h.0)
    ∙ parse_loop-write names items (set_flag name value p) h.1
parse_loop-write names (Item.pair name value ∷ items) p h =
    parse_loop-valued names _ name value (codes "--") (write items) p
      (kind-dashed names name h.0 ∙ rw (h.1)) h.2
    ∙ parse_loop-write names items (set_flag name value p) h.3
parse_loop-write names (Item.toggle name ∷ items) p h =
    parse_loop-switch names _ name (write items) p (kind-dashed names name h.0 ∙ rw (h.1))
    ∙ parse_loop-write names items (set_bool name p) h.2
parse_loop-write names (Item.argument arg ∷ items) p h =
    parse_loop-positional names arg (write items) p (kind-argument names arg h.0)
    ∙ parse_loop-write names items (add_arg arg p) h.1

-- ParseFlags reads what a command line writes out, each part in its order: flags as --name=value, flags
-- as --name value, boolean flags, and arguments, where no name holds '=', the boolean flags and no
-- others are declared boolean, no value of the second form begins with "--", and no argument begins
-- with '-'.
pub parse_flags-write :
    (names : List Bytes) (items : List Item)
    → IsWritable names items
    → parse_flags (write items) names ≡ apply items no_flags
unfolding parse_flags
parse_flags-write names items h = parse_loop-write names items no_flags h
