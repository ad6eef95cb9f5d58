-- ===== src/Output/Words.antt =====
-- What a POSIX shell reads in the lines that ShellExport writes.
use omnivault.Base.{
  ℕ, codes, Bool, true, false, ◌||◌, ◌&&◌, List, [], ◌∷◌, ◌++◌, leb, ◌==◌, if◌then◌else◌, Option,
  none, some, ◌≡◌, ◌≢◌, refl, arith, Bool-cases, inl, inr,
}
use omnivault.Output.{
  is_digit, to_upper, safe_runes, shell_safe_key, escape_quotes, shell_quote, shell_export,
}

-- Where a shell stands in a word: outside quotes, in single or in double quotes.
pub data Quoting : Type 0 where
  plain single double : Quoting

abbrev pub push : ℕ → Option (List ℕ) → Option (List ℕ)
push r none = none
push r (some s) = some (r ∷ s)

-- The text of a word of quoted parts: single quotes keep all up to the next one, double quotes all but
-- '$', '`' and '\\'. A word with anything outside quotes, or with an open quote, is not read.
unfoldable pub read_word : Quoting → List ℕ → Option (List ℕ)
read_word Quoting.plain [] = some []
read_word Quoting.single [] = none
read_word Quoting.double [] = none
read_word Quoting.plain (r ∷ s) =
    let in_single = read_word Quoting.single s in
    let in_double = read_word Quoting.double s in
    if r == 39 then in_single else if r == 34 then in_double else none
read_word Quoting.single (r ∷ s) =
    let after = read_word Quoting.plain s in
    let inside = read_word Quoting.single s in if r == 39 then after else push r inside
read_word Quoting.double (r ∷ s) =
    let after = read_word Quoting.plain s in
    let inside = read_word Quoting.double s in
    if r == 34 then after else if r == 36 || r == 96 || r == 92 then none else push r inside

-- A name of a variable: capital letters, digits and '_'.
abbrev pub is_name_rune : ℕ → Bool
is_name_rune r = (leb b'A' r && leb r b'Z') || is_digit r || (r == b'_')

unfoldable pub all_name_runes : List ℕ → Bool
all_name_runes [] = true
all_name_runes (r ∷ s) = is_name_rune r && all_name_runes s

-- It is not empty, and does not begin with a digit.
unfoldable pub is_name : List ℕ → Bool
is_name [] = false
is_name (r ∷ s) = if is_digit r then false else all_name_runes (r ∷ s)

escape_quotes-read_word :
    (s : List ℕ) → read_word Quoting.single (escape_quotes s ++ 39 ∷ []) ≡ some s
unfolding read_word escape_quotes
escape_quotes-read_word [] = refl
escape_quotes-read_word (r ∷ s) = elim (Bool-cases (r == 39)) [
  | inl e ↦ let q : r ≡ 39 = ground arith in rw (q, escape_quotes-read_word s)
  | inr n ↦ rw (n, n, escape_quotes-read_word s)
]

safe_runes-all_name_runes : (s : List ℕ) → all_name_runes (to_upper (safe_runes false s)) ≡ true
unfolding all_name_runes to_upper safe_runes
safe_runes-all_name_runes [] = refl
safe_runes-all_name_runes (r ∷ s) = ground (arith, safe_runes-all_name_runes s)

shell_safe_key-is_name : (s : List ℕ) → s ≢ [] → is_name (shell_safe_key s) ≡ true
unfolding is_name all_name_runes shell_safe_key
shell_safe_key-is_name [] h = absurd (h refl)
shell_safe_key-is_name (r ∷ s) h = ground (arith, safe_runes-all_name_runes s)

-- The line of ShellExport for a key that is not empty is "export NAME=WORD", where NAME is the name of
-- a variable for every shell, and WORD is read by the shell as exactly the value. (A NUL, which no shell keeps, is a code point like any other
-- here.)
pub shell_export-read_word :
    (key value : List ℕ)
    → key ≢ []
    → (name word : List ℕ) × (shell_export key value ≡ codes "export " ++ (name ++ b'=' ∷ word))
      × (is_name name ≡ true)
      × (read_word Quoting.plain word ≡ some value)
unfolding read_word shell_export shell_quote
shell_export-read_word key value h = (
  shell_safe_key key,
  shell_quote value,
  refl,
  shell_safe_key-is_name key h,
  escape_quotes-read_word value,
)
