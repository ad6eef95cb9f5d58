-- ===== src/Output.antt =====
-- internal/output/shell.go: variables for a shell. A string is the list of its code points.
pub mod Words
pub mod Format
pub mod Writer
mod Examples
use omnivault.Base.{
  ℕ, ◌-◌, codes, Bool, true, false, ◌||◌, ◌&&◌, List, [], ◌∷◌, ◌++◌, leb, ◌==◌, if◌then◌else◌,
}

abbrev pub is_letter : ℕ → Bool
is_letter r = (leb b'A' r && leb r b'Z') || (leb b'a' r && leb r b'z') || (r == b'_')

abbrev pub is_digit : ℕ → Bool
is_digit r = leb b'0' r && leb r b'9'

-- strings.ToUpper, of a text that holds no letters but those of ASCII.
unfoldable pub to_upper : List ℕ → List ℕ
to_upper [] = []
to_upper (r ∷ s) = (if leb b'a' r && leb r b'z' then r - 32 else r) ∷ to_upper s

-- The loop of ShellSafeKey; `first` says whether the index is 0.
unfoldable pub safe_runes : Bool → List ℕ → List ℕ
safe_runes first [] = []
safe_runes first (r ∷ s) =
    let rest = safe_runes false s in
    if is_letter r
    then r ∷ rest
    else if is_digit r
    then (if first then b'_' ∷ r ∷ rest else r ∷ rest)
    else b'_' ∷ rest

unfoldable pub shell_safe_key : List ℕ → List ℕ
unfolding to_upper safe_runes
shell_safe_key s = to_upper (safe_runes true s)

-- strings.ReplaceAll(s, "'", "'\"'\"'")
unfoldable pub escape_quotes : List ℕ → List ℕ
escape_quotes [] = []
escape_quotes (r ∷ s) =
    let rest = escape_quotes s in if r == 39 then 39 ∷ 34 ∷ 39 ∷ 34 ∷ 39 ∷ rest else r ∷ rest

unfoldable pub shell_quote : List ℕ → List ℕ
unfolding escape_quotes
shell_quote s = 39 ∷ (escape_quotes s ++ 39 ∷ [])

unfoldable pub shell_export : List ℕ → List ℕ → List ℕ
unfolding shell_safe_key shell_quote
shell_export key value = codes "export " ++ (shell_safe_key key ++ b'=' ∷ shell_quote value)
