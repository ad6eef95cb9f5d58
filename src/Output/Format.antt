-- ===== src/Output/Format.antt =====
-- internal/output/format.go: the formats of the output and their names.
use omnivault.Base.{
  ℕ, ◌+◌, Bytes, codes, Bool, true, false, ◌||◌, ◌&&◌, [], ◌∷◌, leb, ◌==◌, is_empty, bytes_eq,
  if◌then◌else◌,
}

pub data Format : Type 0 where
  text json yaml shell : Format

unfoldable pub format_string : Format → Bytes
format_string Format.json = codes "json"
format_string Format.yaml = codes "yaml"
format_string Format.shell = codes "shell"
format_string Format.text = codes "text"

-- unicode.IsSpace, of a code point.
abbrev pub is_space : ℕ → Bool
is_space r =
    (leb 9 r && leb r 13)
    || (r == 32)
    || (r == 133)
    || (r == 160)
    || (r == 5760)
    || (leb 8192 r && leb r 8202)
    || (r == 8232)
    || (r == 8233)
    || (r == 8239)
    || (r == 8287)
    || (r == 12288)

unfoldable pub trim_start : Bytes → Bytes
trim_start [] = []
trim_start (r ∷ s) = let rest = trim_start s in if is_space r then rest else r ∷ s

unfoldable pub trim_end : Bytes → Bytes
trim_end [] = []
trim_end (r ∷ s) = let rest = trim_end s in if is_empty rest && is_space r then [] else r ∷ rest

unfoldable pub trim_space : Bytes → Bytes
unfolding trim_start trim_end
trim_space s = trim_end (trim_start s)

-- strings.ToLower, for a comparison with words that hold small letters of ASCII only, 'k' not among
-- them.
unfoldable pub to_lower : Bytes → Bytes
to_lower [] = []
to_lower (r ∷ s) = (if leb b'A' r && leb r b'Z' then r + 32 else r) ∷ to_lower s

unfoldable pub normal : Bytes → Bytes
unfolding trim_space to_lower
normal s = to_lower (trim_space s)

abbrev pub named : Bytes → Format
named s =
    if bytes_eq s (codes "json")
    then Format.json
    else if bytes_eq s (codes "yaml") || bytes_eq s (codes "yml")
    then Format.yaml
    else if bytes_eq s (codes "shell") || bytes_eq s (codes "sh") || bytes_eq s (codes "bash")
    then Format.shell
    else Format.text

unfoldable pub parse_format : Bytes → Format
unfolding normal
parse_format s = named (normal s)

unfoldable pub is_structured : Format → Bool
is_structured Format.json = true
is_structured Format.yaml = true
is_structured Format.shell = false
is_structured Format.text = false
