-- ===== src/Vault/Reference.antt =====
-- SecretRef of vault/types.go: a reference `scheme://path#fragment` taken apart. The loops of the
-- source run over bytes or runes and compare with ASCII characters, which no byte of a longer rune
-- equals, so they are loops over bytes here.
pub mod Parts
use omnivault.Base.{ℕ, Bytes, codes, Option, none, some, [], ◌∷◌, before, after_last, after_prefix}

unfoldable pub scheme : Bytes → Bytes
unfolding before
scheme s = elim (before b':' s) [ none ↦ [] | some p ↦ p ]

-- What follows the first "://".
unfoldable pub after_separator : Bytes → Option Bytes
unfolding after_prefix
after_separator [] = none
after_separator (c ∷ s) =
    let later = after_separator s in
    elim (after_prefix (c ∷ s) (codes "://")) [ none ↦ later | some rest ↦ some rest ]

-- The text up to the first '#'.
unfoldable pub without_fragment : Bytes → Bytes
unfolding before
without_fragment p = elim (before b'#' p) [ none ↦ p | some q ↦ q ]

unfoldable pub path : Bytes → Bytes
unfolding after_separator without_fragment
path s = elim (after_separator s) [ none ↦ s | some p ↦ without_fragment p ]

unfoldable pub fragment : Bytes → Bytes
unfolding after_last
fragment s = elim (after_last b'#' s) [ none ↦ [] | some f ↦ f ]
