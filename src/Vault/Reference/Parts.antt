-- ===== src/Vault/Reference/Parts.antt =====
-- The parts of a reference.
use omnivault.Base.{
  ℕ, Bytes, codes, Option, none, some, [], ◌∷◌, ◌++◌, ◌≡◌, ◌≢◌, refl, Option-cases, inl, inr, ◌∙◌,
  arith, append_assoc, before, after_prefix, Lacks, Lacks-append, before-append, before-none,
  before-Lacks, before-none-Lacks, after_last-append, after_last-none,
}
use omnivault.Vault.Reference.{scheme, after_separator, without_fragment, path, fragment}

-- The text of a reference: with a fragment behind '#', or with none.
abbrev pub reference : Bytes → Bytes → Option Bytes → Bytes
reference s p none = s ++ (codes "://" ++ p)
reference s p (some f) = s ++ (codes "://" ++ (p ++ b'#' ∷ f))

after_prefix-ne : (c : ℕ) (s p : Bytes) (b : ℕ) → c ≢ b → after_prefix (c ∷ s) (b ∷ p) ≡ none
unfolding after_prefix
after_prefix-ne c s p b h = ground arith

pub after_separator-append :
    (s rest : Bytes) → Lacks b':' s → after_separator (s ++ (codes "://" ++ rest)) ≡ some rest
unfolding after_separator
after_separator-append [] rest h = refl
after_separator-append (c ∷ s) rest h = ground (
  arith,
  after_prefix-ne c (s ++ (codes "://" ++ rest)) (codes "//") b':' h.0,
  after_separator-append s rest h.1,
)

without_fragment-append : (p f : Bytes) → Lacks b'#' p → without_fragment (p ++ b'#' ∷ f) ≡ p
unfolding without_fragment
without_fragment-append p f h = ground (arith, before-append b'#' p f h)

without_fragment_same : (p : Bytes) → Lacks b'#' p → without_fragment p ≡ p
unfolding without_fragment
without_fragment_same p h = ground (arith, before-none b'#' p h)

pub scheme-append : (s rest : Bytes) → Lacks b':' s → scheme (s ++ b':' ∷ rest) ≡ s
unfolding scheme
scheme-append s rest h = ground (arith, before-append b':' s rest h)

path-append :
    (s rest : Bytes) → Lacks b':' s → path (s ++ (codes "://" ++ rest)) ≡ without_fragment rest
unfolding path
path-append s rest h = ground (arith, after_separator-append s rest h)

fragment-append : (s f : Bytes) → Lacks b'#' f → fragment (s ++ b'#' ∷ f) ≡ f
unfolding fragment
fragment-append s f h = ground (arith, after_last-append b'#' s f h)

-- A reference with a fragment is taken apart into the parts that it was written from, where the
-- scheme holds no ':' and neither the path nor the fragment holds a '#'.
pub parts-reference :
    (s p f : Bytes)
    → Lacks b':' s
    → Lacks b'#' p
    → Lacks b'#' f
    → (scheme (reference s p (some f)) ≡ s)
      × (path (reference s p (some f)) ≡ p)
      × (fragment (reference s p (some f)) ≡ f)
parts-reference s p f hs hp hf = (
  scheme-append s (b'/' ∷ b'/' ∷ (p ++ b'#' ∷ f)) hs,
  path-append s (p ++ b'#' ∷ f) hs ∙ without_fragment-append p f hp,
  rw (← append_assoc (codes "://") p (b'#' ∷ f), ← append_assoc s (codes "://" ++ p) (b'#' ∷ f))
      (fragment-append (s ++ (codes "://" ++ p)) f hf),
)

-- A reference with no '#' is taken apart into its scheme and path, and its fragment is empty.
pub parts-reference_plain :
    (s p : Bytes)
    → Lacks b':' s
    → Lacks b'#' s
    → Lacks b'#' p
    → (scheme (reference s p none) ≡ s)
      × (path (reference s p none) ≡ p)
      × (fragment (reference s p none) ≡ [])
unfolding fragment
parts-reference_plain s p hs hh hp = (
  scheme-append s (b'/' ∷ b'/' ∷ p) hs,
  path-append s p hs ∙ without_fragment_same p hp,
  ground (
    arith,
    after_last-none b'#' (s ++ (codes "://" ++ p)) (
        Lacks-append b'#' s (codes "://" ++ p) hh
          (Lacks-append b'#' (codes "://") p (omega arith) hp)),
  ),
)

pub scheme-Lacks : (r : Bytes) → Lacks b':' (scheme r)
unfolding scheme
scheme-Lacks r = elim (Option-cases (before b':' r)) [
  | inl e ↦ rw (e, scheme) tt
  | inr (p, e) ↦ rw (e, scheme) (before-Lacks b':' r p e)
]

pub without_fragment-Lacks : (p : Bytes) → Lacks b'#' (without_fragment p)
unfolding without_fragment
without_fragment-Lacks p = elim (Option-cases (before b'#' p)) [
  | inl e ↦ rw (e, without_fragment) (before-none-Lacks b'#' p e)
  | inr (q, e) ↦ rw (e, without_fragment) (before-Lacks b'#' p q e)
]
