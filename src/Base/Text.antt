-- ===== src/Base/Text.antt =====
-- Go's `string` and `[]byte` as lists of bytes, with the functions of package strings that the
-- program calls on them.
use Prim.Native.Nat.{ℕ, zero, suc, ◌+◌}
use Prim.Native.Char.{code}
use Prim.Native.String.{String}
use mathlib.Core.Path.{◌≡◌, refl}
use mathlib.Core.Logic.{◌↔◌, ◌≢◌}
use mathlib.Core.Bool.{Bool, true, false, ◌&&◌, ◌||◌}
use mathlib.Core.List.{List, [], ◌∷◌, ◌++◌}
use mathlib.Core.Option.{Option, none, some}
use native.Mathlib.Omega.{arith}
use omnivault.Base.Tests.{◌==◌, if◌then◌else◌}

abbrev pub Bytes : Type 0
Bytes = List ℕ

-- The code points of a literal; these are its bytes when the text is ASCII.
abbrev pub codes : String → Bytes
codes String.[] = []
codes (String.◌∷◌ c s) = code c ∷ codes s

abbrev pub length {ℓ} : {A : Type ℓ} → List A → ℕ
length [] = 0
length (x ∷ xs) = suc (length xs)

pub length-append {ℓ} : {A : Type ℓ} (xs ys : List A) → length (xs ++ ys) ≡ length xs + length ys
length-append [] ys = omega arith
length-append (x ∷ xs) ys = omega (arith, length-append xs ys)

-- s[:n] and s[n:], for n up to the length.
abbrev pub take {ℓ} : {A : Type ℓ} → ℕ → List A → List A
take zero xs = []
take (suc n) [] = []
take (suc n) (x ∷ xs) = x ∷ take n xs

abbrev pub drop {ℓ} : {A : Type ℓ} → ℕ → List A → List A
drop zero xs = xs
drop (suc n) [] = []
drop (suc n) (x ∷ xs) = drop n xs

pub take-append {ℓ} : {A : Type ℓ} (n : ℕ) (xs ys : List A) → length xs ≡ n → take n (xs ++ ys) ≡ xs
take-append zero [] ys h = refl
take-append zero (x ∷ xs) ys h = absurd (omega arith)
take-append (suc n) [] ys h = absurd (omega arith)
take-append (suc n) (x ∷ xs) ys h = rw (take-append n xs ys (omega arith))

pub drop-append {ℓ} : {A : Type ℓ} (n : ℕ) (xs ys : List A) → length xs ≡ n → drop n (xs ++ ys) ≡ ys
drop-append zero [] ys h = refl
drop-append zero (x ∷ xs) ys h = absurd (omega arith)
drop-append (suc n) [] ys h = absurd (omega arith)
drop-append (suc n) (x ∷ xs) ys h = drop-append n xs ys (omega arith)

-- `s == t` on Go strings.
unfoldable pub bytes_eq : Bytes → Bytes → Bool
bytes_eq [] [] = true
bytes_eq [] (d ∷ t) = false
bytes_eq (c ∷ s) [] = false
bytes_eq (c ∷ s) (d ∷ t) = c == d && bytes_eq s t

pub bytes_eq→eq : (s t : Bytes) → bytes_eq s t ≡ true → s ≡ t
unfolding bytes_eq
bytes_eq→eq [] [] h = refl
bytes_eq→eq [] (d ∷ t) h = cc
bytes_eq→eq (c ∷ s) [] h = cc
bytes_eq→eq (c ∷ s) (d ∷ t) h = ground (arith, bytes_eq→eq s t)

pub bytes_eq_self : (s : Bytes) → bytes_eq s s ≡ true
unfolding bytes_eq
bytes_eq_self [] = refl
bytes_eq_self (c ∷ s) = ground (arith, bytes_eq_self s)

pub bytes_eq_iff : (s t : Bytes) → (bytes_eq s t ≡ true) ↔ (s ≡ t)
bytes_eq_iff s t = (bytes_eq→eq s t, λ e. rw e (bytes_eq_self t))

pub bytes_eq_ne : (s t : Bytes) → s ≢ t → bytes_eq s t ≡ false
bytes_eq_ne s t h = ground (arith, bytes_eq_iff s t)

-- `s == ""`.
abbrev pub is_empty {ℓ} : {A : Type ℓ} → List A → Bool
is_empty [] = true
is_empty (x ∷ xs) = false

-- strings.HasPrefix
unfoldable pub has_prefix : Bytes → Bytes → Bool
has_prefix s [] = true
has_prefix [] (d ∷ p) = false
has_prefix (c ∷ s) (d ∷ p) = c == d && has_prefix s p

pub has_prefix-append : (p s : Bytes) → has_prefix (p ++ s) p ≡ true
unfolding has_prefix
has_prefix-append [] s = refl
has_prefix-append (c ∷ p) s = ground (arith, has_prefix-append p s)

-- The bytes of `s` after its prefix `p`, if it has that prefix.
unfoldable pub after_prefix : Bytes → Bytes → Option Bytes
after_prefix s [] = some s
after_prefix [] (d ∷ p) = none
after_prefix (c ∷ s) (d ∷ p) = let rest = after_prefix s p in if c == d then rest else none

-- strings.TrimPrefix
unfoldable pub trim_prefix : Bytes → Bytes → Bytes
unfolding after_prefix
trim_prefix s p = elim (after_prefix s p) [ none ↦ s | some rest ↦ rest ]

pub after_prefix-append : (p s : Bytes) → after_prefix (p ++ s) p ≡ some s
unfolding after_prefix
after_prefix-append [] s = refl
after_prefix-append (c ∷ p) s = ground (arith, after_prefix-append p s)

pub trim_prefix-append : (p s : Bytes) → trim_prefix (p ++ s) p ≡ s
unfolding trim_prefix
trim_prefix-append p s = ground (arith, after_prefix-append p s)

pub after_prefix-eq : (s p rest : Bytes) → after_prefix s p ≡ some rest → s ≡ p ++ rest
unfolding after_prefix
after_prefix-eq s [] rest h = cc
after_prefix-eq [] (d ∷ p) rest h = cc
after_prefix-eq (c ∷ s) (d ∷ p) rest h = ground (arith, after_prefix-eq s p rest)

pub has_prefix-after_prefix :
    (s p : Bytes) → has_prefix s p ≡ true → (rest : Bytes) × (after_prefix s p ≡ some rest)
unfolding has_prefix after_prefix
has_prefix-after_prefix s [] h = (s, refl)
has_prefix-after_prefix [] (d ∷ p) h = cc
has_prefix-after_prefix (c ∷ s) (d ∷ p) h = ground (arith, has_prefix-after_prefix s p)

-- strings.Contains
unfoldable pub contains : Bytes → Bytes → Bool
unfolding has_prefix
contains [] p = has_prefix [] p
contains (c ∷ s) p = has_prefix (c ∷ s) p || contains s p

pub contains-has_prefix : (s p : Bytes) → has_prefix s p ≡ true → contains s p ≡ true
unfolding contains
contains-has_prefix [] p h = h
contains-has_prefix (c ∷ s) p h = ground arith

pub contains-middle : (a p b : Bytes) → contains (a ++ (p ++ b)) p ≡ true
unfolding contains
contains-middle [] p b = unfold contains in contains-has_prefix (p ++ b) p (has_prefix-append p b)
contains-middle (c ∷ a) p b = ground (arith, contains-middle a p b)

-- No byte of the text is `b`.
abbrev pub Lacks : ℕ → Bytes → Type 0
Lacks b [] = Unit
Lacks b (c ∷ s) = (c ≢ b) × Lacks b s

pub Lacks-append : (b : ℕ) (s t : Bytes) → Lacks b s → Lacks b t → Lacks b (s ++ t)
Lacks-append b [] t h k = k
Lacks-append b (c ∷ s) t h k = (h.0, Lacks-append b s t h.1 k)

-- The text before the first byte `b`, if there is one.
unfoldable pub before : ℕ → Bytes → Option Bytes
before b [] = none
before b (c ∷ s) =
    let rest = before b s in
    if c == b then some [] else elim rest [ none ↦ none | some p ↦ some (c ∷ p) ]

pub before-append : (b : ℕ) (p s : Bytes) → Lacks b p → before b (p ++ b ∷ s) ≡ some p
unfolding before
before-append b [] s h = ground arith
before-append b (c ∷ p) s h = ground (arith, before-append b p s h.1)

pub before-none : (b : ℕ) (s : Bytes) → Lacks b s → before b s ≡ none
unfolding before
before-none b [] h = refl
before-none b (c ∷ s) h = ground (arith, before-none b s h.1)

pub before-Lacks : (b : ℕ) (s p : Bytes) → before b s ≡ some p → Lacks b p
unfolding before
before-Lacks b [] p h = cc
before-Lacks b (c ∷ s) [] h = tt
before-Lacks b (c ∷ s) (d ∷ p) h = ground (arith, before-Lacks b s p)

pub before-none-Lacks : (b : ℕ) (s : Bytes) → before b s ≡ none → Lacks b s
unfolding before
before-none-Lacks b [] h = tt
before-none-Lacks b (c ∷ s) h = ground (arith, before-none-Lacks b s)

-- The text after the last byte `b`, if there is one.
unfoldable pub after_last : ℕ → Bytes → Option Bytes
after_last b [] = none
after_last b (c ∷ s) = elim (after_last b s) [
  | none ↦ (if c == b then some s else none)
  | some p ↦ some p
]

pub after_last-none : (b : ℕ) (s : Bytes) → Lacks b s → after_last b s ≡ none
unfolding after_last
after_last-none b [] h = refl
after_last-none b (c ∷ s) h = ground (arith, after_last-none b s h.1)

pub after_last-append : (b : ℕ) (p s : Bytes) → Lacks b s → after_last b (p ++ b ∷ s) ≡ some s
unfolding after_last
after_last-append b [] s h = ground (arith, after_last-none b s h)
after_last-append b (c ∷ p) s h = ground (arith, after_last-append b p s h)
