-- ===== src/Base/Order.antt =====
-- sort.Strings: the order of Go strings is that of their bytes.
use mathlib.Core.Path.{◌≡◌, refl, ◌∙◌}
use mathlib.Core.Logic.{◌⊎◌, inl, inr}
use mathlib.Core.Bool.{Bool, true, false, ◌||◌, ◌&&◌}
use mathlib.Core.List.{List, [], ◌∷◌, Perm, Permᴰ}
use mathlib.Core.Logic.{∥∥₁_elim}
use native.Mathlib.Decide.{ℕ_discrete}
use native.Mathlib.Omega.{arith}
use omnivault.Base.Tests.{ltb, ◌==◌, if◌then◌else◌}
use omnivault.Base.Text.{Bytes, bytes_eq}

-- `s <= t` on Go strings.
unfoldable pub bytes_le : Bytes → Bytes → Bool
bytes_le [] t = true
bytes_le (c ∷ s) [] = false
bytes_le (c ∷ s) (d ∷ t) = ltb c d || (c == d && bytes_le s t)

pub bytes_le_total : (s t : Bytes) → (bytes_le s t ≡ true) ⊎ (bytes_le t s ≡ true)
unfolding bytes_le
bytes_le_total [] t = inl refl
bytes_le_total (c ∷ s) [] = inr refl
bytes_le_total (c ∷ s) (d ∷ t) = ground (arith, bytes_le_total s t)

pub bytes_le_antisym : (s t : Bytes) → bytes_le s t ≡ true → bytes_le t s ≡ true → s ≡ t
unfolding bytes_le
bytes_le_antisym [] [] h k = refl
bytes_le_antisym [] (d ∷ t) h k = cc
bytes_le_antisym (c ∷ s) [] h k = cc
bytes_le_antisym (c ∷ s) (d ∷ t) h k = ground (arith, bytes_le_antisym s t)

pub bytes_le_trans :
    (s t u : Bytes) → bytes_le s t ≡ true → bytes_le t u ≡ true → bytes_le s u ≡ true
unfolding bytes_le
bytes_le_trans [] t u h k = refl
bytes_le_trans (c ∷ s) [] u h k = cc
bytes_le_trans (c ∷ s) (d ∷ t) [] h k = cc
bytes_le_trans (c ∷ s) (d ∷ t) (e ∷ u) h k = ground (arith, bytes_le_trans s t u)

insert_sorted : Bytes → List Bytes → List Bytes
insert_sorted x [] = x ∷ []
insert_sorted x (y ∷ ys) = if bytes_le x y then x ∷ y ∷ ys else y ∷ insert_sorted x ys

-- sort.Strings
unfoldable pub sort_strings : List Bytes → List Bytes
unfolding insert_sorted bytes_le
sort_strings [] = []
sort_strings (x ∷ xs) = insert_sorted x (sort_strings xs)

-- Each string stands before those that follow it.
abbrev pub IsSorted : List Bytes → Type 0
IsSorted [] = Unit
IsSorted (x ∷ []) = Unit
IsSorted (x ∷ y ∷ ys) = (bytes_le x y ≡ true) × IsSorted (y ∷ ys)

insert_sorted-IsSorted : (x : Bytes) (ys : List Bytes) → IsSorted ys → IsSorted (insert_sorted x ys)
unfolding insert_sorted
insert_sorted-IsSorted x [] h = tt
insert_sorted-IsSorted x (y ∷ []) h = ground (arith, bytes_le_total x y)
insert_sorted-IsSorted x (y ∷ z ∷ ys) h =
    ground (arith, bytes_le_total x y, bytes_le_total x z, insert_sorted-IsSorted x (z ∷ ys) h.1)

pub sort_strings-IsSorted : (xs : List Bytes) → IsSorted (sort_strings xs)
unfolding sort_strings
sort_strings-IsSorted [] = tt
sort_strings-IsSorted (x ∷ xs) =
    insert_sorted-IsSorted x (sort_strings xs) (sort_strings-IsSorted xs)

insert_sorted_comm_step :
    (x y z : Bytes) (zs : List Bytes)
    → insert_sorted x (insert_sorted y zs) ≡ insert_sorted y (insert_sorted x zs)
    → insert_sorted x (insert_sorted y (z ∷ zs)) ≡ insert_sorted y (insert_sorted x (z ∷ zs))
unfolding insert_sorted
insert_sorted_comm_step x y z zs ih = ground (
  arith,
  bytes_le_total x y,
  bytes_le_antisym x y,
  bytes_le_trans x y z,
  bytes_le_trans y x z,
  bytes_le_trans x z y,
  bytes_le_trans y z x,
  bytes_le_total x z,
  bytes_le_total y z,
)

insert_sorted_comm :
    (x y : Bytes) (zs : List Bytes)
    → insert_sorted x (insert_sorted y zs) ≡ insert_sorted y (insert_sorted x zs)
unfolding insert_sorted
insert_sorted_comm x y [] = ground (arith, bytes_le_total x y, bytes_le_antisym x y)
insert_sorted_comm x y (z ∷ zs) = insert_sorted_comm_step x y z zs (insert_sorted_comm x y zs)

sort_strings-permᴰ : {xs ys : List Bytes} → Permᴰ xs ys → sort_strings xs ≡ sort_strings ys
unfolding sort_strings
sort_strings-permᴰ Permᴰ.nil = refl
sort_strings-permᴰ (Permᴰ.cons {a = x} e p) = cc (sort_strings-permᴰ p)
sort_strings-permᴰ (Permᴰ.swap {a = x} {b = y} {l = l} e f) =
    cc (insert_sorted_comm x y (sort_strings l))
sort_strings-permᴰ (Permᴰ.trans p q) = sort_strings-permᴰ p ∙ sort_strings-permᴰ q

-- The result of a sort does not depend on the order of its input.
pub sort_strings-perm : {xs ys : List Bytes} → Perm xs ys → sort_strings xs ≡ sort_strings ys
sort_strings-perm p = ∥∥₁_elim p (hlevel ℕ_discrete) sort_strings-permᴰ

-- Whether a string is in a list.
unfoldable pub member : Bytes → List Bytes → Bool
unfolding bytes_eq
member x [] = false
member x (y ∷ ys) = bytes_eq y x || member x ys

member-insert_sorted :
    (x y : Bytes) (ys : List Bytes) → member x (insert_sorted y ys) ≡ (bytes_eq y x || member x ys)
unfolding member insert_sorted
member-insert_sorted x y [] = refl
member-insert_sorted x y (z ∷ ys) = ground (arith, member-insert_sorted x y ys)

pub member-sort_strings : (x : Bytes) (ys : List Bytes) → member x (sort_strings ys) ≡ member x ys
unfolding member sort_strings
member-sort_strings x [] = refl
member-sort_strings x (y ∷ ys) =
    ground (arith, member-insert_sorted x y (sort_strings ys), member-sort_strings x ys)
