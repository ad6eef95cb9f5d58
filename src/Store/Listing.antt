-- ===== src/Store/Listing.antt =====
-- What List of the encrypted store returns.
use omnivault.Base.{
  Bytes, Bool, true, false, ◌&&◌, ◌||◌, ◌≡◌, refl, ◌∙◌, sym, ap, arith, has_key, keys, List, [],
  ◌∷◌, Perm, is_empty, has_prefix, member, member-keys, member-sort_strings, sort_strings,
  sort_strings-IsSorted, sort_strings-perm, IsSorted, bytes_eq_iff, if◌then◌else◌,
}
use mathlib.Core.List.{Permᴰ}
use mathlib.Core.List
use mathlib.Core.Path.{subst, subst₂}
use mathlib.Core.Logic.{∥∥₁_map}
use omnivault.Vault.Interface.{ok}
use omnivault.Store.Crypto.{Crypto}
use omnivault.Store.Disk.{Secrets, Store}
use omnivault.Store.Operations.{is_locked, list_paths, matching}
use omnivault.Store.Contents.{IsUnlocked}

has_prefix-nil : (k p : Bytes) → (is_empty p || has_prefix k p) ≡ has_prefix k p
unfolding has_prefix
has_prefix-nil k [] = refl
has_prefix-nil k (c ∷ p) = refl

member-matching :
    (k prefix : Bytes) (paths : List Bytes)
    → member k (matching prefix paths) ≡ (member k paths && has_prefix k prefix)
unfolding matching member
member-matching k prefix [] = refl
member-matching k prefix (p ∷ paths) =
    ground (arith, bytes_eq_iff p k, has_prefix-nil p prefix, member-matching k prefix paths)

list_paths-unlocked :
    (s : Store) (c : Crypto) (m : Secrets) (prefix : Bytes)
    → IsUnlocked s c m
    → list_paths s prefix ≡ ok (sort_strings (matching prefix (keys m)))
unfolding list_paths is_locked
list_paths-unlocked s c m prefix u = ground (arith, u.by_crypto, u.with_key, u.with_map)

-- The list of an unlocked store is in order, and holds a path exactly if a secret is stored at it and
-- it begins with the prefix.
pub list_paths-IsSorted :
    (s : Store) (c : Crypto) (m : Secrets) (prefix : Bytes)
    → IsUnlocked s c m
    → (paths : List Bytes) × (list_paths s prefix ≡ ok paths)
      × IsSorted paths
      × ((k : Bytes) → member k paths ≡ (has_key k m && has_prefix k prefix))
list_paths-IsSorted s c m prefix u = (
  sort_strings (matching prefix (keys m)),
  list_paths-unlocked s c m prefix u,
  sort_strings-IsSorted (matching prefix (keys m)),
  λ k.
      member-sort_strings k (matching prefix (keys m))
      ∙ member-matching k prefix (keys m)
      ∙ ap (λ (b : Bool). b && has_prefix k prefix) (member-keys k m),
)

keep-permᴰ :
    (b : Bool) (x : Bytes) {l l' : List Bytes}
    → Permᴰ l l'
    → Permᴰ (if b then x ∷ l else l) (if b then x ∷ l' else l')
keep-permᴰ true x p = Permᴰ.cons refl p
keep-permᴰ false x p = p

keep-swap :
    (b c : Bool) (x y : Bytes) (l : List Bytes)
    → Permᴰ
        (if b then x ∷ (if c then y ∷ l else l) else (if c then y ∷ l else l))
        (if c then y ∷ (if b then x ∷ l else l) else (if b then x ∷ l else l))
keep-swap true true x y l = Permᴰ.swap refl refl
keep-swap true false x y l = List.Permᴰ.refl (x ∷ l)
keep-swap false true x y l = List.Permᴰ.refl (y ∷ l)
keep-swap false false x y l = List.Permᴰ.refl l

matching-permᴰ :
    (prefix : Bytes) {xs ys : List Bytes}
    → Permᴰ xs ys
    → Permᴰ (matching prefix xs) (matching prefix ys)
unfolding matching
matching-permᴰ prefix Permᴰ.nil = Permᴰ.nil
matching-permᴰ prefix (Permᴰ.cons {a = x} {l₁ = l} {l₂ = l'} e p) =
    subst (λ z. Permᴰ (matching prefix (x ∷ l)) (matching prefix (z ∷ l'))) e
      (keep-permᴰ (is_empty prefix || has_prefix x prefix) x (matching-permᴰ prefix p))
matching-permᴰ prefix (Permᴰ.swap {a = x} {b = y} {l = l} e f) =
    subst₂ (λ z w. Permᴰ (matching prefix (x ∷ y ∷ l)) (matching prefix (w ∷ z ∷ l))) e f
      (keep-swap (is_empty prefix || has_prefix x prefix) (is_empty prefix || has_prefix y prefix) x
        y (matching prefix l))
matching-permᴰ prefix (Permᴰ.trans p q) =
    Permᴰ.trans (matching-permᴰ prefix p) (matching-permᴰ prefix q)

-- Two unlocked stores whose maps have the same paths, in whatever order Go visits them, give the
-- same list.
pub list_paths-perm :
    (s t : Store) (c d : Crypto) (m n : Secrets) (prefix : Bytes)
    → IsUnlocked s c m
    → IsUnlocked t d n
    → Perm (keys m) (keys n)
    → list_paths s prefix ≡ list_paths t prefix
list_paths-perm s t c d m n prefix u v p =
    list_paths-unlocked s c m prefix u
    ∙ ap ok (sort_strings-perm (∥∥₁_map p (matching-permᴰ prefix)))
    ∙ sym (list_paths-unlocked t d n prefix v)
