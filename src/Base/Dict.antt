-- ===== src/Base/Dict.antt =====
-- Go's `map[string]V`: an association list over byte strings. A range over a Go map visits the
-- entries in no fixed order: code that ranges over one recurs on the entries, and a statement about
-- every list of entries is a statement about every order.
use Prim.Native.Nat.{suc}
use mathlib.Core.Path.{◌≡◌, refl, ap}
use mathlib.Core.Logic.{◌≢◌}
use mathlib.Core.Bool.{Bool, true, false}
use mathlib.Core.List.{List, [], ◌∷◌}
use mathlib.Core.Option.{Option, none, some}
use native.Mathlib.Omega.{arith}
use omnivault.Base.Tests.{if◌then◌else◌}
use omnivault.Base.Text.{Bytes, bytes_eq, bytes_eq_iff, bytes_eq_self, length}

abbrev pub Map {ℓ} : Type ℓ → Type ℓ
Map V = List (Bytes × V)

module _ {ℓ} {V : Type ℓ} where
  -- v, ok := m[k]
  unfoldable pub lookup : Bytes → Map V → Option V
  lookup k [] = none
  lookup k ((j, v) ∷ m) = if bytes_eq j k then some v else lookup k m

  -- m[k] = v
  unfoldable pub insert : Bytes → V → Map V → Map V
  insert k v [] = (k, v) ∷ []
  insert k v ((j, w) ∷ m) = if bytes_eq j k then (k, v) ∷ m else (j, w) ∷ insert k v m

  -- delete(m, k)
  unfoldable pub delete : Bytes → Map V → Map V
  delete k [] = []
  delete k ((j, v) ∷ m) = let rest = delete k m in if bytes_eq j k then rest else (j, v) ∷ rest

  -- The keys, in the order of a range.
  unfoldable pub keys : Map V → List Bytes
  keys [] = []
  keys ((k, v) ∷ m) = k ∷ keys m

  -- _, ok := m[k]
  unfoldable pub has_key : Bytes → Map V → Bool
  unfolding lookup
  has_key k m = elim (lookup k m) [ none ↦ false | some v ↦ true ]

  -- No key stands twice.
  abbrev pub IsMap : Map V → Type ℓ
  IsMap [] = Unit
  IsMap ((k, v) ∷ m) = (lookup k m ≡ none) × IsMap m

  pub lookup-insert :
      (k j : Bytes) (v : V) (m : Map V)
      → lookup j (insert k v m) ≡ (if bytes_eq k j then some v else lookup j m)
  unfolding lookup insert
  lookup-insert k j v [] = refl
  lookup-insert k j v ((i, w) ∷ m) =
      ground (arith, bytes_eq_iff k j, bytes_eq_iff i k, bytes_eq_iff i j, lookup-insert k j v m)

  pub lookup-delete :
      (k j : Bytes) (m : Map V)
      → lookup j (delete k m) ≡ (if bytes_eq k j then none else lookup j m)
  unfolding lookup delete
  lookup-delete k j [] = ground arith
  lookup-delete k j ((i, w) ∷ m) =
      ground (arith, bytes_eq_iff k j, bytes_eq_iff i k, bytes_eq_iff i j, lookup-delete k j m)

  pub lookup-insert_self : (k : Bytes) (v : V) (m : Map V) → lookup k (insert k v m) ≡ some v
  lookup-insert_self k v m = simp (lookup-insert, bytes_eq_self)

  pub lookup-insert_ne :
      (k j : Bytes) (v : V) (m : Map V) → k ≢ j → lookup j (insert k v m) ≡ lookup j m
  lookup-insert_ne k j v m h = rw lookup-insert (ground (arith, bytes_eq_iff k j))

  pub lookup-delete_self : (k : Bytes) (m : Map V) → lookup k (delete k m) ≡ none
  lookup-delete_self k m = simp (lookup-delete, bytes_eq_self)

  pub lookup-delete_ne : (k j : Bytes) (m : Map V) → k ≢ j → lookup j (delete k m) ≡ lookup j m
  lookup-delete_ne k j m h = rw lookup-delete (ground (arith, bytes_eq_iff k j))

  pub IsMap-insert : (k : Bytes) (v : V) (m : Map V) → IsMap m → IsMap (insert k v m)
  unfolding lookup insert
  IsMap-insert k v [] h = (refl, tt)
  IsMap-insert k v ((j, w) ∷ m) h =
      ground
        (arith, bytes_eq_iff j k, bytes_eq_iff k j, lookup-insert k j v m, IsMap-insert k v m h.1)

  pub IsMap-delete : (k : Bytes) (m : Map V) → IsMap m → IsMap (delete k m)
  unfolding delete
  IsMap-delete k [] h = tt
  IsMap-delete k ((j, w) ∷ m) h =
      ground (arith, bytes_eq_iff k j, lookup-delete k j m, IsMap-delete k m h.1)

  pub length-insert :
      (k : Bytes) (v : V) (m : Map V)
      → length (insert k v m) ≡ (if has_key k m then length m else suc (length m))
  unfolding insert has_key
  length-insert k v [] = refl
  length-insert k v ((j, w) ∷ m) = ground (arith, length-insert k v m)

  pub length-keys : (m : Map V) → length (keys m) ≡ length m
  unfolding keys
  length-keys [] = refl
  length-keys ((k, v) ∷ m) = ap suc (length-keys m)
