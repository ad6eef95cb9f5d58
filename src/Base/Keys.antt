-- ===== src/Base/Keys.antt =====
-- The keys that a range over a map visits.
use mathlib.Core.Path.{◌≡◌, refl}
use mathlib.Core.List.{[], ◌∷◌}
use native.Mathlib.Omega.{arith}
use omnivault.Base.Text.{Bytes}
use omnivault.Base.Dict.{Map, has_key, keys}
use omnivault.Base.Order.{member}

pub member-keys {ℓ} : {V : Type ℓ} (k : Bytes) (m : Map V) → member k (keys m) ≡ has_key k m
unfolding keys has_key member
member-keys k [] = refl
member-keys k ((j, v) ∷ m) = ground (arith, member-keys k m)
