-- ===== src/Base.antt =====
-- The names that the other modules share.
mod Tests
mod Text
mod Dict
mod Order
mod Keys
mod Int
unfoldable pub use Tests.*
unfoldable pub use Text.*
unfoldable pub use Dict.*
unfoldable pub use Order.*
unfoldable pub use Int.*
pub use Keys.*
pub use Prim.Native.Nat.{ℕ, zero, suc, ◌+◌, ◌-◌, ◌*◌, ◌/◌, ◌%◌, ◌^◌, ◌≤◌, ◌<◌}
pub use mathlib.Core.Path.{◌≡◌, refl, sym, ap, ◌∙◌}
pub use mathlib.Core.Logic.{◌≢◌, ◌↔◌, ◌⊎◌, inl, inr}
pub use mathlib.Core.Bool.{Bool, true, false, not, ◌&&◌, ◌||◌}
pub use mathlib.Core.Option.{Option, none, some}
pub use mathlib.Core.List.{List, [], ◌∷◌, ◌++◌, map, append_assoc, append-nil, reverse, Perm}
pub use native.Mathlib.Omega.{arith}
