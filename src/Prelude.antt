-- ===== src/Prelude.antt =====
-- The names that the development shares: the libraries', passed on, and those of the children.
mod Tests
mod Eq
pub mod Int
pub use Tests.*
pub use Eq.{
  Equality, ◌==◌, nat_equality, string_equality, list_equality, pair_equality, triple_equality,
  ==-refl, ==-eq, ==-differ_sym,
}
pub use Prim.Native.Nat.{ℕ, zero, suc, ◌+◌, ◌-◌, ◌*◌, ◌/◌, ◌%◌, ◌^◌, ◌≤◌, ◌<◌, max}
pub use Prim.Native.String.{String}
pub use mathlib.Core.Path.{◌≡◌, refl, sym, ap, ◌∙◌, subst}
pub use mathlib.Core.Logic.{◌≢◌, ◌↔◌, ◌⊎◌, inl, inr}
pub use mathlib.Core.Bool.{Bool, true, false, ◌&&◌, ◌||◌, not}
pub use mathlib.Core.Option.{Option, none, some}
pub use mathlib.Core.List.{List, [], ◌∷◌, ◌++◌, map, reverse}
pub use native.Mathlib.Omega.{arith}
