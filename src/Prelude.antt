-- ===== src/Prelude.antt =====
-- The names that the other modules share: the libraries', passed on, and those of the children.
mod Tests
mod Equality
mod Lists
pub mod Map
pub mod Sort
pub mod Strings
pub mod Int
pub use Tests.{ltb, leb, if◌then◌else◌, Bool-cases, Option-cases, List-cases}
pub use Equality.{Eq, ◌==◌, Text, text, nat_beq, eq_refl, text_refl, text_beq_iff}
unfoldable pub use Equality.{nat_eq, text_eq, text_beq}
pub use Lists.{
  length, length-append, contains-append, count-append, contains-eq-has_count, IsDistinct,
}
unfoldable pub use Lists.{contains, count}
pub use Prim.Native.Nat.{ℕ, zero, suc, ◌+◌, ◌-◌, ◌*◌, ◌/◌, ◌%◌, ◌^◌, ◌≤◌, ◌<◌}
pub use Prim.Native.String.{String}
pub use mathlib.Core.Path.{◌≡◌, refl, sym, ap, ◌∙◌, subst}
pub use mathlib.Core.Logic.{◌≢◌, ◌↔◌, ◌⊎◌, inl, inr}
pub use mathlib.Core.Bool.{Bool, true, false, ◌&&◌, ◌||◌, not}
pub use mathlib.Core.Option.{Option, none, some}
pub use mathlib.Core.List.{List, [], ◌∷◌, ◌++◌, map}
pub use native.Mathlib.Omega.{arith}
