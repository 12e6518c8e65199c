-- ===== src/Prelude.antt =====
-- The names that every component shares: the libraries', passed on, and those of its children.
mod Tests
mod Equality
mod Lists
pub mod Int
pub mod Table
pub mod Text
pub mod Bytes
pub mod Slices
pub use Tests.*
pub use Equality.{Eq, ◌==◌, nat_eq, string_eq, bool_eq, option_eq, eq_self, eq-eq_true}
unfoldable pub use Equality.{string_discrete, option_discrete}
pub use Lists.*
pub use Prim.Native.Nat.{ℕ, zero, suc, ◌+◌, ◌-◌, ◌*◌, ◌/◌, ◌%◌, ◌^◌, ◌≤◌, ◌<◌}
pub use Prim.Native.String.{String}
pub use mathlib.Core.Path.{◌≡◌, refl, sym, ap, ◌∙◌}
pub use mathlib.Core.Logic.{◌≢◌, ◌↔◌, ◌⊎◌, inl, inr, ite}
pub use mathlib.Core.Bool.{Bool, true, false, ◌&&◌, ◌||◌, not}
pub use mathlib.Core.Option.{Option, none, some}
pub use mathlib.Core.List.{List, [], ◌∷◌, ◌++◌, map}
pub use native.Mathlib.Omega.{arith}
unfoldable pub use native.Mathlib.Decide.{ℕ_discrete}
