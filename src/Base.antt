-- ===== src/Base.antt =====
-- Shared names: the libraries', passed on, Boolean tests on native numbers, lists with native
-- indices, and the lemmas that several parts of the kernel use.
mod Tests
mod Lists
mod Counts
pub mod Bits
pub use Tests.*
pub use Lists.*
unfoldable pub use Counts.{one, occurs}
pub use Counts.{one_self, one_eq, ne_of_one, one_ne, one_cases, occurs-append}
pub use Prim.Native.Nat.{ℕ, zero, suc, ◌+◌, ◌-◌, ◌*◌, ◌/◌, ◌%◌, ◌^◌, ◌≤◌, ◌<◌}
pub use mathlib.Core.Path.{◌≡◌, refl, sym, ap, subst, ◌∙◌}
pub use mathlib.Core.Logic.{◌≢◌, ◌⊎◌, inl, inr}
pub use mathlib.Core.Bool.{Bool, true, false, not, ◌&&◌, ◌||◌}
pub use mathlib.Core.Option.{Option, none, some}
pub use mathlib.Core.List.{List, [], ◌∷◌, ◌++◌, map}
pub use native.Mathlib.Omega.{arith}
