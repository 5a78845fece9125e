-- ===== src/Prelude.antt =====
-- The names that all modules share: the libraries', passed on, and those of four children.
pub mod Tests
pub mod Lists
pub mod Dict
pub mod Results
pub use Tests.*
pub use Lists.*
pub use Dict.{
  lookup, without, insert, lookup-without, lookup-insert, lookup-insert_self, lookup-without_self,
}
pub use Results.*
pub use Prim.Native.Nat.{ℕ, zero, suc, ◌+◌, ◌-◌, ◌*◌, ◌/◌, ◌%◌, ◌^◌, ◌≤◌, ◌<◌, min}
pub use Prim.Native.String.{String}
pub use mathlib.Core.Path.{◌≡◌, refl, sym, ap, subst, ◌∙◌}
pub use mathlib.Core.Logic.{◌≢◌, ◌↔◌, ◌⊎◌, inl, inr}
pub use mathlib.Core.Bool.{Bool, true, false, not, ◌&&◌, ◌||◌}
pub use mathlib.Core.Option.{Option, none, some}
pub use mathlib.Core.List.{List, [], ◌∷◌, ◌++◌, map}
pub use native.Mathlib.Omega.{arith}
