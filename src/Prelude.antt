-- ===== src/Prelude.antt =====
-- The names that the other modules share: the libraries', passed on, and those of the children.
mod Tests
mod Lists
mod Maps
mod CodeUnits
mod Sorting
pub use Tests.*
pub use Lists.*
pub use Maps.{
  Assoc, length-insert_present, length-insert-le, length-erase-le, insert_new, All-insert,
  All-lookup, All-insert_entry, All-lookup_entry, lookup-keep, lookup-insert, lookup-insert_self,
  insert-insert, lookup-erase,
}
unfoldable pub use Maps.{lookup, insert, erase}
unfoldable pub use CodeUnits.{sort, take_units}
pub use Sorting.*
pub use CodeUnits.{sort_swap, sort-cons}
pub use Prim.Native.Nat.{ℕ, zero, suc, ◌+◌, ◌-◌, ◌*◌, ◌/◌, ◌%◌, ◌≤◌, ◌<◌}
pub use Prim.Native.String.{String}
pub use mathlib.Core.Path.{◌≡◌, refl, sym, ap, subst, ◌∙◌}
pub use mathlib.Core.Logic.{◌≢◌, ◌↔◌, ◌⊎◌, inl, inr}
pub use mathlib.Core.Bool.{Bool, true, false, not, ◌&&◌, ◌||◌}
pub use mathlib.Core.Option.{Option, none, some}
pub use mathlib.Core.List.{List, [], ◌∷◌, ◌++◌, map}
pub use native.Mathlib.Omega.{arith}
pub use text.Mathlib.TextEquality.{eq_iff}
