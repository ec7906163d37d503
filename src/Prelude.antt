-- ===== src/Prelude.antt =====
-- The names that the other modules share: the libraries', passed on, and those of the children.
pub mod Tests
pub mod Equality
pub mod Lists
pub mod Strings
pub mod Maps
pub mod Numbers
pub use Prim.Native.Nat.{ℕ, zero, suc, ◌+◌, ◌-◌, ◌*◌, ◌/◌, ◌%◌, ◌^◌, ◌≤◌, ◌<◌, min}
pub use Prim.Native.String.{String}
pub use mathlib.Core.Path.{◌≡◌, refl, sym, ap, ◌∙◌}
pub use mathlib.Core.Logic.{◌≢◌, ◌↔◌, ◌⊎◌, inl, inr}
pub use mathlib.Core.Bool.{Bool, true, false, ◌&&◌, ◌||◌, not}
pub use mathlib.Core.Option.{Option, none, some}
pub use mathlib.Core.List.{List, [], ◌∷◌, ◌++◌, map}
pub use native.Mathlib.Omega.{arith}
pub use Tests.{ltb, leb, if◌then◌else◌, Bool-cases, Option-cases, and_split}
pub use Equality.{Comparable, ◌==◌, nat_eq}
unfoldable pub use Lists.{length, take, drop, All, any}
unfoldable pub use Strings.{Text, codes, text_eq, text_eq_inst, is_empty}
pub use Strings.{text_eq_iff}
unfoldable pub use Maps.{Assoc, lookup, insert, delete, has, keys}
