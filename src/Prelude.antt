-- ===== src/Prelude.antt =====
-- What the modules share: names of the libraries, tests on numbers and texts, list operations
-- over the native numbers, integers, and the lemmas about them.
mod Tests
mod Lists
mod Text
pub mod Int
pub mod Outcome
pub use Tests.*
pub use Lists.*
pub use Text.*
unfoldable pub use Text.{is_space, trim_left, trim_right, trim_space, split_runes}
pub use Prim.Native.Nat.{ℕ, zero, suc, ◌+◌, ◌-◌, ◌*◌, ◌/◌, ◌%◌, ◌^◌, ◌≤◌, ◌<◌}
pub use Prim.Native.String.{String}
pub use mathlib.Core.Path.{◌≡◌, refl, sym, ap, subst, ◌∙◌}
pub use mathlib.Core.Logic.{◌≢◌, ◌↔◌, ◌⊎◌, inl, inr}
pub use mathlib.Core.Bool.{Bool, true, false, not, ◌&&◌, ◌||◌}
pub use mathlib.Core.Option.{Option, none, some}
pub use mathlib.Core.List.{List, [], ◌∷◌, ◌++◌, map, reverse}
pub use native.Mathlib.Omega.{arith}
pub use text.Mathlib.TextEquality.{eq_iff}
