-- ===== src/Prelude.antt =====
-- The names that the other modules share: the libraries', passed on, and those of the children.
mod Tests
mod Eq
mod Lists
mod Text
pub mod Int
pub mod Slices
pub mod TextOrder
pub use Tests.*
pub use Eq.{Equality, ◌==◌, nat_eq, string_eq, pair_eq, ==-refl, ==→≡, ≡→==, ==-false}
pub use Lists.*
unfoldable pub use Text.{
  is_empty, truthy, text_leb, is_space, strip, strip_left, strip_right, before_stripped,
  is_word_char, word_tail, matches_word,
}
pub use Prim.Native.Nat.{ℕ, zero, suc, ◌+◌, ◌-◌, ◌*◌, ◌/◌, ◌%◌, ◌^◌, ◌≤◌, ◌<◌}
pub use Prim.Native.String.{String}
pub use mathlib.Core.Path.{◌≡◌, refl, sym, ap, ◌∙◌}
pub use mathlib.Core.Logic.{◌≢◌, ◌↔◌, ◌⊎◌, inl, inr}
pub use mathlib.Core.Bool.{Bool, true, false, not, ◌&&◌, ◌||◌}
pub use mathlib.Core.Option.{Option, none, some}
pub use mathlib.Core.List.{List, [], ◌∷◌, ◌++◌, map}
pub use native.Mathlib.Omega.{arith}
