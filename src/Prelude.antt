-- ===== src/Prelude.antt =====
-- The names that the other modules share: the libraries' names, passed on, with the Boolean
-- tests, the lists over native numbers, the machine words and the bit laws of the children.
mod Tests
mod Lists
mod Words
mod Bits
pub mod Int
unfoldable pub use Tests.{bool_eq}
pub use Tests.*
pub use Lists.*
pub use Words.*
unfoldable pub use Bits.{all_below}
pub use Bits.*
pub use Prim.Native.Nat.{
  ℕ, zero, suc, ◌+◌, ◌-◌, ◌*◌, ◌/◌, ◌%◌, ◌^◌, ◌≤◌, ◌<◌, min, max, bit_and, bit_or, bit_xor,
}
pub use mathlib.Core.Path.{◌≡◌, refl, sym, ap, ap₂, ◌∙◌}
pub use mathlib.Core.Logic.{◌≢◌, ◌↔◌, ◌⊎◌, inl, inr}
pub use mathlib.Core.Bool.{Bool, true, false, ◌&&◌, ◌||◌, not}
pub use mathlib.Core.Option.{Option, none, some}
pub use mathlib.Core.List.{List, [], ◌∷◌, ◌++◌, map, append-nil, append_assoc}
pub use native.Mathlib.Omega.{arith}
