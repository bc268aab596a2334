-- ===== src/Base.antt =====
-- The names that the modules share: the libraries', passed on, and those of the children.
mod Tests
mod Lists
mod Bits
mod Tables
mod Words
mod Fields
mod Ending
mod Int
mod Maps
pub use Tests.*
pub use Maps.{update}
pub use Ending.{Ends, abort, returns}
pub use Lists.*
pub use Bits.*
unfoldable pub use Bits.{test_bit}
pub use Words.*
pub use Fields.*
pub use Int.{ℤ, pos, negsuc}
unfoldable pub use Words.{find_first}
unfoldable pub use Tables.{holds_below}
pub use Tables.{holds_below-at, codes, count_up}
pub use Prim.Native.Nat.{ℕ, zero, suc, ◌+◌, ◌-◌, ◌*◌, ◌/◌, ◌%◌, ◌^◌, ◌≤◌, ◌<◌, min, max}
pub use Prim.Native.Nat.{bit_and, bit_or, bit_xor}
pub use mathlib.Core.Path.{◌≡◌, refl, sym, ap, ◌∙◌}
pub use mathlib.Core.Logic.{◌≢◌, ◌↔◌, ◌⊎◌, inl, inr}
pub use mathlib.Core.Bool.{Bool, true, false, not, ◌&&◌, ◌||◌}
pub use mathlib.Core.Option.{Option, none, some}
pub use mathlib.Core.List.{List, [], ◌∷◌, ◌++◌}
pub use native.Mathlib.Omega.{arith}
