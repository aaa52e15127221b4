-- ===== src/Prelude.antt =====
-- Names that the other modules share: the libraries', passed on, and those of the children.
mod Tests
mod Lists
mod Bytes
mod Shift
mod Int
mod Search
mod Mask
mod Xor
mod Decimal
pub use Tests.*
pub use Lists.*
pub use Bytes.*
pub use Shift.*
pub use Int.*
pub use Search.*
pub use Mask.*
pub use Xor.*
pub use Decimal.*
unfoldable pub use Search.{find_index, times}
unfoldable pub use Bytes.{str_eq}
unfoldable pub use Decimal.{decimal_from}
unfoldable pub use Shift.{move_down, erase_idx}
pub use Prim.Native.Nat.{ℕ, zero, suc, ◌+◌, ◌-◌, ◌*◌, ◌/◌, ◌%◌, ◌^◌, ◌≤◌, ◌<◌, min, max, bit_and}
pub use mathlib.Core.Path.{◌≡◌, refl, sym, ap, ap₂, ◌∙◌, subst}
pub use mathlib.Core.Logic.{◌≢◌, ◌↔◌, ◌⊎◌, inl, inr}
pub use mathlib.Core.Bool.{Bool, true, false, not, ◌&&◌, ◌||◌}
pub use mathlib.Core.Option.{Option, none, some}
pub use mathlib.Core.List.{List, [], ◌∷◌, ◌++◌, map, append-nil, append_assoc}
pub use native.Mathlib.Omega.{arith}
pub use native.Mathlib.Numerals.{add-one}
