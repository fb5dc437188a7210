-- ===== src/Prelude.antt =====
-- Names that the other modules share: library names passed on, and the helpers of the children.
mod Tests
mod Lists
mod Ints
mod Byte
mod Assoc
mod Base
mod Bits
mod Sort
mod Outcomes
pub use Tests.*
pub use Lists.*
pub use Ints.*
pub use Byte.*
pub use Assoc.*
pub use Base.*
pub use Bits.*
pub use Sort.*
pub use Outcomes.*
pub use Prim.Native.Nat.{ℕ, zero, suc, ◌+◌, ◌-◌, ◌*◌, ◌/◌, ◌%◌, ◌^◌, ◌≤◌, ◌<◌, bit_and, bit_or}
pub use Prim.Native.String.{String}
pub use mathlib.Core.Path.{◌≡◌, refl, sym, ap, subst, ◌∙◌, ap₂, subst₂}
pub use mathlib.Core.Logic.{◌≢◌, ◌↔◌, ◌⊎◌, inl, inr}
pub use mathlib.Core.Bool.{Bool, true, false, not, ◌&&◌, ◌||◌}
pub use mathlib.Core.Option.{Option, none, some}
pub use mathlib.Core.List.{List, [], ◌∷◌, ◌++◌, map, append-nil, append_assoc}
pub use native.Mathlib.Omega.{arith}
