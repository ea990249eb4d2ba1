-- ===== src/Base.antt =====
-- The names that the other modules share: the libraries', passed on, and those of the children.
mod Tests
mod Lists
mod Loops
mod Bits
mod Texts
mod Registry
mod Every
pub use Tests.*
pub use Lists.*
pub use Every.{
  All, EachPair, Pick, here, there, Picked, pick-Picked, Pick-length, All-Pick, Pick-All, All-map,
  All-zip, EachPair-Pick,
}
unfoldable pub use Every.{pick}
pub use Prim.Native.Nat.{ℕ, zero, suc, ◌+◌, ◌-◌, ◌*◌, ◌/◌, ◌%◌, ◌^◌, ◌≤◌, ◌<◌, min, max}
pub use mathlib.Core.Path.{◌≡◌, refl, sym, ap, ap₂, ◌∙◌}
pub use mathlib.Core.Logic.{◌≢◌, ◌↔◌, ◌⊎◌, inl, inr}
pub use mathlib.Core.Bool.{Bool, true, false, ◌&&◌, ◌||◌, not}
pub use mathlib.Core.Option.{Option, none, some}
pub use mathlib.Core.List.{List, [], ◌∷◌, ◌++◌, map}
pub use native.Mathlib.Omega.{arith}
pub use Loops.{IsFirst, count_up-IsFirst, count_up_sound, IsFirst-unique}
unfoldable pub use Loops.{count_up}
unfoldable pub use native.Mathlib.Decide.{dec_lt, dec_le, ℕ_discrete}
pub use Prim.Native.Nat.{bit_and, bit_or, bit_xor}
pub use Bits.{test_bit, set_bit, clear_bit, test_bit-set_bit, test_bit-clear_bit, bit_xor-one}
pub use Texts.{Lacks, c_text_plain, split_at, split_at_found, split_at_last}
unfoldable pub use Texts.{c_text}
pub use Registry.{Act, takes, gives, holds, without, act, replay}
