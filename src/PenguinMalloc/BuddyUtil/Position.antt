-- ===== src/PenguinMalloc/BuddyUtil/Position.antt =====
-- Where the bit of a block lies: the blocks of all layers form a binary tree that is numbered from
-- one, layer by layer, as the comment on `bitmap` in penguin_malloc/src/buddy.h draws it.
use native.Mathlib.Nat.{pow-suc}
use native.Mathlib.Numerals.{add-one}
use doomsday_kernel_modules.Base.{
  ℕ, zero, suc, ◌+◌, ◌-◌, ◌*◌, ◌/◌, ◌^◌, ◌<◌, ◌≡◌, ap, arith, bit_xor, bit_xor-one, false, ◌≢◌, ltb,
  ltb_of_le,
}
use doomsday_kernel_modules.PenguinMalloc.BuddyUtil.{mask_index, bit_index}
use doomsday_kernel_modules.PenguinMalloc.Util.Powers.{IsLog2Lower-unique}

-- The number of the bit in the whole bitmap.
abbrev pub position : ℕ → ℕ → ℕ
position layer index = 8 * mask_index layer index + bit_index layer index

-- The bit of block `index` of a layer is number `2^layer + index` of the bitmap, and it lies inside
-- its byte.
pub position_heap :
    (layer index : ℕ)
    → index < 2 ^ layer
    → (position layer index ≡ 2 ^ layer + index) × (bit_index layer index < 8)
unfolding mask_index bit_index
position_heap zero index h = (omega arith, omega arith)
position_heap (suc zero) index h = (omega arith, omega arith)
position_heap (suc (suc zero)) index h = (omega arith, omega arith)
position_heap (suc (suc (suc layer))) index h =
    let e : suc (suc (suc layer)) - 3 ≡ layer = omega arith in
    let deep : ltb (suc (suc (suc layer))) 3 ≡ false = ltb_of_le (omega arith) in
    rw (deep, e)
      (
        omega (arith, pow-suc 2 layer, pow-suc 2 (suc layer), pow-suc 2 (suc (suc layer))),
        omega arith,
      )

module _ (l i k j : ℕ) (hi : i < 2 ^ l) (hj : j < 2 ^ k) where
  -- Blocks whose tree numbers are equal are one block.
  heap_injective : 2 ^ l + i ≡ 2 ^ k + j → (l ≡ k) × (i ≡ j)
  heap_injective e =
      let same : l ≡ k =
        IsLog2Lower-unique (2 ^ l + i)
          (record {
            fits = omega arith;
            next_too_large = rw (add-one l) (omega (arith, pow-suc 2 l));
          })
          (record {
            fits = omega arith;
            next_too_large = rw (add-one k) (omega (arith, pow-suc 2 k));
          }) in
      (same, omega (arith, ap (λ m. 2 ^ m) same))

  -- Two blocks share a bit of the bitmap only if they are one block.
  pub position_injective :
      mask_index l i ≡ mask_index k j → bit_index l i ≡ bit_index k j → (l ≡ k) × (i ≡ j)
  position_injective em eb =
      heap_injective (omega (arith, position_heap l i hi, position_heap k j hj))

-- The buddy `index ^ 1` is another block of the same layer with the same parent, and its own buddy
-- is the block.
pub buddy_sibling :
    (layer index : ℕ)
    → index < 2 ^ suc layer
    → (bit_xor index 1 < 2 ^ suc layer)
      × (bit_xor index 1 ≢ index)
      × (bit_xor index 1 / 2 ≡ index / 2)
      × (bit_xor (bit_xor index 1) 1 ≡ index)
buddy_sibling layer index h =
    omega (arith, pow-suc 2 layer, bit_xor-one index, bit_xor-one (bit_xor index 1))
