-- ===== src/PenguinMalloc/BuddyUtil.antt =====
-- penguin_malloc/src/buddy_util.c: the bitmap over the blocks of every layer, and the arithmetic
-- between blocks and addresses. A bitmap is the list of its bytes. What C leaves undefined is `none` where it
-- is an access past the end of the bitmap, a division by zero, or the shift of a bit by 64 or more. The
-- shift of `block_size` by 64 or more, undefined as well, is 0 here, and the shift of `mask_index` for a layer
-- of 67 or more gives the index of a byte at 2^64 or behind.
pub mod Bitmap
pub mod Position
pub mod Blocks
pub mod BestFit
mod Tests
use doomsday_kernel_modules.Base.{
  ℕ, zero, suc, ◌+◌, ◌-◌, ◌*◌, ◌/◌, ◌%◌, ◌^◌, Bool, true, false, Option, none, some, List, ltb,
  ◌==◌, if◌then◌else◌, get_elem?, set, ◌>>=◌, test_bit, set_bit, clear_bit, bit_xor,
}
use doomsday_kernel_modules.PenguinMalloc.Config.{page_size, add_size, sub_size, mul_size}
use doomsday_kernel_modules.PenguinMalloc.Util.{log2_upper}

unfoldable pub buddy_bitmap_size : ℕ → ℕ
buddy_bitmap_size blocks_count = (blocks_count + 7) / 8

-- The index of the byte that holds the bit of a block.
unfoldable pub mask_index : ℕ → ℕ → ℕ
mask_index layer index = if ltb layer 3 then 0 else 2 ^ (layer - 3) + index / 8

-- The index of the bit in that byte.
unfoldable pub bit_index : ℕ → ℕ → ℕ
bit_index layer index = if ltb layer 3 then index + 2 ^ layer else index % 8

abbrev pub Bitmap : Type 0
Bitmap = List ℕ

-- `bitmap[mask_index(layer, index)]`, beside `1ull << bit_index(layer, index)`.
unfoldable pub byte_at : Bitmap → ℕ → ℕ → Option ℕ
byte_at bitmap layer index =
    if ltb (bit_index layer index) 64 then get_elem? bitmap (mask_index layer index) else none

unfoldable pub buddy_set : Bitmap → ℕ → ℕ → Option Bitmap
unfolding byte_at
buddy_set bitmap layer index = do
  byte ← byte_at bitmap layer index
  some (set bitmap (mask_index layer index) (set_bit byte (bit_index layer index)))

unfoldable pub buddy_unset : Bitmap → ℕ → ℕ → Option Bitmap
unfolding byte_at
buddy_unset bitmap layer index = do
  byte ← byte_at bitmap layer index
  some (set bitmap (mask_index layer index) (clear_bit byte (bit_index layer index)))

unfoldable pub buddy_get : Bitmap → ℕ → ℕ → Option Bool
unfolding byte_at
buddy_get bitmap layer index = do
  byte ← byte_at bitmap layer index
  some (test_bit byte (bit_index layer index))

-- `while (layer != 0 && buddy_get(bitmap, layer, index ^ 1)) { ... }`, then the final `buddy_set`.
unfoldable pub buddy_mark : Bitmap → ℕ → ℕ → Option Bitmap
buddy_mark bitmap zero index = buddy_set bitmap 0 index
buddy_mark bitmap (suc layer) index = buddy_get bitmap (suc layer) (bit_xor index 1) >>= λ taken.
    elim taken [
      | true ↦ buddy_unset bitmap (suc layer) (bit_xor index 1) >>= λ bitmap'.
          buddy_mark bitmap' layer (index / 2)
      | false ↦ buddy_set bitmap (suc layer) index
    ]

unfoldable pub block_size : ℕ → ℕ → ℕ
block_size layer root_block_size = root_block_size / 2 ^ layer

unfoldable pub best_fit_layer : ℕ → ℕ → Option ℕ
best_fit_layer pages root_block_size =
    if pages == 0 then none else log2_upper (root_block_size / pages)

unfoldable pub to_pointer : ℕ → ℕ → ℕ → ℕ → ℕ
unfolding block_size
to_pointer begin layer index root_block_size =
    add_size begin (mul_size (mul_size (block_size layer root_block_size) index) page_size)

unfoldable pub to_index : ℕ → ℕ → ℕ → ℕ → Option ℕ
unfolding block_size
to_index begin layer pointer root_block_size =
    if block_size layer root_block_size == 0
    then none
    else some (sub_size pointer begin / block_size layer root_block_size / page_size)
