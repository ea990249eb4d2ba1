-- ===== src/PenguinMalloc/BuddyUtil/Tests.antt =====
-- The cases of penguin_malloc/tests/buddy_util_test.cpp, and the theorems at a small bitmap and arena.
use doomsday_kernel_modules.Base.{
  ℕ, ◌/◌, ◌^◌, ◌≤◌, ◌<◌, ◌≡◌, ◌≢◌, ◌↔◌, refl, some, true, false, [], ◌∷◌, arith, length, bit_xor,
}
use doomsday_kernel_modules.PenguinMalloc.BuddyUtil.{
  Bitmap, mask_index, bit_index, buddy_get, buddy_set, buddy_unset, buddy_mark, block_size,
  best_fit_layer,
}
use doomsday_kernel_modules.PenguinMalloc.BuddyUtil.Position.{position_injective, buddy_sibling}
use doomsday_kernel_modules.PenguinMalloc.BuddyUtil.Bitmap.{
  IsBytes, IsBlock, buddy_set-some, buddy_unset-some,
}
use doomsday_kernel_modules.PenguinMalloc.BuddyUtil.Blocks.{IsArena}
use doomsday_kernel_modules.PenguinMalloc.BuddyUtil.BestFit.{best_fit_layer_holds_iff}

indices : (mask_index 4 9 ≡ 3) × (bit_index 2 3 ≡ 7) × (bit_index 80 257 ≡ 1)
unfolding mask_index bit_index
indices = (refl, refl, refl)

abbrev two_bytes : Bitmap
two_bytes = 0b0000_0000 ∷ 0b1000_1001 ∷ []

get_third_layer : (buddy_get two_bytes 3 3 ≡ some true) × (buddy_get two_bytes 3 4 ≡ some false)
unfolding buddy_get mask_index bit_index
get_third_layer = (refl, refl)

-- Marking both children of a block marks the block in their place.
mark_two :
    (buddy_mark (0 ∷ []) 1 0 ≡ some (0b0000_0100 ∷ []))
    × (buddy_mark (0b0000_0100 ∷ []) 1 1 ≡ some (0b0000_0010 ∷ []))
unfolding buddy_mark buddy_get buddy_set buddy_unset mask_index bit_index
mark_two = (refl, refl)

position_injective_ex : ◌≡◌ {A = ℕ} 3 3 × ◌≡◌ {A = ℕ} 5 5
position_injective_ex = position_injective 3 5 3 5 (omega arith) (omega arith) refl refl

sibling_example :
    (bit_xor 5 1 < 2 ^ 3)
    × (bit_xor 5 1 ≢ 5)
    × (bit_xor 5 1 / 2 ≡ 2)
    × (bit_xor (bit_xor 5 1) 1 ≡ 5)
sibling_example = buddy_sibling 2 5 (omega arith)

leaf : IsBlock two_bytes 3 4
unfolding mask_index
leaf = omega arith

other_leaf : IsBlock two_bytes 3 0
unfolding mask_index
other_leaf = omega arith

after_set : buddy_set two_bytes 3 4 ≡ some (0b0000_0000 ∷ 0b1001_1001 ∷ [])
unfolding buddy_set mask_index bit_index
after_set = refl

after_unset : buddy_unset two_bytes 3 0 ≡ some (0b0000_0000 ∷ 0b1000_1000 ∷ [])
unfolding buddy_unset mask_index bit_index
after_unset = refl

set_some_example :
    (out : Bitmap) × (buddy_set two_bytes 3 4 ≡ some out) × (length out ≡ 2) × IsBytes out
set_some_example = buddy_set-some two_bytes 3 4 leaf (omega arith)

unset_some_example :
    (out : Bitmap) × (buddy_unset two_bytes 3 4 ≡ some out) × (length out ≡ 2) × IsBytes out
unset_some_example = buddy_unset-some two_bytes 3 4 leaf (omega arith)

arena : IsArena 8192 16
arena = omega arith

holds_iff_example :
    (layer : ℕ) × (best_fit_layer 5 8 ≡ some layer)
    × (layer ≤ 3)
    × ((5 ≤ block_size layer 8) ↔ (2 ^ layer ≡ 1))
holds_iff_example = best_fit_layer_holds_iff 3 5 (omega arith) (omega arith) (omega arith)
