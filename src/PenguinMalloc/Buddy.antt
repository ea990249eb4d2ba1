-- ===== src/PenguinMalloc/Buddy.antt =====
-- penguin_malloc/src/buddy.c: a buddy allocator of pages over one arena. The struct, its array of
-- free lists and its bitmap are a record; the words of the free blocks are in `Memory`. `none` is
-- undefined behaviour of C: an access past the free lists or the bitmap, a division by zero.
pub mod Sizes
pub mod Above
pub mod Search
pub mod Step
pub mod Split
pub mod Pool
pub mod Taking
pub mod Splitting
pub mod Allots
pub mod Sequence
pub mod Release
pub mod Oversized
pub mod Runs
mod Tests
use doomsday_kernel_modules.Base.{
  ◌>>=◌, ℕ, zero, suc, ◌+◌, ◌-◌, ◌*◌, ◌/◌, ◌%◌, ◌^◌, Bool, true, false, not, Option, none, some,
  List, ltb, leb, ◌==◌, if◌then◌else◌, get_elem?, set, replicate, bit_xor,
}
use doomsday_kernel_modules.PenguinMalloc.Config.{
  page_size, word_size, add_size, sub_size, mul_size, to_int, int_to_size, half_int,
}
use doomsday_kernel_modules.PenguinMalloc.Util.{
  align_addr_to_page_size_up, align_addr_to_page_size_down, log2_upper, max_lower_power_of_2,
  pages_count,
}
use doomsday_kernel_modules.PenguinMalloc.BuddyUtil.{
  Bitmap, buddy_bitmap_size, buddy_get, buddy_set, buddy_unset, best_fit_layer, to_pointer,
  to_index,
}
use doomsday_kernel_modules.PenguinMalloc.Freelist.{
  Memory, null, freelist_push, freelist_pop, freelist_get,
}

pub record BuddyAlloc : Type 0 where
  pub bitmap : Bitmap
  pub freelist : List ℕ
  pub buddy_layers : ℕ
  pub blocks_count : ℕ
  pub root_block_size : ℕ
  pub begin : ℕ

-- `sizeof(buddy_alloc_t)`: six words.
abbrev sizeof_buddy_alloc : ℕ
sizeof_buddy_alloc = 6 * word_size

-- The fields that `buddy_update_params` computes for the region between two addresses.
pub record Params : Type 0 where
  pub blocks_count : ℕ
  pub root_block_size : ℕ
  pub buddy_layers : ℕ

unfoldable pub buddy_update_params : ℕ → ℕ → Option Params
buddy_update_params begin end = do
  let blocks_count = pages_count begin end
  root_block_size ← max_lower_power_of_2 blocks_count
  buddy_layers ← log2_upper blocks_count
  some (record {
    blocks_count = blocks_count;
    root_block_size = root_block_size;
    buddy_layers = buddy_layers;
  })

-- `freelist_push(&freelist[layer], block)` on an element of the array.
unfoldable pub push_at : List ℕ → Memory → ℕ → ℕ → Option (List ℕ × Memory)
push_at freelist mem layer block = do
  head ← get_elem? freelist layer
  let (pushed, mem') = freelist_push mem (some head) block
  head' ← pushed
  some (set freelist layer head', mem')

-- `freelist_pop(&freelist[layer])` on an element of the array.
unfoldable pub pop_at : List ℕ → Memory → ℕ → Option (ℕ × List ℕ)
pop_at freelist mem layer = do
  head ← get_elem? freelist layer
  let (block, popped) = freelist_pop mem (some head)
  head' ← popped
  some (block, set freelist layer head')

-- The inner option is the NULL that `buddy_init` returns for a region that is too small. The array
-- and the bitmap are written with the sizes of the second call, behind the addresses that the
-- sizes of the first call give.
unfoldable pub buddy_init : Memory → ℕ → ℕ → Option (Option (BuddyAlloc × Memory))
buddy_init mem begin end = if ltb (pages_count begin end) 16 then some none else do
  let after_struct = add_size begin sizeof_buddy_alloc
  first ← buddy_update_params after_struct end
  let after_lists = add_size after_struct (mul_size first.buddy_layers word_size)
  let after_bitmap = add_size after_lists (buddy_bitmap_size first.blocks_count)
  let arena = align_addr_to_page_size_up after_bitmap
  params ← buddy_update_params arena (align_addr_to_page_size_down end)
  (lists, mem') ← push_at (replicate params.buddy_layers null) mem 0 arena
  bitmap ← buddy_unset (replicate (buddy_bitmap_size params.blocks_count) 0xFF) 0 0
  some (
      some (
        record {
          bitmap = bitmap;
          freelist = lists;
          buddy_layers = params.buddy_layers;
          blocks_count = params.blocks_count;
          root_block_size = params.root_block_size;
          begin = arena;
        },
        mem',
      ))

-- `while (layer > 0 && freelist_get(alloc->freelist[layer]) == NULL) layer -= 1;`
unfoldable pub find_layer : List ℕ → ℕ → Option ℕ
find_layer freelist zero = some 0
find_layer freelist (suc layer) = get_elem? freelist (suc layer) >>= λ head.
    let up = find_layer freelist layer in if freelist_get head == null then up else some (suc layer)

-- The state that the loop of `buddy_alloc` changes.
pub record Halves : Type 0 where
  pub bits : Bitmap
  pub lists : List ℕ
  pub words : Memory

-- One round of `while (layer < bf_layer)`: the block is marked as split, its left child as taken,
-- and its right child is pushed to its list.
unfoldable pub split_step : ℕ → ℕ → ℕ → ℕ → Halves → Option Halves
split_step begin root layer index s = do
  split ← buddy_set s.bits layer index
  left ← buddy_unset split (suc layer) (index * 2)
  right ← buddy_set left (suc layer) (index * 2 + 1)
  (lists, words) ←
      push_at s.lists s.words (suc layer) (to_pointer begin (suc layer) (index * 2 + 1) root)
  some (record { bits = right; lists = lists; words = words })

-- The loop, with `bf_layer - layer` rounds left.
unfoldable pub split_loop : ℕ → ℕ → ℕ → ℕ → ℕ → Halves → Option Halves
split_loop begin root zero layer index s = some s
split_loop begin root (suc left) layer index s = split_step begin root layer index s >>= λ s'.
    split_loop begin root left (suc layer) (index * 2) s'

-- What `buddy_alloc` does with a block that it popped from the list of `layer`: `left` layers are
-- still to be split off.
unfoldable pub split_block : BuddyAlloc → Memory → ℕ → ℕ → ℕ → Option (ℕ × BuddyAlloc × Memory)
split_block alloc mem ptr layer left = do
  index ← to_index alloc.begin layer ptr alloc.root_block_size
  s ←
      split_loop alloc.begin alloc.root_block_size left layer index
        (record { bits = alloc.bitmap; lists = alloc.freelist; words = mem })
  some (ptr, record alloc { bitmap = s.bits; freelist = s.lists }, s.words)

-- The address, NULL if there is no block, and the new allocator and memory.
unfoldable pub buddy_alloc : BuddyAlloc → Memory → ℕ → Option (ℕ × BuddyAlloc × Memory)
buddy_alloc alloc mem pages = do
  bf_layer ← best_fit_layer pages alloc.root_block_size
  layer ← find_layer alloc.freelist bf_layer
  (ptr, lists) ← pop_at alloc.freelist mem layer
  if ptr == null
      then some (null, record alloc { freelist = lists }, mem)
      else split_block (record alloc { freelist = lists }) mem ptr layer (bf_layer - layer)

-- `while (layer > 0 && buddy_get(bitmap, layer, index)) { layer -= 1; index /= 2; }`; the index is an `int`.
unfoldable pub climb : Bitmap → ℕ → ℕ → Option (ℕ × ℕ)
climb bitmap zero index = some (0, index)
climb bitmap (suc layer) index = buddy_get bitmap (suc layer) (int_to_size index) >>= λ bit.
    elim bit [ true ↦ climb bitmap layer (half_int index) | false ↦ some (suc layer, index) ]

-- One round of the second loop of `buddy_free`.
unfoldable pub merge_step : Bitmap → ℕ → ℕ → Option Bitmap
merge_step bitmap layer index = do
  own ← buddy_set bitmap (suc layer) (int_to_size index)
  both ← buddy_set own (suc layer) (int_to_size (bit_xor index 1))
  buddy_unset both layer (int_to_size (half_int index))

-- `while (layer > 0 && !buddy_get(bitmap, layer, index ^ 1)) { ... }`
unfoldable pub merge_loop : Bitmap → ℕ → ℕ → Option (Bitmap × ℕ × ℕ)
merge_loop bitmap zero index = some (bitmap, 0, index)
merge_loop bitmap (suc layer) index =
    buddy_get bitmap (suc layer) (int_to_size (bit_xor index 1)) >>= λ bit. elim bit [
      | true ↦ some (bitmap, suc layer, index)
      | false ↦
          merge_step bitmap layer index >>= λ bitmap'. merge_loop bitmap' layer (half_int index)
    ]

-- A layer that is negative as an `int`, as it is where there are no layers, shifts by 2^31 or more at once.
unfoldable pub buddy_free : BuddyAlloc → Memory → ℕ → Option (BuddyAlloc × Memory)
buddy_free alloc mem ptr =
    let last = to_int (sub_size alloc.buddy_layers 1) in
    if leb (2 ^ 31) last then none else do
      leaf ← to_index alloc.begin last ptr alloc.root_block_size
      (layer, index) ← climb alloc.bitmap last (to_int leaf)
      taken ← buddy_unset alloc.bitmap layer (int_to_size index)
      (bitmap, top, block) ← merge_loop taken layer index
      (lists, mem') ←
          push_at alloc.freelist mem top
            (to_pointer alloc.begin top (int_to_size block) alloc.root_block_size)
      some (record alloc { bitmap = bitmap; freelist = lists }, mem')
