-- ===== src/PenguinMalloc/Buddy/Runs.antt =====
-- Runs of the buddy allocator over an arena with a root block of 16 pages.
use doomsday_kernel_modules.Base.{
  ◌>>=◌, ℕ, ◌*◌, ◌≡◌, refl, Option, none, some, List, [], ◌∷◌, count_up,
}
use doomsday_kernel_modules.PenguinMalloc.Config.{to_int, int_to_size, half_int}
use doomsday_kernel_modules.PenguinMalloc.Util.{pages_count, max_lower_power_of_2, log2_upper}
use doomsday_kernel_modules.PenguinMalloc.BuddyUtil.{
  byte_at, buddy_get, buddy_set, buddy_unset, to_pointer, buddy_bitmap_size, mask_index, bit_index,
  to_index, block_size, best_fit_layer,
}
use doomsday_kernel_modules.PenguinMalloc.Freelist.{
  Memory, store, freelist_get, freelist_get_next, freelist_set_next, freelist_push, freelist_pop,
}
use doomsday_kernel_modules.PenguinMalloc.Buddy.{
  push_at, pop_at, split_block, split_step, climb, merge_step, merge_loop, BuddyAlloc,
  buddy_update_params, buddy_init, find_layer, split_loop, buddy_alloc, buddy_free,
}

-- All that a run of the allocator computes with.
unfoldable pub every_buddy_step : Unit {0}
unfolding buddy_init buddy_alloc buddy_free buddy_update_params pages_count max_lower_power_of_2
    log2_upper buddy_bitmap_size push_at pop_at freelist_push freelist_pop freelist_get
    freelist_get_next freelist_set_next store buddy_set buddy_unset buddy_get mask_index bit_index
    best_fit_layer find_layer split_block split_loop split_step to_index to_pointer block_size climb
    merge_loop merge_step count_up byte_at to_int int_to_size half_int
every_buddy_step = tt

abbrev pub empty : Memory
empty a = 0

abbrev pub started : Option (BuddyAlloc × Memory)
unfolding buddy_init
started = buddy_init empty (10 * 4096) (42 * 4096) >>= λ made. made

-- Two halves are taken, the second is freed, and the root block, which holds the first half that is
-- still in use, is handed out.
abbrev pages_of_run : Option (List ℕ)
unfolding every_buddy_step
pages_of_run = do
  (alloc, mem) ← started
  (first, alloc, mem) ← buddy_alloc alloc mem 8
  (second, alloc, mem) ← buddy_alloc alloc mem 8
  (alloc, mem) ← buddy_free alloc mem second
  (third, alloc, mem) ← buddy_alloc alloc mem 16
  some (first ∷ second ∷ third ∷ [])

handed_out_twice : pages_of_run ≡ some (11 * 4096 ∷ 19 * 4096 ∷ 11 * 4096 ∷ [])
unfolding every_buddy_step
handed_out_twice = refl

-- Sixteen pages have lists for layers 0 to 3 only, and a request of one page looks at layer 4.
single_page_of_sixteen :
    (do
      (alloc, mem) ← buddy_init empty (10 * 4096) (28 * 4096) >>= λ made. made
      buddy_alloc alloc mem 1)
    ≡ none
unfolding every_buddy_step
single_page_of_sixteen = refl

too_small : buddy_init empty 4096 (17 * 4096) ≡ some none
unfolding every_buddy_step
too_small = refl
