-- ===== src/PenguinMalloc/Buddy/Tests.antt =====
-- The theorems of the buddy allocator at arenas with a root block of 16 pages.
use doomsday_kernel_modules.Base.{
  ℕ, zero, suc, ◌+◌, ◌*◌, ◌^◌, ◌≤◌, ◌<◌, ◌≡◌, ◌≢◌, ◌↔◌, ◌∙◌, refl, some, List, [], ◌∷◌, arith,
  get_elem?,
}
use doomsday_kernel_modules.PenguinMalloc.Util.{pages_count}
use doomsday_kernel_modules.PenguinMalloc.Util.Powers.{two-pow-add, le_of_pow-lt}
use native.Mathlib.Nat.{mul_comm}
use doomsday_kernel_modules.PenguinMalloc.BuddyUtil.{
  buddy_bitmap_size, mask_index, to_index, best_fit_layer,
}
use doomsday_kernel_modules.PenguinMalloc.Freelist.{null, store}
use doomsday_kernel_modules.PenguinMalloc.Buddy.{
  BuddyAlloc, Params, Halves, buddy_update_params, split_loop, buddy_alloc, buddy_free,
}
use doomsday_kernel_modules.PenguinMalloc.Buddy.Runs.{every_buddy_step, empty, started}
use doomsday_kernel_modules.PenguinMalloc.Buddy.Sizes.{
  AreParams, buddy_update_params_runs, buddy_layers_reach_iff, buddy_bitmap_size_reach_iff,
}
use doomsday_kernel_modules.PenguinMalloc.Buddy.Allots.{allocator, Allots, buddy_alloc-Allots}
use doomsday_kernel_modules.PenguinMalloc.Buddy.Sequence.{
  buddy_allocs, Separate, IsFresh, buddy_allocs-Separate, only_root, fresh-IsPool,
}
use doomsday_kernel_modules.PenguinMalloc.Buddy.Split.{AfterSplit, split_loop-AfterSplit}
use doomsday_kernel_modules.PenguinMalloc.Buddy.Release.{CanFree, Freed, buddy_free_some}
use doomsday_kernel_modules.PenguinMalloc.Buddy.Oversized.{IsMarked, buddy_free_oversized}

count : pages_count 4096 (32 * 4096) ≡ 30
unfolding pages_count
count = refl

update_params_example :
    (k : ℕ) × (p : Params) × (buddy_update_params 4096 (32 * 4096) ≡ some p)
    × (p.blocks_count ≡ pages_count 4096 (32 * 4096))
    × AreParams k p
update_params_example =
    buddy_update_params_runs 4096 (32 * 4096) (rw count (omega arith)) (rw count (omega arith))

abbrev thirty : Params
thirty = record { blocks_count = 30; root_block_size = 16; buddy_layers = 5 }

thirty-AreParams : AreParams 4 thirty
thirty-AreParams = record {
  root = refl;
  lower = omega arith;
  upper = record {
    reaches = omega arith;
    least = λ q h. le_of_pow-lt 5 q (omega (arith, two_more q));
  };
}
  where
    two_more : (q : ℕ) → 2 ^ (q + 1) ≡ 2 * 2 ^ q
    two_more q = two-pow-add q 1 ∙ mul_comm (2 ^ q) 2

layers_example :
    (k : ℕ) × (p : Params) × (buddy_update_params 4096 (32 * 4096) ≡ some p)
    × (p.root_block_size ≡ 2 ^ k)
    × ((k < p.buddy_layers) ↔ (pages_count 4096 (32 * 4096) ≢ 2 ^ k))
layers_example =
    buddy_layers_reach_iff 4096 (32 * 4096) (rw count (omega arith)) (rw count (omega arith))

bitmap_example : (mask_index 4 15 < buddy_bitmap_size 30) ↔ (2 ^ 5 ≤ 37)
bitmap_example = buddy_bitmap_size_reach_iff 4 thirty thirty-AreParams (omega arith)

abbrev arena : List ℕ → BuddyAlloc
arena lists = record {
  bitmap = 255 ∷ 255 ∷ 255 ∷ 255 ∷ [];
  freelist = lists;
  buddy_layers = 5;
  blocks_count = 30;
  root_block_size = 16;
  begin = 8192;
}

best_eight : best_fit_layer 8 16 ≡ some 1
unfolding every_buddy_step
best_eight = refl

no_lists : (j : ℕ) → j ≤ 1 → get_elem? {A = ℕ} (0 ∷ 0 ∷ []) j ≡ some null
no_lists zero le = refl
no_lists (suc zero) le = refl
no_lists (suc (suc j)) le = absurd (omega arith)

index_of_half : to_index 8192 1 (8192 + 8 * 4096) 16 ≡ some 1
unfolding to_index
index_of_half = refl

abbrev halves : Halves
halves = record { bits = 253 ∷ 255 ∷ 255 ∷ 255 ∷ []; lists = 0 ∷ 0 ∷ 0 ∷ 0 ∷ 0 ∷ []; words = empty }

split_loop_example :
    (s : Halves) × (split_loop 8192 16 3 0 0 halves ≡ some s) × AfterSplit 8192 16 4 3 0 0 halves s
split_loop_example =
    split_loop-AfterSplit 8192 16 4 3 0 0 halves (omega arith) (omega arith) (omega arith)

abbrev five : List ℕ
five = 0 ∷ 0 ∷ 0 ∷ 0 ∷ 0 ∷ []

index_of_leaf : to_index 8192 4 (8192 + 8 * 4096) 16 ≡ some 8
unfolding to_index
index_of_leaf = refl

half-CanFree : CanFree (arena five) 4 (8192 + 8 * 4096) 8
half-CanFree = record {
  layers = refl;
  int_sized = omega arith;
  map = omega arith;
  lists = omega arith;
  leaf_at = index_of_leaf;
  leaf_in = omega arith;
}

free_example : Freed (arena five) 4 8 (buddy_free (arena five) empty (8192 + 8 * 4096))
free_example = buddy_free_some (arena five) empty 4 (8192 + 8 * 4096) 8 half-CanFree

half-IsMarked : IsMarked (255 ∷ 255 ∷ 255 ∷ 255 ∷ []) 3 1 1
unfolding every_buddy_step
half-IsMarked zero le = refl
half-IsMarked (suc zero) le = refl
half-IsMarked (suc (suc zero)) le = refl
half-IsMarked (suc (suc (suc zero))) le = refl
half-IsMarked (suc (suc (suc (suc j)))) le = absurd (omega arith)

oversized_example : Freed (arena five) 0 0 (buddy_free (arena five) empty (8192 + 8 * 4096))
oversized_example =
    buddy_free_oversized (arena five) empty 3 0 1 (8192 + 8 * 4096) half-CanFree (omega arith)
      half-IsMarked

-- What `buddy_init` makes of this region: a root block of 16 pages.
abbrev fresh : Halves
unfolding every_buddy_step
fresh = record {
  bits = 253 ∷ 255 ∷ 255 ∷ 255 ∷ [];
  lists = 11 * 4096 ∷ 0 ∷ 0 ∷ 0 ∷ 0 ∷ [];
  words = store empty (11 * 4096) 0;
}

init_test : started ≡ some (allocator (11 * 4096) 4 5 30 fresh, fresh.words)
unfolding every_buddy_step
init_test = refl

fresh_others : (l : ℕ) → l < 4 → get_elem? fresh.lists (suc l) ≡ some null
unfolding fresh
fresh_others zero below = refl
fresh_others (suc zero) below = refl
fresh_others (suc (suc zero)) below = refl
fresh_others (suc (suc (suc zero))) below = refl
fresh_others (suc (suc (suc (suc l)))) below = absurd (omega arith)

fresh-IsFresh : IsFresh (11 * 4096) 4 fresh
unfolding every_buddy_step
fresh-IsFresh = record {
  sized = record {
    bytes = (omega arith, (omega arith, (omega arith, (omega arith, tt))));
    bits_in = omega arith;
    lists_in = omega arith;
  };
  root = refl;
  others = fresh_others;
  alone = refl;
}

allocs_example :
    Separate
      (11 * 4096)
      4
      (buddy_allocs (1 ∷ 3 ∷ 0 ∷ []) (allocator (11 * 4096) 4 5 30 fresh) fresh.words [])
allocs_example =
    buddy_allocs-Separate (11 * 4096) 4 5 30 (record { in_memory = omega arith }) (omega arith)
      (omega arith) (1 ∷ 3 ∷ 0 ∷ []) fresh (omega arith, (omega arith, (omega arith, tt)))
      fresh-IsFresh

alloc_example :
    Allots
      (11 * 4096)
      4
      5
      30
      fresh
      (only_root (11 * 4096))
      []
      1
      (buddy_alloc (allocator (11 * 4096) 4 5 30 fresh) fresh.words (2 ^ 1))
alloc_example =
    buddy_alloc-Allots (11 * 4096) 4 5 30 (record { in_memory = omega arith }) (omega arith)
      (omega arith) fresh (only_root (11 * 4096)) [] 1 (omega arith)
      (fresh-IsPool (11 * 4096) 4 5 30 (record { in_memory = omega arith }) (omega arith)
        (omega arith) fresh fresh-IsFresh)
