-- ===== src/PenguinMalloc/Slab/Runs.antt =====
-- Runs of a slab of objects of 80000 bytes, three to a cache, in a region of 256 pages.
use doomsday_kernel_modules.Base.{
  ◌>>=◌, ℕ, zero, suc, ◌+◌, ◌*◌, ◌≡◌, refl, Option, none, some, List, [], ◌∷◌, ◌++◌, take, true,
}
use doomsday_kernel_modules.PenguinMalloc.Freelist.{null}
use doomsday_kernel_modules.PenguinMalloc.Buddy.{buddy_init}
use doomsday_kernel_modules.PenguinMalloc.SlabCaches.{
  SlabCache, SlabAlloc, Heap, put_cache, divide_size, slab_cache_move_down, slab_cache_move_up,
  new_cache, slab_cache_init, skip_full, hand_out, take_object, count_object, slab_cache_alloc,
  slab_cache_free, slab_cache_destroy,
}
use doomsday_kernel_modules.PenguinMalloc.Slab.{
  slab_cache_pages, slab_init, grow, slab_alloc, slab_free, slab_destroy,
}
use doomsday_kernel_modules.PenguinMalloc.Buddy.Runs.{every_buddy_step, empty}

-- All that a run of a slab computes with.
unfoldable pub every_slab_step : Unit {0}
unfolding every_buddy_step put_cache divide_size slab_cache_pages slab_cache_move_down
    slab_cache_move_up new_cache slab_cache_init skip_full hand_out take_object count_object
    slab_cache_alloc slab_cache_free slab_cache_destroy slab_init grow slab_alloc slab_free
    slab_destroy
every_slab_step = tt

-- A cache with `taken` of three objects, and a cache behind it.
abbrev pub cache_of : ℕ → ℕ → SlabCache
cache_of next taken = record {
  size = 240000;
  begin = 8240;
  unmanaged_begin = 8312 + taken * 80008;
  prev_cache = null;
  next_cache = next;
  freelist = null;
  allocated_objects = taken;
  max_objects = 3;
  root_cache = true;
}

-- A slab with objects of 80000 bytes, three to a cache.
abbrev slab : Option (SlabAlloc × Heap)
unfolding every_slab_step
slab = do
  made ← buddy_init empty 0x100000 0x204000
  (buddy, words) ← made
  (slab, heap) ←
      slab_init (record { caches = λ a. cache_of 0 0; words = words; buddy = buddy }) 80000
  alloc ← slab
  some (alloc, heap)

abbrev allocs : ℕ → List ℕ → SlabAlloc × Heap → Option (List ℕ × SlabAlloc × Heap)
unfolding every_slab_step
allocs zero ptrs (alloc, heap) = some (ptrs, alloc, heap)
allocs (suc k) ptrs (alloc, heap) = do
  (ptr, alloc', heap') ← slab_alloc 20 alloc heap
  allocs k (ptrs ++ ptr ∷ []) (alloc', heap')

abbrev frees : List ℕ → SlabAlloc × Heap → Option (SlabAlloc × Heap)
unfolding every_slab_step
frees [] state = some state
frees (ptr ∷ ptrs) (alloc, heap) = do state ← slab_free alloc heap ptr; frees ptrs state

-- `before` objects, the first `freed` of them freed, and `behind` more.
abbrev run : ℕ → ℕ → ℕ → Option (List ℕ)
unfolding every_slab_step
run before freed behind = do
  made ← slab
  (ptrs, alloc, heap) ← allocs before [] made
  state' ← frees (take freed ptrs) (alloc, heap)
  (ptrs', alloc', heap') ← allocs behind [] state'
  some ptrs'

reused : run 2 1 1 ≡ some (1052800 ∷ [])
unfolding every_slab_step
reused = refl

-- The freed object of the full cache is passed over for a new cache.
passed_over : run 3 1 1 ≡ some (1314896 ∷ [])
unfolding every_slab_step
passed_over = refl

filled_again : run 5 2 2 ≡ some (1474912 ∷ 1132808 ∷ [])
unfolding every_slab_step
filled_again = refl

-- The next object fills the first cache, which is its own next cache by then.
never_ends : run 5 2 3 ≡ none
unfolding every_slab_step
never_ends = refl
