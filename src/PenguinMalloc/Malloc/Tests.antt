-- ===== src/PenguinMalloc/Malloc/Tests.antt =====
-- The choice of a slab, and both ways through `penguin_malloc`, at concrete values.
use doomsday_kernel_modules.Base.{◌+◌, ◌-◌, ◌/◌, ◌^◌, ◌≡◌, refl, none, some, [], ◌∷◌, arith, true}
use doomsday_kernel_modules.PenguinMalloc.Freelist.{null}
use doomsday_kernel_modules.PenguinMalloc.SlabCaches.{SlabCache, SlabAlloc}
use doomsday_kernel_modules.PenguinMalloc.Slab.Runs.{every_slab_step}
use doomsday_kernel_modules.PenguinMalloc.Malloc.{
  Globals, slab_size_by_index, best_fit_slab_index, alloc_at, free_at, alloc_pages, free_pages,
  fit_from, penguin_malloc, penguin_free,
}
use doomsday_kernel_modules.PenguinMalloc.Malloc.Dispatch.{
  headed, penguin_free-penguin_malloc_slab, penguin_free-penguin_malloc_pages, penguin_malloc_wraps,
}

-- All that the choice of an allocator computes with.
every_step : Unit {0}
unfolding every_slab_step alloc_at alloc_pages best_fit_slab_index fit_from slab_size_by_index
every_step = tt

abbrev cache : SlabCache
cache = record {
  size = 262024;
  begin = 8240;
  unmanaged_begin = 8312;
  prev_cache = null;
  next_cache = null;
  freelist = null;
  allocated_objects = 0;
  max_objects = 6550;
  root_cache = true;
}

abbrev slab : SlabAlloc
slab = record {
  first_cache = 8240;
  first_free_cache = 8240;
  last_cache = 8240;
  objsize = 40;
  cachesize = 64;
}

-- One slab, and a free block of two pages.
abbrev globals : Globals
globals = record {
  slabs = some slab ∷ [];
  heap = record {
    caches = λ a. cache;
    words = λ a. 0;
    buddy = record {
      bitmap = 255 ∷ [];
      freelist = 409600 ∷ 0 ∷ [];
      buddy_layers = 2;
      blocks_count = 2;
      root_block_size = 2;
      begin = 409600;
    };
  };
}

-- The globals once the slab has given an object.
abbrev given : Globals
unfolding every_step
given = elim (alloc_at 2 globals 0) [ none ↦ globals | some (mem, globals') ↦ globals' ]

from_slab : alloc_at 2 globals (best_fit_slab_index (16 + 8)) ≡ some (8320, given)
unfolding every_step
from_slab = refl

slab_example :
    (penguin_malloc 2 globals 16
      ≡ some (8320 + 8, headed (best_fit_slab_index (16 + 8)) 8320 given))
    × (penguin_free (headed (best_fit_slab_index (16 + 8)) 8320 given) (8320 + 8)
        ≡ free_at
            (headed (best_fit_slab_index (16 + 8)) 8320 given)
            (best_fit_slab_index (16 + 8))
            8320)
slab_example =
    penguin_free-penguin_malloc_slab 2 globals 16 8320 given (omega arith) from_slab (omega arith)
      (omega arith)

-- The globals once the pages are given.
abbrev paged : Globals
unfolding every_step
paged = elim (alloc_pages globals 2) [ none ↦ globals | some (mem, globals') ↦ globals' ]

from_pages : alloc_pages globals ((5000 + 8 + 4095) / 4096) ≡ some (409600, paged)
unfolding every_step
from_pages = refl

pages_example :
    (penguin_malloc 2 globals 5000 ≡ some (409600 + 8, headed 8 409600 paged))
    × (penguin_free (headed 8 409600 paged) (409600 + 8)
        ≡ free_pages (headed 8 409600 paged) 409600)
pages_example =
    penguin_free-penguin_malloc_pages 2 globals 5000 409600 paged (omega arith) (omega arith)
      from_pages (omega arith) (omega arith)

least_slab : alloc_at 2 globals 0 ≡ some (8320, given)
unfolding every_step
least_slab = refl

wraps_example : penguin_malloc 2 globals (2 ^ 64 - 1) ≡ some (8320 + 8, headed 0 8320 given)
wraps_example =
    penguin_malloc_wraps 2 globals (2 ^ 64 - 1) 8320 given (omega arith) (omega arith) least_slab
      (omega arith) (omega arith)
