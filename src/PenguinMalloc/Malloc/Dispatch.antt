-- ===== src/PenguinMalloc/Malloc/Dispatch.antt =====
-- Which allocator `penguin_malloc` takes memory from, and where `penguin_free` gives it back.
use doomsday_kernel_modules.Base.{
  ℕ, ◌+◌, ◌-◌, ◌%◌, ◌/◌, ◌^◌, ◌≡◌, ◌≢◌, ◌<◌, ◌≤◌, refl, ap, ◌∙◌, some, ◌==◌, if◌then◌else◌, arith,
  ==_of_ne, ==_refl,
}
use doomsday_kernel_modules.PenguinMalloc.Config.{page_size, penguin_malloc_slabs, add_size}
use doomsday_kernel_modules.PenguinMalloc.Freelist.{null, store}
use doomsday_kernel_modules.PenguinMalloc.Malloc.{
  Globals, buddy_index, sizeof_header, best_fit_slab_index, to_pages_count, alloc_at, free_at,
  alloc_pages, free_pages, with_header, penguin_malloc, penguin_free,
}
use doomsday_kernel_modules.PenguinMalloc.Malloc.Sizes.{
  best_fit_slab_index_tight, best_fit_slab_index_large, best_fit_slab_index_least,
}

-- The globals once the memory at `mem` has its header.
abbrev pub headed : ℕ → ℕ → Globals → Globals
headed index mem globals = record globals {
  heap = record globals.heap { words = store globals.heap.words mem index };
}

with_header_some :
    (index mem : ℕ) (globals : Globals)
    → mem ≢ null
    → with_header index (mem, globals) ≡ (add_size mem sizeof_header, headed index mem globals)
unfolding with_header
with_header_some index mem globals ne = rw (==_of_ne ne) refl

-- The slab serves.
penguin_malloc_from_slab :
    (fuel : ℕ) (globals : Globals) (size index mem : ℕ) (globals' : Globals)
    → best_fit_slab_index (add_size size sizeof_header) ≡ index
    → index < penguin_malloc_slabs
    → alloc_at fuel globals index ≡ some (mem, globals')
    → mem ≢ null
    → mem + 8 < 2 ^ 64
    → penguin_malloc fuel globals size ≡ some (mem + 8, headed index mem globals')
unfolding penguin_malloc
penguin_malloc_from_slab fuel globals size index mem globals' fit small got ne fits =
    let other : index ≢ buddy_index = omega arith in
    let ptr : (mem + 8) % 2 ^ 64 ≡ mem + 8 = omega arith in
    rw (fit, ==_of_ne other, got, ==_of_ne ne, with_header_some index mem globals' ne, ptr) refl

-- No slab fits.
penguin_malloc_from_pages :
    (fuel : ℕ) (globals : Globals) (size mem : ℕ) (globals' : Globals)
    → best_fit_slab_index (add_size size sizeof_header) ≡ buddy_index
    → alloc_pages globals (to_pages_count (add_size size sizeof_header)) ≡ some (mem, globals')
    → mem ≢ null
    → mem + 8 < 2 ^ 64
    → penguin_malloc fuel globals size ≡ some (mem + 8, headed buddy_index mem globals')
unfolding penguin_malloc
penguin_malloc_from_pages fuel globals size mem globals' fit got ne fits =
    let ptr : (mem + 8) % 2 ^ 64 ≡ mem + 8 = omega arith in
    rw (fit, got, with_header_some buddy_index mem globals' ne, ptr) refl

-- A free of memory with its header.
penguin_free-headed :
    (index mem : ℕ) (globals : Globals)
    → mem + 8 < 2 ^ 64
    → penguin_free (headed index mem globals) (mem + 8) ≡ (
        if index == buddy_index
        then free_pages (headed index mem globals) mem
        else free_at (headed index mem globals) index mem)
unfolding penguin_free store
penguin_free-headed index mem globals fits =
    let at : (mem + 8 + 2 ^ 64 - 8) % 2 ^ 64 ≡ mem = omega arith in
    let ne : mem + 8 ≢ null = omega arith in rw (at, ==_of_ne ne, ==_refl mem) refl

-- For a size that is below 4096 with its header, where the slab with the best fit gives memory that is
-- not NULL and does not wrap: the pointer is behind the header, and freeing it frees this memory in the
-- same slab.
pub penguin_free-penguin_malloc_slab :
    (fuel : ℕ) (globals : Globals) (size mem : ℕ) (globals' : Globals)
    → size + 8 < 4096
    → alloc_at fuel globals (best_fit_slab_index (size + 8)) ≡ some (mem, globals')
    → mem ≢ null
    → mem + 8 < 2 ^ 64
    → let index = best_fit_slab_index (size + 8) in
      (penguin_malloc fuel globals size ≡ some (mem + 8, headed index mem globals'))
      × (penguin_free (headed index mem globals') (mem + 8)
          ≡ free_at (headed index mem globals') index mem)
penguin_free-penguin_malloc_slab fuel globals size mem globals' small got ne fits =
    let index = best_fit_slab_index (size + 8) in
    let below : index < penguin_malloc_slabs = (best_fit_slab_index_tight (size + 8) small).0 in
    let other : index ≢ buddy_index = omega arith in
    let total : (size + 8) % 2 ^ 64 ≡ size + 8 = omega arith in
    (
      penguin_malloc_from_slab fuel globals size index mem globals' (ap best_fit_slab_index total)
          below got ne fits,
      penguin_free-headed index mem globals' fits ∙ rw (==_of_ne other) refl,
    )

-- For a size that is 4096 or more with its header, where the buddy allocator gives the pages that hold
-- both, not at NULL and not at an address that wraps: the pointer is behind the header, and freeing it
-- frees these pages.
pub penguin_free-penguin_malloc_pages :
    (fuel : ℕ) (globals : Globals) (size mem : ℕ) (globals' : Globals)
    → 4096 ≤ size + 8
    → size + 8 + 4096 < 2 ^ 64
    → alloc_pages globals ((size + 8 + 4095) / page_size) ≡ some (mem, globals')
    → mem ≢ null
    → mem + 8 < 2 ^ 64
    → (penguin_malloc fuel globals size ≡ some (mem + 8, headed buddy_index mem globals'))
      × (penguin_free (headed buddy_index mem globals') (mem + 8)
          ≡ free_pages (headed buddy_index mem globals') mem)
unfolding to_pages_count
penguin_free-penguin_malloc_pages fuel globals size mem globals' large small got ne fits =
    let total : (size + 8) % 2 ^ 64 ≡ size + 8 = omega arith in
    let pages : (((size + 8) % 2 ^ 64 + 4096) % 2 ^ 64 + 2 ^ 64 - 1) % 2 ^ 64 / 4096
        ≡ (size + 8 + 4095) / 4096 =
      ap (λ n. n / 4096) (omega arith) in
    (
      penguin_malloc_from_pages fuel globals size mem globals'
          (ap best_fit_slab_index total ∙ best_fit_slab_index_large (size + 8) large)
          (ap (alloc_pages globals) pages ∙ got) ne fits,
      penguin_free-headed buddy_index mem globals' fits,
    )

-- For the eight largest sizes the sum with the header wraps: where the slab of the smallest objects gives
-- memory that is not NULL and does not wrap, such a size is served with an object of this slab.
pub penguin_malloc_wraps :
    (fuel : ℕ) (globals : Globals) (size mem : ℕ) (globals' : Globals)
    → 2 ^ 64 ≤ size + 8
    → size < 2 ^ 64
    → alloc_at fuel globals 0 ≡ some (mem, globals')
    → mem ≢ null
    → mem + 8 < 2 ^ 64
    → penguin_malloc fuel globals size ≡ some (mem + 8, headed 0 mem globals')
penguin_malloc_wraps fuel globals size mem globals' large small got ne fits =
    penguin_malloc_from_slab fuel globals size 0 mem globals'
      (best_fit_slab_index_least (add_size size sizeof_header) (omega arith)) (omega arith) got ne
      fits
