-- ===== src/PenguinMalloc/Slab.antt =====
-- penguin_malloc/src/slab.c: slabs, each with its caches from the buddy allocator.
pub mod Links
pub mod Step
pub mod Objects
pub mod Fresh
pub mod New
pub mod Reuse
pub mod Kept
pub mod Released
pub mod Users
pub mod Untouched
pub mod Served
pub mod Destroy
pub mod Runs
mod Tests
use doomsday_kernel_modules.Base.{
  ◌>>=◌, ℕ, zero, suc, ◌*◌, ◌/◌, true, false, not, ◌&&◌, Option, none, some, ltb, ◌==◌,
  if◌then◌else◌,
}
use doomsday_kernel_modules.PenguinMalloc.Config.{
  page_size, slab_min_cache_pages, slab_min_cache_objects, word_size, add_size, sub_size, mul_size,
}
use doomsday_kernel_modules.PenguinMalloc.Freelist.{null}
use doomsday_kernel_modules.PenguinMalloc.Buddy.{buddy_alloc}
use doomsday_kernel_modules.PenguinMalloc.SlabCaches.{
  Heap, SlabAlloc, sizeof_object_header, sizeof_slab_alloc, slab_cache_alloc, slab_cache_destroy,
  slab_cache_free, slab_cache_init,
}

-- `sizeof(objsize)` is the size of a `size_t`.
unfoldable pub slab_cache_pages : ℕ → ℕ
slab_cache_pages objsize =
    if ltb (mul_size objsize slab_min_cache_objects) slab_min_cache_pages
    then slab_min_cache_pages
    else slab_min_cache_objects * word_size

-- The inner option is the NULL of a slab that gets no region.
unfoldable pub slab_init : Heap → ℕ → Option (Option SlabAlloc × Heap)
slab_init heap size =
    let objsize = add_size size sizeof_object_header in
    let cachesize = slab_cache_pages objsize in
    buddy_alloc heap.buddy heap.words cachesize >>= λ (mem, buddy, words).
    let empty : SlabAlloc = record {
      first_cache = null;
      first_free_cache = null;
      last_cache = null;
      objsize = objsize;
      cachesize = cachesize;
    } in
    let made : Option (Option SlabAlloc × Heap) = (do
      (alloc, caches) ←
          slab_cache_init empty heap.caches (add_size mem sizeof_slab_alloc)
            (add_size mem (mul_size cachesize page_size))
      some (some alloc, record { caches = caches; words = words; buddy = buddy })) in
    if mem == null then some (none, record heap { words = words; buddy = buddy }) else made

-- A new cache for a slab without one that has room.
unfoldable pub grow : ℕ → SlabAlloc → Heap → Option (ℕ × SlabAlloc × Heap)
grow fuel alloc heap =
    buddy_alloc heap.buddy heap.words alloc.cachesize >>= λ (cache, buddy, words).
    let made : Option (ℕ × SlabAlloc × Heap) = (do
      (alloc', caches) ←
          slab_cache_init alloc heap.caches cache
            (add_size cache (mul_size alloc.cachesize page_size))
      slab_cache_alloc fuel alloc' (record { caches = caches; words = words; buddy = buddy })
          alloc'.first_free_cache) in
    if cache == null then some (null, alloc, record heap { words = words; buddy = buddy }) else made

unfoldable pub slab_alloc : ℕ → SlabAlloc → Heap → Option (ℕ × SlabAlloc × Heap)
slab_alloc fuel alloc heap =
    if alloc.first_free_cache == null
    then grow fuel alloc heap
    else slab_cache_alloc fuel alloc heap alloc.first_free_cache

-- An empty cache goes back to the buddy allocator, unless it is the root cache.
unfoldable pub slab_free : SlabAlloc → Heap → ℕ → Option (SlabAlloc × Heap)
slab_free alloc heap ptr =
    let mem = sub_size ptr sizeof_object_header in
    let cache = heap.words mem in
    slab_cache_free alloc heap cache mem >>= λ (alloc', heap').
    let released : Option (SlabAlloc × Heap) = (do
      (alloc'', heap'') ← slab_cache_destroy alloc' heap' cache
      some (
        (if cache == alloc''.first_free_cache
            then record alloc'' { first_free_cache = null }
            else alloc''),
        heap'',
      )) in
    if ((heap'.caches cache).allocated_objects == 0) && not (heap'.caches cache).root_cache
    then released
    else some (alloc', heap')

-- `while (alloc_copy.first_cache != NULL) slab_cache_destroy(&alloc_copy, alloc_copy.first_cache);`
unfoldable pub slab_destroy : ℕ → SlabAlloc → Heap → Option Heap
slab_destroy zero alloc heap = none
slab_destroy (suc fuel) alloc heap = elim (alloc.first_cache == null) [
  | true ↦ some heap
  | false ↦ slab_cache_destroy alloc heap alloc.first_cache >>= λ (alloc', heap').
      slab_destroy fuel alloc' heap'
]
