-- ===== src/PenguinMalloc/Slab/Reuse.antt =====
-- Objects that are freed, and what the slab gives after that.
use doomsday_kernel_modules.Base.{
  ◌>>=◌, ℕ, ◌+◌, ◌-◌, ◌%◌, ◌^◌, ◌≡◌, ◌≢◌, ◌<◌, ◌≤◌, refl, ap, ◌∙◌, Option, none, some, true, false,
  Bool, ◌&&◌, arith, ==_of_ne, ==_refl,
}
use doomsday_kernel_modules.PenguinMalloc.Config.{add_size, sub_size}
use doomsday_kernel_modules.PenguinMalloc.Freelist.{
  Memory, null, store, freelist_push, freelist_set_next,
}
use doomsday_kernel_modules.PenguinMalloc.Buddy.{BuddyAlloc, buddy_alloc}
use doomsday_kernel_modules.PenguinMalloc.SlabCaches.{
  SlabCache, SlabAlloc, Heap, put_cache, slab_cache_free, slab_cache_alloc,
}
use doomsday_kernel_modules.PenguinMalloc.Slab.{grow, slab_alloc, slab_free}
use doomsday_kernel_modules.PenguinMalloc.Slab.Step.{
  put_cache_same, slab_alloc_first, slab_cache_alloc_freed, counted_cache,
}

-- The cache once the object at `mem` is free.
abbrev pub freed_cache : SlabCache → ℕ → SlabCache
freed_cache c mem = record c { freelist = mem; allocated_objects = sub_size c.allocated_objects 1 }

abbrev pub freed_heap : Heap → ℕ → ℕ → Heap
freed_heap heap cache mem = record heap {
  caches = put_cache heap.caches cache (freed_cache (heap.caches cache) mem);
  words = store heap.words mem (heap.caches cache).freelist;
}

slab_cache_free_alone :
    (alloc : SlabAlloc) (heap : Heap) (cache mem : ℕ)
    → (heap.caches cache).next_cache ≡ null
    → mem ≢ null
    → slab_cache_free alloc heap cache mem ≡ some (alloc, freed_heap heap cache mem)
unfolding slab_cache_free freelist_push freelist_set_next put_cache
slab_cache_free_alone alloc heap cache mem alone ne = rw (==_of_ne ne, ==_refl cache, alone) refl

and_false : (b : Bool) → (b && false) ≡ false
and_false true = refl
and_false false = refl

-- A free in the root cache, when no cache is behind it.
pub slab_free_root :
    (alloc : SlabAlloc) (heap : Heap) (cache mem : ℕ)
    → (heap.caches cache).next_cache ≡ null
    → (heap.caches cache).root_cache ≡ true
    → mem ≢ null
    → mem + 8 < 2 ^ 64
    → heap.words mem ≡ cache
    → slab_free alloc heap (mem + 8) ≡ some (alloc, freed_heap heap cache mem)
unfolding slab_free
slab_free_root alloc heap cache mem alone is_root ne fits header =
    let at : (mem + 8 + 2 ^ 64 - 8) % 2 ^ 64 ≡ mem = omega arith in
    let c = freed_cache (heap.caches cache) mem in
    let same : put_cache heap.caches cache c cache ≡ c = put_cache_same heap.caches cache c in
    let kept : (put_cache heap.caches cache c cache).root_cache ≡ true =
      ap (λ d. d.root_cache) same ∙ is_root in
    rw (at, header, slab_cache_free_alone alloc heap cache mem alone ne, kept, and_false _) refl

-- What an alloc gives: the freed object, with the count and the free list that were there before.
abbrev pub Reused : SlabCache → (cache ptr : ℕ) → Option (ℕ × SlabAlloc × Heap) → Type 0
Reused c cache ptr none = ⊥
Reused c cache ptr (some (got, alloc, heap)) =
    (got ≡ ptr)
    × ((heap.caches cache).allocated_objects ≡ c.allocated_objects)
    × ((heap.caches cache).freelist ≡ c.freelist)

-- An alloc from the only cache, with a free object at `mem`.
slab_alloc_freed :
    (alloc : SlabAlloc) (heap : Heap) (cache mem : ℕ)
    → cache ≢ null
    → alloc.first_free_cache ≡ cache
    → (heap.caches cache).prev_cache ≡ null
    → (heap.caches cache).next_cache ≡ null
    → (heap.caches cache).allocated_objects ≢ (heap.caches cache).max_objects
    → (heap.caches cache).freelist ≡ mem
    → mem ≢ null
    → mem + 8 < 2 ^ 64
    → Reused
        (record (counted_cache (heap.caches cache)) { freelist = heap.words mem })
        cache
        (mem + 8)
        (slab_alloc 2 alloc heap)
slab_alloc_freed alloc heap cache mem ne free before behind room freed object fits =
    let c = counted_cache (heap.caches cache) in
    let caches = put_cache heap.caches cache c in
    let run =
      slab_alloc_first 2 alloc heap (rw free ne)
      ∙ ap (slab_cache_alloc 2 alloc heap) free
      ∙ slab_cache_alloc_freed alloc heap cache mem ne before behind freed object room free in
    let last = put_cache_same caches cache (record c { freelist = heap.words mem }) in
    rw run (omega arith, ap (λ d. d.allocated_objects) last, ap (λ d. d.freelist) last)

Reused-change :
    (c d : SlabCache) (cache ptr : ℕ) (r : Option (ℕ × SlabAlloc × Heap))
    → c.allocated_objects ≡ d.allocated_objects
    → c.freelist ≡ d.freelist
    → Reused c cache ptr r
    → Reused d cache ptr r
Reused-change c d cache ptr none objects list reused = reused
Reused-change c d cache ptr (some (got, alloc, heap)) objects list (at, counted, free) =
    (at, counted ∙ objects, free ∙ list)

-- For a slab with only its root cache, which has room: an alloc right after the free of an object of the
-- cache, whose header is there and whose address does not wrap, returns this object, and restores the
-- number of objects and the free list of the cache.
pub slab_alloc-slab_free :
    (alloc : SlabAlloc) (heap : Heap) (cache mem : ℕ)
    → cache ≢ null
    → alloc.first_free_cache ≡ cache
    → (heap.caches cache).prev_cache ≡ null
    → (heap.caches cache).next_cache ≡ null
    → (heap.caches cache).root_cache ≡ true
    → 1 ≤ (heap.caches cache).allocated_objects
    → (heap.caches cache).allocated_objects ≤ (heap.caches cache).max_objects
    → (heap.caches cache).max_objects < 2 ^ 64
    → mem ≢ null
    → mem + 8 < 2 ^ 64
    → heap.words mem ≡ cache
    → Reused
        (heap.caches cache)
        cache
        (mem + 8)
        (slab_free alloc heap (mem + 8) >>= λ (alloc', heap'). slab_alloc 2 alloc' heap')
unfolding store
slab_alloc-slab_free alloc heap cache mem ne free before behind is_root one most small object fits
      header =
    let old = heap.caches cache in
    let heap' = freed_heap heap cache mem in
    let c = freed_cache old mem in
    let same : heap'.caches cache ≡ c = put_cache_same heap.caches cache c in
    let less : (old.allocated_objects + 2 ^ 64 - 1) % 2 ^ 64 ≡ old.allocated_objects - 1 =
      omega arith in
    let objects : sub_size old.allocated_objects 1 ≢ old.max_objects = rw less (omega arith) in
    let again : add_size (sub_size old.allocated_objects 1) 1 ≡ old.allocated_objects =
      omega arith in
    let link : heap'.words mem ≡ old.freelist = rw (==_refl mem) refl in
    rw (slab_free_root alloc heap cache mem behind is_root object fits header) (
      Reused-change (record (counted_cache (heap'.caches cache)) { freelist = heap'.words mem }) old
        cache (mem + 8) (slab_alloc 2 alloc heap')
        (ap (λ d. add_size d.allocated_objects 1) same ∙ again) link
        (slab_alloc_freed alloc heap' cache mem ne free (ap (λ d. d.prev_cache) same ∙ before)
          (ap (λ d. d.next_cache) same ∙ behind) (rw same objects) (ap (λ d. d.freelist) same)
          object fits))

-- For a slab with only its root cache, which was full, so that no cache is the first free one: after the
-- free of an object of the cache, whose header is there and whose address does not wrap, an alloc returns
-- NULL when the buddy allocator has no region for another cache.
pub slab_alloc_full_freed :
    (alloc : SlabAlloc) (heap : Heap) (cache mem : ℕ) (buddy : BuddyAlloc) (words : Memory)
    → alloc.first_free_cache ≡ null
    → (heap.caches cache).next_cache ≡ null
    → (heap.caches cache).root_cache ≡ true
    → mem ≢ null
    → mem + 8 < 2 ^ 64
    → heap.words mem ≡ cache
    → buddy_alloc heap.buddy (store heap.words mem (heap.caches cache).freelist) alloc.cachesize
      ≡ some (null, buddy, words)
    → (slab_free alloc heap (mem + 8) >>= λ (alloc', heap').
        slab_alloc 2 alloc' heap' >>= λ (ptr, alloc'', heap''). some ptr)
      ≡ some null
unfolding slab_alloc grow
slab_alloc_full_freed alloc heap cache mem buddy words full behind is_root object fits header
      no_region =
    rw (slab_free_root alloc heap cache mem behind is_root object fits header, full, no_region) refl
