-- ===== src/PenguinMalloc/Slab/Step.antt =====
-- The parts of `slab_alloc` one by one, for a cache without a cache before it.
use doomsday_kernel_modules.Base.{
  ℕ, ◌≡◌, ◌≢◌, refl, ap, ◌∙◌, some, ◌==◌, if◌then◌else◌, ==_of_ne, ==_refl, arith,
}
use doomsday_kernel_modules.PenguinMalloc.Config.{add_size}
use doomsday_kernel_modules.PenguinMalloc.Freelist.{null, store, freelist_pop, freelist_get_next}
use doomsday_kernel_modules.PenguinMalloc.SlabCaches.{
  SlabCache, SlabAlloc, Caches, Heap, sizeof_object_header, put_cache, skip_full, count_object,
  hand_out, take_object, slab_cache_alloc,
}
use doomsday_kernel_modules.PenguinMalloc.Slab.{slab_alloc}

pub put_cache_same : (caches : Caches) (p : ℕ) (c : SlabCache) → put_cache caches p c p ≡ c
unfolding put_cache
put_cache_same caches p c = rw (==_refl p) refl

-- A slab with a cache that has room uses this cache.
pub slab_alloc_first :
    (fuel : ℕ) (alloc : SlabAlloc) (heap : Heap)
    → alloc.first_free_cache ≢ null
    → slab_alloc fuel alloc heap ≡ slab_cache_alloc fuel alloc heap alloc.first_free_cache
unfolding slab_alloc
slab_alloc_first fuel alloc heap ne = rw (==_of_ne ne) refl

pub count_object_alone :
    (alloc : SlabAlloc) (caches : Caches) (cache : ℕ)
    → (caches cache).prev_cache ≡ null
    → count_object alloc caches cache ≡ (
      alloc,
      put_cache caches cache (record (caches cache) {
        allocated_objects = add_size (caches cache).allocated_objects 1;
      }),
    )
unfolding count_object put_cache
count_object_alone alloc caches cache alone = rw (==_refl cache, alone) refl

-- The cache, once the object behind those that were handed out before is taken.
abbrev pub grown : SlabAlloc → SlabCache → SlabCache
grown alloc c = record c {
  freelist = null;
  unmanaged_begin = add_size c.unmanaged_begin alloc.objsize;
}

-- What `take_object` leaves of the caches.
abbrev pub put_twice : Caches → ℕ → SlabCache → SlabCache → Caches
put_twice caches cache c d = put_cache (put_cache caches cache c) cache d

pub take_object_new :
    (alloc : SlabAlloc) (heap : Heap) (caches : Caches) (cache : ℕ)
    → (caches cache).freelist ≡ null
    → take_object alloc heap caches cache
      ≡ some (
          hand_out heap
            (put_twice caches cache
              (record (caches cache) { freelist = null })
              (grown alloc (caches cache)))
            cache
            (caches cache).unmanaged_begin)
unfolding take_object freelist_pop put_cache
take_object_new alloc heap caches cache none_freed = rw (none_freed, ==_refl cache) refl

pub take_object_freed :
    (alloc : SlabAlloc) (heap : Heap) (caches : Caches) (cache ptr : ℕ)
    → (caches cache).freelist ≡ ptr
    → ptr ≢ null
    → take_object alloc heap caches cache
      ≡ some (
          hand_out heap
            (put_cache caches cache (record (caches cache) { freelist = heap.words ptr }))
            cache
            ptr)
unfolding take_object freelist_pop freelist_get_next
take_object_freed alloc heap caches cache ptr freed ne = rw (freed, ==_of_ne ne) refl

-- The parts together, for a cache that is not full.
pub slab_cache_alloc_room :
    (fuel : ℕ) (alloc : SlabAlloc) (heap : Heap) (cache : ℕ)
    → (heap.caches cache).allocated_objects ≢ (heap.caches cache).max_objects
    → (alloc' : SlabAlloc) (caches : Caches)
    → count_object alloc heap.caches cache ≡ (alloc', caches)
    → (first_free : ℕ) → skip_full caches fuel alloc'.first_free_cache ≡ some first_free
    → (ptr : ℕ) (heap' : Heap) → take_object alloc' heap caches cache ≡ some (ptr, heap')
    → slab_cache_alloc fuel alloc heap cache
      ≡ some (ptr, record alloc' { first_free_cache = first_free }, heap')
unfolding slab_cache_alloc
slab_cache_alloc_room fuel alloc heap cache room alloc' caches count first_free skip ptr heap'
      take =
    rw (==_of_ne room, count, skip, take) refl

-- With one cache only, the loop ends at it or behind it.
pub skip_full_alone :
    (caches : Caches) (cache : ℕ)
    → cache ≢ null
    → (caches cache).next_cache ≡ null
    → skip_full caches 2 cache
      ≡ some
          (if (caches cache).allocated_objects == (caches cache).max_objects then null else cache)
unfolding skip_full
skip_full_alone caches cache ne alone = ground arith

-- The header of the cache when it has counted one more object.
abbrev pub counted_cache : SlabCache → SlabCache
counted_cache c = record c { allocated_objects = add_size c.allocated_objects 1 }

-- The loop at the only cache, when it has counted one more object.
pub skip_full_counted :
    (alloc : SlabAlloc) (caches : Caches) (cache : ℕ)
    → cache ≢ null
    → (caches cache).next_cache ≡ null
    → alloc.first_free_cache ≡ cache
    → skip_full (put_cache caches cache (counted_cache (caches cache))) 2 alloc.first_free_cache
      ≡ some (
          if add_size (caches cache).allocated_objects 1 == (caches cache).max_objects
          then null
          else cache)
skip_full_counted alloc caches cache ne alone free =
    let c = counted_cache (caches cache) in
    let same : put_cache caches cache c cache ≡ c = put_cache_same caches cache c in
    rw free (
      skip_full_alone (put_cache caches cache c) cache ne (ap (λ d. d.next_cache) same ∙ alone)
      ∙ ap (λ d. some (if d.allocated_objects == d.max_objects then null else cache)) same)

-- The only cache, with room and without a freed object, gives the object behind those before.
pub slab_cache_alloc_new :
    (alloc : SlabAlloc) (heap : Heap) (cache : ℕ)
    → cache ≢ null
    → (heap.caches cache).prev_cache ≡ null
    → (heap.caches cache).next_cache ≡ null
    → (heap.caches cache).freelist ≡ null
    → (heap.caches cache).allocated_objects ≢ (heap.caches cache).max_objects
    → alloc.first_free_cache ≡ cache
    → let c = counted_cache (heap.caches cache) in
      slab_cache_alloc 2 alloc heap cache
      ≡ some (
        add_size c.unmanaged_begin sizeof_object_header,
        record alloc {
          first_free_cache = if c.allocated_objects == c.max_objects then null else cache;
        },
        record heap {
          caches =
              put_twice
                (put_cache heap.caches cache c)
                cache
                (record c { freelist = null })
                (grown alloc c);
          words = store heap.words c.unmanaged_begin cache;
        },
      )
unfolding hand_out
slab_cache_alloc_new alloc heap cache ne before behind unfreed room free =
    let c = counted_cache (heap.caches cache) in
    let caches = put_cache heap.caches cache c in
    let same : caches cache ≡ c = put_cache_same heap.caches cache c in
    slab_cache_alloc_room 2 alloc heap cache room alloc caches
      (count_object_alone alloc heap.caches cache before)
      (if c.allocated_objects == c.max_objects then null else cache)
      (skip_full_counted alloc heap.caches cache ne behind free)
      (add_size c.unmanaged_begin sizeof_object_header)
      (record heap {
        caches = put_twice caches cache (record c { freelist = null }) (grown alloc c);
        words = store heap.words c.unmanaged_begin cache;
      })
      (take_object_new alloc heap caches cache (ap (λ d. d.freelist) same ∙ unfreed)
        ∙ ap
            (λ d. some (
              hand_out heap (put_twice caches cache (record d { freelist = null }) (grown alloc d))
                cache d.unmanaged_begin))
            same)

-- The only cache, with room and with a free object at `mem`, gives this object.
pub slab_cache_alloc_freed :
    (alloc : SlabAlloc) (heap : Heap) (cache mem : ℕ)
    → cache ≢ null
    → (heap.caches cache).prev_cache ≡ null
    → (heap.caches cache).next_cache ≡ null
    → (heap.caches cache).freelist ≡ mem
    → mem ≢ null
    → (heap.caches cache).allocated_objects ≢ (heap.caches cache).max_objects
    → alloc.first_free_cache ≡ cache
    → let c = counted_cache (heap.caches cache) in
      slab_cache_alloc 2 alloc heap cache
      ≡ some (
        add_size mem sizeof_object_header,
        record alloc {
          first_free_cache = if c.allocated_objects == c.max_objects then null else cache;
        },
        record heap {
          caches = put_twice heap.caches cache c (record c { freelist = heap.words mem });
          words = store heap.words mem cache;
        },
      )
unfolding hand_out
slab_cache_alloc_freed alloc heap cache mem ne before behind freed object room free =
    let c = counted_cache (heap.caches cache) in
    let caches = put_cache heap.caches cache c in
    let same : caches cache ≡ c = put_cache_same heap.caches cache c in
    slab_cache_alloc_room 2 alloc heap cache room alloc caches
      (count_object_alone alloc heap.caches cache before)
      (if c.allocated_objects == c.max_objects then null else cache)
      (skip_full_counted alloc heap.caches cache ne behind free) (add_size mem sizeof_object_header)
      (record heap {
        caches = put_cache caches cache (record c { freelist = heap.words mem });
        words = store heap.words mem cache;
      })
      (take_object_freed alloc heap caches cache mem (ap (λ d. d.freelist) same ∙ freed) object
        ∙ ap
            (λ d. some (
              hand_out heap (put_cache caches cache (record d { freelist = heap.words mem })) cache
                mem))
            same)
