-- ===== src/PenguinMalloc/SlabCaches.antt =====
-- penguin_malloc/src/slab.c: the caches of slabs, regions with objects of one size. The structs of the caches
-- are records by their addresses; the words of the objects are in `Memory`, where a free object has its link
-- at the place of its header. `none` is undefined behaviour of C, or a loop that has not ended with the
-- given fuel.
use doomsday_kernel_modules.Base.{
  ◌>>=◌, ℕ, zero, suc, ◌*◌, ◌/◌, Bool, true, false, not, ◌&&◌, Option, none, some, ltb, ◌==◌,
  if◌then◌else◌,
}
use doomsday_kernel_modules.PenguinMalloc.Config.{word_size, add_size, sub_size}
use doomsday_kernel_modules.PenguinMalloc.Freelist.{
  Memory, null, store, freelist_push, freelist_pop,
}
use doomsday_kernel_modules.PenguinMalloc.Buddy.{BuddyAlloc, buddy_free}

-- `slab_cache_header_t`
pub record SlabCache : Type 0 where
  pub size : ℕ
  pub begin : ℕ
  pub unmanaged_begin : ℕ
  pub prev_cache : ℕ
  pub next_cache : ℕ
  pub freelist : ℕ
  pub allocated_objects : ℕ
  pub max_objects : ℕ
  pub root_cache : Bool

-- `slab_alloc_t`, less the pointer to the buddy allocator.
pub record SlabAlloc : Type 0 where
  pub first_cache : ℕ
  pub first_free_cache : ℕ
  pub last_cache : ℕ
  pub objsize : ℕ
  pub cachesize : ℕ

abbrev pub Caches : Type 0
Caches = ℕ → SlabCache

-- What all slabs share.
pub record Heap : Type 0 where
  pub caches : Caches
  pub words : Memory
  pub buddy : BuddyAlloc

-- `sizeof(slab_cache_header_t)`, `sizeof(slab_alloc_t)` and `sizeof(slab_allocated_object_header_t)`
abbrev pub sizeof_cache : ℕ
sizeof_cache = 9 * word_size

abbrev pub sizeof_slab_alloc : ℕ
sizeof_slab_alloc = 6 * word_size

abbrev pub sizeof_object_header : ℕ
sizeof_object_header = word_size

unfoldable pub put_cache : Caches → ℕ → SlabCache → Caches
put_cache caches p cache a = if a == p then cache else caches a

unfoldable pub divide_size : ℕ → ℕ → Option ℕ
divide_size a b = if b == 0 then none else some (a / b)

-- The four assignments read what those before them have written.
unfoldable pub slab_cache_move_down : SlabAlloc → Caches → ℕ → SlabAlloc × Caches
slab_cache_move_down alloc caches cache =
    let next = (caches cache).next_cache in
    let caches₁ = put_cache caches next (record (caches next) { next_cache = cache }) in
    let caches₂ =
      put_cache caches₁ next (record (caches₁ next) { prev_cache = (caches₁ cache).prev_cache }) in
    let caches₃ =
      put_cache caches₂ cache
        (record (caches₂ cache) { prev_cache = (caches₂ cache).next_cache }) in
    let caches₄ =
      put_cache caches₃ cache (record (caches₃ cache) {
        next_cache = (caches₃ ((caches₃ cache).next_cache)).next_cache;
      }) in
    let first =
      if (caches₄ cache).prev_cache == null
      then (caches₄ cache).next_cache
      else alloc.first_cache in
    if next == null then (alloc, caches) else (record alloc { first_cache = first }, caches₄)

unfoldable pub slab_cache_move_up : SlabAlloc → Caches → ℕ → SlabAlloc × Caches
slab_cache_move_up alloc caches cache =
    let prev = (caches cache).prev_cache in
    let caches₁ = put_cache caches prev (record (caches prev) { prev_cache = cache }) in
    let caches₂ =
      put_cache caches₁ prev (record (caches₁ prev) { next_cache = (caches₁ cache).next_cache }) in
    let caches₃ =
      put_cache caches₂ cache
        (record (caches₂ cache) { next_cache = (caches₂ cache).prev_cache }) in
    let caches₄ =
      put_cache caches₃ cache (record (caches₃ cache) {
        prev_cache = (caches₃ ((caches₃ cache).prev_cache)).prev_cache;
      }) in
    let last =
      if (caches₄ cache).next_cache == null then (caches₄ cache).prev_cache else alloc.last_cache in
    if prev == null then (alloc, caches) else (record alloc { last_cache = last }, caches₄)

-- The header of a new cache, less its links.
unfoldable pub new_cache : ℕ → ℕ → ℕ → Option SlabCache
new_cache objsize begin end = do
  let size = sub_size (sub_size end begin) sizeof_cache
  max_objects ← divide_size size objsize
  some record {
    size = size;
    begin = begin;
    unmanaged_begin = add_size begin sizeof_cache;
    prev_cache = null;
    next_cache = null;
    freelist = null;
    allocated_objects = 0;
    max_objects = max_objects;
    root_cache = false;
  }

unfoldable pub slab_cache_init : SlabAlloc → Caches → ℕ → ℕ → Option (SlabAlloc × Caches)
slab_cache_init alloc caches begin end = new_cache alloc.objsize begin end >>= λ cache.
    let free = if alloc.first_free_cache == null then begin else alloc.first_free_cache in
    let last = alloc.last_cache in
    let alone = put_cache caches begin (record cache { root_cache = true }) in
    let behind = put_cache caches begin cache in
    let linked = put_cache behind last (record (behind last) { next_cache = begin }) in
    let appended = put_cache linked begin (record (linked begin) { prev_cache = last }) in
    let first = if alloc.first_cache == null then begin else alloc.first_cache in
    some (
      record alloc { first_cache = first; first_free_cache = free; last_cache = begin },
      if alloc.first_cache == null then alone else appended,
    )

-- `while (first_free_cache != NULL && first_free_cache is full) first_free_cache = its next_cache;`
unfoldable pub skip_full : Caches → ℕ → ℕ → Option ℕ
skip_full caches zero cache = none
skip_full caches (suc fuel) cache =
    let rest = skip_full caches fuel (caches cache).next_cache in
    let full = (caches cache).allocated_objects == (caches cache).max_objects in
    if not (cache == null) && full then rest else some cache

-- The object at `ptr`: its header gets the cache.
unfoldable pub hand_out : Heap → Caches → ℕ → ℕ → ℕ × Heap
hand_out heap caches cache ptr = (
  add_size ptr sizeof_object_header,
  record heap { caches = caches; words = store heap.words ptr cache },
)

-- A free object, or else the next one behind those that were handed out before.
unfoldable pub take_object : SlabAlloc → Heap → Caches → ℕ → Option (ℕ × Heap)
take_object alloc heap caches cache =
    let (popped, list) = freelist_pop heap.words (some (caches cache).freelist) in
    list >>= λ freelist.
    let caches' = put_cache caches cache (record (caches cache) { freelist = freelist }) in
    let fresh = (caches' cache).unmanaged_begin in
    let grown =
      put_cache caches' cache
        (record (caches' cache) { unmanaged_begin = add_size fresh alloc.objsize }) in
    some (
      if popped == null
      then hand_out heap grown cache fresh
      else hand_out heap caches' cache popped)

-- One more object; a cache before it with fewer objects changes places with it.
unfoldable pub count_object : SlabAlloc → Caches → ℕ → SlabAlloc × Caches
count_object alloc caches cache =
    let objects = add_size (caches cache).allocated_objects 1 in
    let counted = put_cache caches cache (record (caches cache) { allocated_objects = objects }) in
    let prev = (counted cache).prev_cache in
    if not (prev == null) && ltb (counted prev).allocated_objects objects
    then slab_cache_move_up alloc counted cache
    else (alloc, counted)

-- The address of the object, NULL if the cache is full.
unfoldable pub slab_cache_alloc : ℕ → SlabAlloc → Heap → ℕ → Option (ℕ × SlabAlloc × Heap)
slab_cache_alloc fuel alloc heap cache =
    let (alloc', caches) = count_object alloc heap.caches cache in
    let taken : Option (ℕ × SlabAlloc × Heap) = (do
      first_free ← skip_full caches fuel alloc'.first_free_cache
      (ptr, heap') ← take_object alloc' heap caches cache
      some (ptr, record alloc' { first_free_cache = first_free }, heap')) in
    if (heap.caches cache).allocated_objects == (heap.caches cache).max_objects
    then some (null, alloc, heap)
    else taken

unfoldable pub slab_cache_free : SlabAlloc → Heap → ℕ → ℕ → Option (SlabAlloc × Heap)
slab_cache_free alloc heap cache ptr =
    let (pushed, words) = freelist_push heap.words (some (heap.caches cache).freelist) ptr in
    pushed >>= λ freelist.
    let objects = sub_size (heap.caches cache).allocated_objects 1 in
    let caches =
      put_cache heap.caches cache
        (record (heap.caches cache) { freelist = freelist; allocated_objects = objects }) in
    let next = (caches cache).next_cache in
    let (alloc', caches') =
      if not (next == null) && ltb objects (caches next).allocated_objects
      then slab_cache_move_down alloc caches cache
      else (alloc, caches) in
    some (alloc', record heap { caches = caches'; words = words })

-- The struct of a slab lies before its root cache.
unfoldable pub slab_cache_destroy : SlabAlloc → Heap → ℕ → Option (SlabAlloc × Heap)
slab_cache_destroy alloc heap cache =
    let c = heap.caches cache in
    let first = if c.prev_cache == null then c.next_cache else alloc.first_cache in
    let last = if c.next_cache == null then c.prev_cache else alloc.last_cache in
    let before =
      put_cache heap.caches c.prev_cache
        (record (heap.caches c.prev_cache) { next_cache = c.next_cache }) in
    let behind = (before cache).next_cache in
    let both =
      put_cache before behind (record (before behind) { prev_cache = (before cache).prev_cache }) in
    let caches =
      if not (c.prev_cache == null) && not (c.next_cache == null) then both else heap.caches in
    let mem = if (caches cache).root_cache then sub_size cache sizeof_slab_alloc else cache in
    buddy_free heap.buddy heap.words mem >>= λ (buddy, words). some (
      record alloc { first_cache = first; last_cache = last },
      record { caches = caches; words = words; buddy = buddy },
    )
