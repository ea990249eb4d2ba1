-- ===== src/PenguinMalloc/Slab/Fresh.antt =====
-- Objects from the root cache of a new slab: they lie one behind the other, inside the region.
use doomsday_kernel_modules.Base.{
  ◌>>=◌, ℕ, zero, suc, ◌+◌, ◌*◌, ◌^◌, ◌≡◌, ◌≢◌, ◌<◌, ◌≤◌, refl, ap, ◌∙◌, Option, none, some, List,
  [], ◌∷◌, ◌==◌, if◌then◌else◌, arith, ==_of_ne,
}
use doomsday_kernel_modules.PenguinMalloc.Freelist.{null}
use doomsday_kernel_modules.PenguinMalloc.SlabCaches.{
  SlabAlloc, Heap, sizeof_object_header, put_cache, slab_cache_alloc,
}
use doomsday_kernel_modules.PenguinMalloc.Slab.{slab_alloc}
use doomsday_kernel_modules.PenguinMalloc.Slab.Step.{
  put_cache_same, slab_alloc_first, slab_cache_alloc_new, counted_cache, grown,
}

-- The only cache of a slab, none of whose objects has been freed: `taken` of at most `room` objects are
-- handed out, and the next one is at `place`.
pub record IsFilling (alloc : SlabAlloc) (heap : Heap) (cache size place room taken : ℕ)
    : Type 0 where
  pub alone_before : (heap.caches cache).prev_cache ≡ null
  pub alone_behind : (heap.caches cache).next_cache ≡ null
  pub none_freed : (heap.caches cache).freelist ≡ null
  pub counted : (heap.caches cache).allocated_objects ≡ taken
  pub at_most : (heap.caches cache).max_objects ≡ room
  pub at_place : (heap.caches cache).unmanaged_begin ≡ place
  pub of_size : alloc.objsize ≡ size
  pub first_free : alloc.first_free_cache ≡ (if taken == room then null else cache)

-- Objects one behind the other; each has a header in front.
abbrev pub places : ℕ → ℕ → ℕ → List ℕ
places zero place size = []
places (suc k) place size = (place + sizeof_object_header) ∷ places k (place + size) size

abbrev pub slab_allocs : ℕ → SlabAlloc → Heap → Option (List ℕ)
slab_allocs zero alloc heap = some []
slab_allocs (suc k) alloc heap = slab_alloc 2 alloc heap >>= λ (ptr, alloc', heap').
    slab_allocs k alloc' heap' >>= λ ptrs. some (ptr ∷ ptrs)

-- What the next object of a filling cache is, and that the cache goes on filling.
abbrev Next : (cache size place room taken : ℕ) → Option (ℕ × SlabAlloc × Heap) → Type 0
Next cache size place room taken none = ⊥
Next cache size place room taken (some (ptr, alloc, heap)) =
    (ptr ≡ place + sizeof_object_header)
    × IsFilling alloc heap cache size (place + size) room (suc taken)

module _ (cache size room : ℕ) (ne : cache ≢ null) where
  -- One object more.
  slab_alloc-Next :
      (place taken : ℕ) (alloc : SlabAlloc) (heap : Heap)
      → IsFilling alloc heap cache size place room taken
      → taken < room
      → room < 2 ^ 64
      → place + size < 2 ^ 64
      → 8 ≤ size
      → Next cache size place room taken (slab_alloc 2 alloc heap)
  slab_alloc-Next place taken alloc heap f more small fits size_ok =
      let neq : taken ≢ room = omega arith in
      let free : alloc.first_free_cache ≡ cache = rw (f.first_free, ==_of_ne neq) refl in
      let run =
        slab_alloc_first 2 alloc heap (rw free ne)
        ∙ ap (slab_cache_alloc 2 alloc heap) free
        ∙ slab_cache_alloc_new alloc heap cache ne f.alone_before f.alone_behind f.none_freed
            (rw (f.counted, f.at_most) neq) free in
      let c = counted_cache (heap.caches cache) in
      let same =
        put_cache_same
          (put_cache (put_cache heap.caches cache c) cache (record c { freelist = null })) cache
          (grown alloc c) in
      let one : c.allocated_objects ≡ suc taken = rw f.counted (omega arith) in
      rw run (
        rw f.at_place (omega arith),
        record {
          alone_before = ap (λ d. d.prev_cache) same ∙ f.alone_before;
          alone_behind = ap (λ d. d.next_cache) same ∙ f.alone_behind;
          none_freed = ap (λ d. d.freelist) same;
          counted = ap (λ d. d.allocated_objects) same ∙ one;
          at_most = ap (λ d. d.max_objects) same ∙ f.at_most;
          at_place = ap (λ d. d.unmanaged_begin) same ∙ rw (f.at_place, f.of_size) (omega arith);
          of_size = f.of_size;
          first_free = rw (f.at_most, one) refl;
        },
      )

  -- The next `k` objects, as far as the cache has room.
  pub slab_allocs-IsFilling :
      (k place taken : ℕ) (alloc : SlabAlloc) (heap : Heap)
      → IsFilling alloc heap cache size place room taken
      → taken + k ≤ room
      → room < 2 ^ 64
      → place + k * size < 2 ^ 64
      → 8 ≤ size
      → slab_allocs k alloc heap ≡ some (places k place size)
  slab_allocs-IsFilling zero place taken alloc heap f more small fits size_ok = refl
  slab_allocs-IsFilling (suc k) place taken alloc heap f more small fits size_ok =
      let next =
        slab_alloc-Next place taken alloc heap f (omega arith) small (omega arith) size_ok in
      elim (slab_alloc 2 alloc heap)
          as (λ r.
            Next cache size place room taken r
            → (r >>= λ (ptr, alloc', heap').
                slab_allocs k alloc' heap' >>= λ ptrs. some (ptr ∷ ptrs))
              ≡ some (places (suc k) place size)) [
                | none ↦ λ impossible. absurd impossible
                | some (ptr, alloc', heap') ↦ λ (at, filling).
                    let ih =
                      slab_allocs-IsFilling k (place + size) (suc taken) alloc' heap' filling
                        (omega arith) small (omega arith) size_ok in
                    rw (ih, at) refl
              ]
        next

-- Memory of `size` bytes at each of the addresses lies between two bounds.
abbrev pub AllWithin : ℕ → ℕ → ℕ → List ℕ → Type 0
AllWithin low high size [] = Unit
AllWithin low high size (p ∷ ps) = (low ≤ p) × (p + size ≤ high) × AllWithin low high size ps

pub places-AllWithin :
    (k place size low high : ℕ)
    → low ≤ place + 8
    → place + k * (size + 8) ≤ high
    → AllWithin low high size (places k place (size + 8))
places-AllWithin zero place size low high above below = tt
places-AllWithin (suc k) place size low high above below = (
  omega arith,
  omega arith,
  places-AllWithin k (place + (size + 8)) size low high (omega arith) (omega arith),
)
