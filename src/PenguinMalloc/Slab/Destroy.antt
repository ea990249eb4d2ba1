-- ===== src/PenguinMalloc/Slab/Destroy.antt =====
-- Giving the caches of a slab back.
use doomsday_kernel_modules.Base.{
  ◌>>=◌, ℕ, zero, suc, ◌≡◌, ◌≢◌, refl, ◌∙◌, Option, none, some, ==_of_ne,
}
use doomsday_kernel_modules.PenguinMalloc.Freelist.{Memory, null}
use doomsday_kernel_modules.PenguinMalloc.Buddy.{BuddyAlloc}
use doomsday_kernel_modules.PenguinMalloc.SlabCaches.{SlabAlloc, Caches, Heap, slab_cache_destroy}
use doomsday_kernel_modules.PenguinMalloc.Slab.{slab_destroy}

-- A result that a loop goes on with: the caches as they were, and this first cache.
abbrev Keeps : Caches → ℕ → Option (SlabAlloc × Heap) → Type 0
Keeps caches first none = Unit
Keeps caches first (some (alloc, heap)) = (heap.caches ≡ caches) × (alloc.first_cache ≡ first)

-- What is given back at the end of `slab_cache_destroy`.
freed-Keeps :
    (caches : Caches) (alloc : SlabAlloc) (freed : Option (BuddyAlloc × Memory))
    → Keeps caches alloc.first_cache (
        freed >>= λ (buddy, words).
        some (alloc, record { caches = caches; words = words; buddy = buddy }))
freed-Keeps caches alloc none = tt
freed-Keeps caches alloc (some (buddy, words)) = (refl, refl)

-- The last cache of a slab leaves the first cache of the slab and the links as they are.
destroy_last-Keeps :
    (alloc : SlabAlloc) (heap : Heap) (cache : ℕ)
    → (heap.caches cache).prev_cache ≢ null
    → (heap.caches cache).next_cache ≡ null
    → Keeps heap.caches alloc.first_cache (slab_cache_destroy alloc heap cache)
unfolding slab_cache_destroy
destroy_last-Keeps alloc heap cache before last =
    rw (slab_cache_destroy, ==_of_ne before, last) (freed-Keeps heap.caches _ _)

-- The first cache of a slab leaves the links as they are, and the cache behind it becomes the first.
destroy_first-Keeps :
    (alloc : SlabAlloc) (heap : Heap) (cache : ℕ)
    → (heap.caches cache).prev_cache ≡ null
    → Keeps heap.caches (heap.caches cache).next_cache (slab_cache_destroy alloc heap cache)
unfolding slab_cache_destroy
destroy_first-Keeps alloc heap cache first =
    rw (slab_cache_destroy, first) (freed-Keeps heap.caches _ _)

-- The loop goes on, and does not end, where it does not end from any state that a round leaves.
destroy_round :
    (fuel : ℕ) (caches : Caches) (first : ℕ) (round : Option (SlabAlloc × Heap))
    → Keeps caches first round
    → ((alloc : SlabAlloc) (heap : Heap)
        → heap.caches ≡ caches
        → alloc.first_cache ≡ first
        → slab_destroy fuel alloc heap ≡ none)
    → (◌≡◌ {A = Option Heap} (round >>= λ (alloc, heap). slab_destroy fuel alloc heap) none)
destroy_round fuel caches first none keeps endless = refl
destroy_round fuel caches first (some (alloc, heap)) (same, kept) endless =
    endless alloc heap same kept

-- A last cache with a link to one before it is destroyed over and over.
slab_destroy_last :
    (cache : ℕ) (caches : Caches)
    → cache ≢ null
    → (caches cache).prev_cache ≢ null
    → (caches cache).next_cache ≡ null
    → (fuel : ℕ) (alloc : SlabAlloc) (heap : Heap) → heap.caches ≡ caches
    → alloc.first_cache ≡ cache
    → slab_destroy fuel alloc heap ≡ none
unfolding slab_destroy
slab_destroy_last cache caches ne before last zero alloc heap same first = refl
slab_destroy_last cache caches ne before last (suc fuel) alloc heap same first =
    let own : alloc.first_cache ≢ null = rw first ne in
    let link : (heap.caches alloc.first_cache).prev_cache ≢ null = rw (same, first) before in
    let end : (heap.caches alloc.first_cache).next_cache ≡ null = rw (same, first) last in
    let keeps = destroy_last-Keeps alloc heap alloc.first_cache link end in
    rw (slab_destroy, ==_of_ne own)
      (destroy_round fuel heap.caches alloc.first_cache
        (slab_cache_destroy alloc heap alloc.first_cache) keeps
        (λ alloc' heap' same' first'.
          slab_destroy_last cache caches ne before last fuel alloc' heap' (same' ∙ same)
            (first' ∙ first)))

-- For a slab with two caches, linked in both directions: slab_destroy never ends, whatever the buddy
-- allocator does with the regions that it gets back.
pub slab_destroy_endless :
    (alloc : SlabAlloc) (heap : Heap) (first second : ℕ)
    → alloc.first_cache ≡ first
    → first ≢ null
    → second ≢ null
    → (heap.caches first).prev_cache ≡ null
    → (heap.caches first).next_cache ≡ second
    → (heap.caches second).prev_cache ≡ first
    → (heap.caches second).next_cache ≡ null
    → (fuel : ℕ) → slab_destroy fuel alloc heap ≡ none
unfolding slab_destroy
slab_destroy_endless alloc heap first second is_first ne ne' start link back end zero = refl
slab_destroy_endless alloc heap first second is_first ne ne' start link back end (suc fuel) =
    let own : alloc.first_cache ≢ null = rw is_first ne in
    let before : (heap.caches second).prev_cache ≢ null = rw back ne in
    let begins : (heap.caches alloc.first_cache).prev_cache ≡ null = rw is_first start in
    let next : (heap.caches alloc.first_cache).next_cache ≡ second = rw is_first link in
    let keeps = destroy_first-Keeps alloc heap alloc.first_cache begins in
    rw (slab_destroy, ==_of_ne own)
      (destroy_round fuel heap.caches (heap.caches alloc.first_cache).next_cache
        (slab_cache_destroy alloc heap alloc.first_cache) keeps
        (λ alloc' heap' same' first'.
          slab_destroy_last second heap.caches ne' before end fuel alloc' heap' same'
            (first' ∙ next)))
