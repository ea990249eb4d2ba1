-- ===== src/PenguinMalloc/Slab/Links.antt =====
-- The links between the caches of a slab: the loop that looks for a cache with room, and what a change of
-- places leaves.
use doomsday_kernel_modules.Base.{
  ℕ, zero, suc, ◌≡◌, ◌≢◌, ◌<◌, refl, sym, ◌∙◌, none, some, List, [], ◌∷◌, ◌==◌, if◌then◌else◌,
  length, arith, ==_of_ne, ==_refl,
}
use doomsday_kernel_modules.PenguinMalloc.Freelist.{null}
use doomsday_kernel_modules.PenguinMalloc.SlabCaches.{
  SlabAlloc, Caches, put_cache, skip_full, slab_cache_move_down,
}

-- From `p` the links lead through the caches `ps` to NULL.
pub data Links (caches : Caches) : ℕ → List ℕ → Type 0 where
  nil : Links caches null []
  cons :
      {p : ℕ} {ps : List ℕ}
      → p ≢ null
      → Links caches ((caches p).next_cache) ps
      → Links caches p (p ∷ ps)

-- The first of the caches that is not full.
abbrev pub first_with_room : Caches → List ℕ → ℕ
first_with_room caches [] = null
first_with_room caches (p ∷ ps) =
    if (caches p).allocated_objects == (caches p).max_objects then first_with_room caches ps else p

module _ (caches : Caches) where
  -- Where the links lead through some caches to NULL, and the fuel is more than their number, the loop
  -- ends with the first of them that is not full, and with NULL if all are full.
  pub skip_full-first_with_room :
      (fuel : ℕ) {p : ℕ} {ps : List ℕ}
      → Links caches p ps
      → length ps < fuel
      → skip_full caches fuel p ≡ some (first_with_room caches ps)
  unfolding skip_full
  skip_full-first_with_room zero links enough = absurd (omega arith)
  skip_full-first_with_room (suc fuel) nil enough = refl
  skip_full-first_with_room (suc fuel) (cons {p} {ps} ne rest) enough =
      let ih = skip_full-first_with_room fuel rest (omega arith) in ground arith

  -- At a full cache that is its own next cache the loop never ends.
  pub skip_full_endless :
      (p fuel : ℕ)
      → p ≢ null
      → (caches p).allocated_objects ≡ (caches p).max_objects
      → (caches p).next_cache ≡ p
      → skip_full caches fuel p ≡ none
  unfolding skip_full
  skip_full_endless p zero ne full self = refl
  skip_full_endless p (suc fuel) ne full self =
      rw (==_of_ne ne, full, ==_refl ((caches p).max_objects), self)
        (skip_full_endless p fuel ne full self)

-- When a cache changes places with another one behind it, the other one gets its link to the cache before
-- and a link to it, but it becomes its own next cache; the slab keeps its first and last cache.
pub slab_cache_move_down-next_cache :
    (alloc : SlabAlloc) (caches : Caches) (cache next : ℕ)
    → (caches cache).next_cache ≡ next
    → next ≢ null
    → next ≢ cache
    → let (alloc', caches') = slab_cache_move_down alloc caches cache in
      ((caches' cache).next_cache ≡ cache)
      × ((caches' cache).prev_cache ≡ next)
      × ((caches' next).next_cache ≡ cache)
      × ((caches' next).prev_cache ≡ (caches cache).prev_cache)
      × (alloc' ≡ alloc)
unfolding slab_cache_move_down put_cache
slab_cache_move_down-next_cache alloc caches cache next is_next ne apart =
    rw
      (
        is_next,
        ==_of_ne ne,
        ==_of_ne apart,
        ==_of_ne (λ e. apart (sym e)),
        ==_refl cache,
        ==_refl next,
      )
      (rw (==_of_ne apart, ==_of_ne ne) (refl, refl, refl, refl, refl))

-- After such a change of places, whenever the cache is full with the link that it got and the loop comes
-- to it, the loop never ends.
pub slab_cache_move_down_endless :
    (alloc : SlabAlloc) (caches : Caches) (cache : ℕ)
    → cache ≢ null
    → (caches cache).next_cache ≢ null
    → (caches cache).next_cache ≢ cache
    → (later : Caches)
    → (let (alloc', caches') = slab_cache_move_down alloc caches cache in
        (later cache).next_cache ≡ (caches' cache).next_cache)
    → (later cache).allocated_objects ≡ (later cache).max_objects
    → (fuel : ℕ) → skip_full later fuel cache ≡ none
slab_cache_move_down_endless alloc caches cache own ne apart later kept full fuel =
    skip_full_endless later cache fuel own full (
      kept
      ∙ (slab_cache_move_down-next_cache alloc caches cache ((caches cache).next_cache) refl ne
          apart).0)
