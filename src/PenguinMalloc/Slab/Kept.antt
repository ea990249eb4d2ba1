-- ===== src/PenguinMalloc/Slab/Kept.antt =====
-- `slab_alloc`, `slab_free` and the writes of the users keep the objects of a slab with one cache apart.
use native.Mathlib.Nat.{mul-le-mul_right}
use doomsday_kernel_modules.Base.{
  ℕ, suc, ◌+◌, ◌*◌, ◌^◌, ◌≡◌, ◌≢◌, ◌<◌, ◌≤◌, dec_lt, ◌⊎◌, inl, inr, refl, ap, ◌∙◌, Option, none,
  some, List, [], ◌∷◌, ◌==◌, if◌then◌else◌, length, All, All-map, arith, ==_refl, ==_of_ne,
}
use doomsday_kernel_modules.PenguinMalloc.Freelist.{Memory, null, store}
use doomsday_kernel_modules.PenguinMalloc.Freelist.Chain.{nil, Chain-store, Chain-Begins}
use doomsday_kernel_modules.PenguinMalloc.SlabCaches.{SlabAlloc, Heap, put_cache, slab_cache_alloc}
use doomsday_kernel_modules.PenguinMalloc.Slab.{slab_alloc}
use doomsday_kernel_modules.PenguinMalloc.Slab.Step.{
  put_cache_same, slab_alloc_first, slab_cache_alloc_new, slab_cache_alloc_freed, counted_cache,
  grown,
}
use doomsday_kernel_modules.PenguinMalloc.Slab.Objects.{
  Apart, Apart-sym, headers_new, Inside-Apart, Inside-more, IsSlab,
}

-- The first free cache after an alloc that leaves `n` objects in use.
first_free_or :
    (n room cache : ℕ)
    → n ≤ room
    → ((if n == room then null else cache) ≡ null)
      ⊎ (((if n == room then null else cache) ≡ cache) × (n < room))
first_free_or n room cache fits = elim (dec_lt n room) [
  | yes less ↦ let ne : n ≢ room = omega arith in inr (rw (==_of_ne ne) refl, less)
  | no not_less ↦ let full : n ≡ room = omega arith in inl (rw (full, ==_refl room) refl)
]

module _ (cache size first room : ℕ) (ne : cache ≢ null) (header_fits : 8 ≤ size)
    (not_null : 1 ≤ first) (bounded : first + room * size < 2 ^ 64) where
  -- An alloc that gives an object that was not in use, and writes its header only.
  abbrev pub Gives : Memory → List ℕ → Option (ℕ × SlabAlloc × Heap) → Type 0
  Gives words live none = ⊥
  Gives words live (some (ptr, alloc, heap)) =
      (p : ℕ) × (free : List ℕ) × (taken : ℕ) × (ptr ≡ p + 8)
      × (heap.words ≡ store words p cache)
      × IsSlab cache size first room alloc heap (p ∷ live) free taken

  pub room_small : room < 2 ^ 64
  room_small = let least = mul-le-mul_right {m = 1} {n = size} room (omega arith) in omega arith

  -- With no object on the free list, the next one behind those before.
  alloc_fresh :
      (alloc : SlabAlloc) (heap : Heap) (live : List ℕ) (taken : ℕ)
      → IsSlab cache size first room alloc heap live [] taken
      → alloc.first_free_cache ≡ cache
      → length live < room
      → Gives heap.words live (slab_alloc 2 alloc heap)
  alloc_fresh alloc heap live taken s is_open more =
      let unfreed = Chain-Begins s.listed in
      let total : taken ≡ length live = s.total ∙ omega arith in
      let c = counted_cache (heap.caches cache) in
      let place = first + taken * size in
      let product = mul-le-mul_right {m = suc taken} {n = room} size (omega arith) in
      let objects : c.allocated_objects ≡ suc (length live) =
        let small = room_small in rw s.counted (omega arith) in
      let room_left : (heap.caches cache).allocated_objects ≢ (heap.caches cache).max_objects =
        rw (s.counted, s.at_most) (omega arith) in
      let run =
        slab_alloc_first 2 alloc heap (rw is_open ne)
        ∙ ap (slab_cache_alloc 2 alloc heap) is_open
        ∙ slab_cache_alloc_new alloc heap cache ne s.alone_before s.alone_behind unfreed room_left
            is_open in
      let same =
        put_cache_same
          (put_cache (put_cache heap.caches cache c) cache (record c { freelist = null })) cache
          (grown alloc c) in
      let apart = Inside-Apart first place size place live (omega arith) s.live_inside in
      rw run (
        place,
        [],
        suc taken,
        rw s.at_place (omega arith),
        ap (λ a. store heap.words a cache) s.at_place,
        record {
          alone_before = ap (λ d. d.prev_cache) same ∙ s.alone_before;
          alone_behind = ap (λ d. d.next_cache) same ∙ s.alone_behind;
          is_root = ap (λ d. d.root_cache) same ∙ s.is_root;
          of_size = s.of_size;
          at_most = ap (λ d. d.max_objects) same ∙ s.at_most;
          at_place = ap (λ d. d.unmanaged_begin) same ∙ rw (s.at_place, s.of_size) (omega arith);
          counted = ap (λ d. d.allocated_objects) same ∙ objects;
          listed = rw (ap (λ d. d.freelist) same) nil;
          total = omega arith;
          within_room = omega arith;
          first_free = rw (objects, s.at_most) (first_free_or (suc (length live)) room cache more);
          live_inside = (
            (omega arith, omega arith),
            Inside-more first place (first + suc taken * size) size live (omega arith)
                s.live_inside,
          );
          free_inside = tt;
          live_apart = (apart, s.live_apart);
          free_apart = tt;
          across = (tt, All-map (λ p. All (Apart size p) []) live (λ p u. tt) s.across);
          headers =
              headers_new heap.words cache size _ place live s.at_place (omega arith) apart
                s.headers;
        },
      )

  -- The first object on the free list.
  alloc_again :
      (alloc : SlabAlloc) (heap : Heap) (live free : List ℕ) (p taken : ℕ)
      → IsSlab cache size first room alloc heap live (p ∷ free) taken
      → alloc.first_free_cache ≡ cache
      → length live < room
      → Gives heap.words live (slab_alloc 2 alloc heap)
  alloc_again alloc heap live free p taken s is_open more =
      let (list, object, once, rest) = Chain-Begins s.listed in
      let c = counted_cache (heap.caches cache) in
      let high = first + taken * size in
      let ((above, below), others) = s.free_inside in
      let product = mul-le-mul_right {m = taken} {n = room} size s.within_room in
      let objects : c.allocated_objects ≡ suc (length live) =
        let small = room_small in rw s.counted (omega arith) in
      let room_left : (heap.caches cache).allocated_objects ≢ (heap.caches cache).max_objects =
        rw (s.counted, s.at_most) (omega arith) in
      let run =
        slab_alloc_first 2 alloc heap (rw is_open ne)
        ∙ ap (slab_cache_alloc 2 alloc heap) is_open
        ∙ slab_cache_alloc_freed alloc heap cache p ne s.alone_before s.alone_behind list object
            room_left is_open in
      let same =
        put_cache_same (put_cache heap.caches cache c) cache
          (record c { freelist = heap.words p }) in
      let apart =
        All-map (λ q. All (Apart size q) (p ∷ free)) live
          (λ q (to_p, to_free). Apart-sym size q p to_p) s.across in
      rw run (
        p,
        free,
        taken,
        omega arith,
        refl,
        record {
          alone_before = ap (λ d. d.prev_cache) same ∙ s.alone_before;
          alone_behind = ap (λ d. d.next_cache) same ∙ s.alone_behind;
          is_root = ap (λ d. d.root_cache) same ∙ s.is_root;
          of_size = s.of_size;
          at_most = ap (λ d. d.max_objects) same ∙ s.at_most;
          at_place = ap (λ d. d.unmanaged_begin) same ∙ s.at_place;
          counted = ap (λ d. d.allocated_objects) same ∙ objects;
          listed = rw (ap (λ d. d.freelist) same) (Chain-store p cache once rest);
          total = let total = s.total in omega arith;
          within_room = s.within_room;
          first_free = rw (objects, s.at_most) (first_free_or (suc (length live)) room cache more);
          live_inside = ((above, below), s.live_inside);
          free_inside = others;
          live_apart = (apart, s.live_apart);
          free_apart = s.free_apart.1;
          across = (
            s.free_apart.0,
            All-map (λ q. All (Apart size q) (p ∷ free)) live (λ q (to_p, to_free). to_free)
                s.across,
          );
          headers = headers_new heap.words cache size p p live refl (omega arith) apart s.headers;
        },
      )

  alloc_either :
      (alloc : SlabAlloc) (heap : Heap) (live free : List ℕ) (taken : ℕ)
      → IsSlab cache size first room alloc heap live free taken
      → alloc.first_free_cache ≡ cache
      → length live < room
      → Gives heap.words live (slab_alloc 2 alloc heap)
  alloc_either alloc heap live [] taken s = alloc_fresh alloc heap live taken s
  alloc_either alloc heap live (p ∷ free) taken s = alloc_again alloc heap live free p taken s

  -- While there is a first free cache, an alloc gives an object that is not in use.
  pub slab_alloc-IsSlab :
      (alloc : SlabAlloc) (heap : Heap) (live free : List ℕ) (taken : ℕ)
      → IsSlab cache size first room alloc heap live free taken
      → alloc.first_free_cache ≢ null
      → Gives heap.words live (slab_alloc 2 alloc heap)
  slab_alloc-IsSlab alloc heap live free taken s is_open = elim s.first_free [
    | inl none_free ↦ absurd (is_open none_free)
    | inr (is_cache, more) ↦ alloc_either alloc heap live free taken s is_cache more
  ]
