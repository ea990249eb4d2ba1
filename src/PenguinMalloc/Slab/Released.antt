-- ===== src/PenguinMalloc/Slab/Released.antt =====
-- A free of an object in use, and a write into one, keep the objects of a slab with one cache apart.
use native.Mathlib.Nat.{mul-le-mul_right}
use doomsday_kernel_modules.Base.{
  ℕ, ◌+◌, ◌*◌, ◌-◌, ◌%◌, ◌^◌, ◌≡◌, ◌≢◌, ◌<◌, ◌≤◌, inl, inr, ap, ◌∙◌, List, ◌∷◌, length, All,
  All-zip, arith, Pick, Pick-length, All-Pick, Pick-All, EachPair-Pick,
}
use doomsday_kernel_modules.PenguinMalloc.Freelist.{null, store}
use doomsday_kernel_modules.PenguinMalloc.Freelist.Chain.{cons, Chain-store, store_same, store-Far}
use doomsday_kernel_modules.PenguinMalloc.SlabCaches.{SlabAlloc, Heap}
use doomsday_kernel_modules.PenguinMalloc.Slab.Step.{put_cache_same}
use doomsday_kernel_modules.PenguinMalloc.Slab.Reuse.{freed_cache, freed_heap}
use doomsday_kernel_modules.PenguinMalloc.Slab.Objects.{
  Apart, Apart-sym, Inside, Apart-FarFrom, HeaderIs, headers_store, IsSlab,
}
use doomsday_kernel_modules.PenguinMalloc.Slab.Kept.{room_small}

module _ (cache size first room : ℕ) (ne : cache ≢ null) (header_fits : 8 ≤ size)
    (not_null : 1 ≤ first) (bounded : first + room * size < 2 ^ 64) where
  pub freed-IsSlab :
      (alloc : SlabAlloc) (heap : Heap) (live rest free : List ℕ) (p taken : ℕ)
      → IsSlab cache size first room alloc heap live free taken
      → Pick live p rest
      → IsSlab cache size first room alloc (freed_heap heap cache p) rest (p ∷ free) taken
  freed-IsSlab alloc heap live rest free p taken s picked =
      let n = Pick-length picked in
      let high = first + taken * size in
      let ((above, below), inside) = All-Pick (Inside first high size) picked s.live_inside in
      let (apart, pairs) = EachPair-Pick (Apart size) (Apart-sym size) picked s.live_apart in
      let (to_free, others) = All-Pick (λ q. All (Apart size q) free) picked s.across in
      let (header, headers) = All-Pick (HeaderIs heap.words cache) picked s.headers in
      let same = put_cache_same heap.caches cache (freed_cache (heap.caches cache) p) in
      let out = Apart-FarFrom size p p free (omega arith) (omega arith) (omega arith) to_free in
      let objects : (length live + 2 ^ 64 - 1) % 2 ^ 64 ≡ length rest =
        let total = s.total in
        let fits = s.within_room in
        let small = room_small cache size first room ne header_fits not_null bounded in
        omega arith in
      let product = mul-le-mul_right {m = taken} {n = room} size s.within_room in
      record {
        alone_before = ap (λ d. d.prev_cache) same ∙ s.alone_before;
        alone_behind = ap (λ d. d.next_cache) same ∙ s.alone_behind;
        is_root = ap (λ d. d.root_cache) same ∙ s.is_root;
        of_size = s.of_size;
        at_most = ap (λ d. d.max_objects) same ∙ s.at_most;
        at_place = ap (λ d. d.unmanaged_begin) same ∙ s.at_place;
        counted = ap (λ d. d.allocated_objects) same ∙ rw s.counted objects;
        listed =
            rw (ap (λ d. d.freelist) same)
              (cons (omega arith) (store_same heap.words p _) out (Chain-store p _ out s.listed));
        total = let total = s.total in omega arith;
        within_room = s.within_room;
        first_free = elim s.first_free [
          | inl none_free ↦ inl none_free
          | inr (is_cache, more) ↦ inr (is_cache, omega arith)
        ];
        live_inside = inside;
        free_inside = ((above, below), s.free_inside);
        live_apart = pairs;
        free_apart = (to_free, s.free_apart);
        across =
            All-zip (Apart size p) rest (λ q to_p to_rest. (Apart-sym size p q to_p, to_rest)) apart
              others;
        headers =
            headers_store heap.words cache size p p _ rest (omega arith) (omega arith) (omega arith)
              apart headers;
      }

  pub written-IsSlab :
      (alloc : SlabAlloc) (heap : Heap) (live rest free : List ℕ) (p a v taken : ℕ)
      → IsSlab cache size first room alloc heap live free taken
      → Pick live p rest
      → p + 8 ≤ a
      → a + 8 ≤ p + size
      → IsSlab cache size first room alloc
          (record heap { words = store heap.words a v })
          live
          free
          taken
  written-IsSlab alloc heap live rest free p a v taken s picked low high =
      let (apart, pairs) = EachPair-Pick (Apart size) (Apart-sym size) picked s.live_apart in
      let (to_free, others) = All-Pick (λ q. All (Apart size q) free) picked s.across in
      let (header, headers) = All-Pick (HeaderIs heap.words cache) picked s.headers in
      record {
        alone_before = s.alone_before;
        alone_behind = s.alone_behind;
        is_root = s.is_root;
        of_size = s.of_size;
        at_most = s.at_most;
        at_place = s.at_place;
        counted = s.counted;
        listed =
            Chain-store a v (Apart-FarFrom size p a free (omega arith) (omega arith) high to_free)
              s.listed;
        total = s.total;
        within_room = s.within_room;
        first_free = s.first_free;
        live_inside = s.live_inside;
        free_inside = s.free_inside;
        live_apart = s.live_apart;
        free_apart = s.free_apart;
        across = s.across;
        headers =
            Pick-All (HeaderIs (store heap.words a v) cache) picked
              (store-Far heap.words a v p (inr (omega arith)) ∙ header)
              (headers_store heap.words cache size p a v rest (omega arith) (omega arith) high apart
                headers);
      }
