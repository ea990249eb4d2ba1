-- ===== src/PenguinMalloc/Slab/Served.antt =====
-- A new slab under any sequence of requests, as long as it has its first cache only.
use native.Mathlib.Nat.{div-mul-le_self, mul-le-mul_right, le-div_iff_mul-le}
use doomsday_kernel_modules.Base.{
  ◌>>=◌, ℕ, ◌+◌, ◌*◌, ◌/◌, ◌^◌, ◌≡◌, ◌≢◌, ◌<◌, ◌≤◌, inr, refl, ap, ◌∙◌, Option, none, some, List,
  [], length, All, EachPair, arith,
}
use doomsday_kernel_modules.PenguinMalloc.Freelist.{Memory, null}
use doomsday_kernel_modules.PenguinMalloc.Freelist.Chain.{nil}
use doomsday_kernel_modules.PenguinMalloc.Buddy.{BuddyAlloc, buddy_alloc}
use doomsday_kernel_modules.PenguinMalloc.SlabCaches.{Heap, Caches, put_cache}
use doomsday_kernel_modules.PenguinMalloc.Slab.{slab_init}
use doomsday_kernel_modules.PenguinMalloc.Slab.Step.{put_cache_same}
use doomsday_kernel_modules.PenguinMalloc.Slab.New.{root, new_slab, slab_init_new}
use doomsday_kernel_modules.PenguinMalloc.Slab.Objects.{
  Apart, Inside, HeaderIs, IsSlab, Inside-more,
}
use doomsday_kernel_modules.PenguinMalloc.Slab.Untouched.{others, Spares, act-Spares}
use doomsday_kernel_modules.PenguinMalloc.Slab.Users.{
  Client, Request, act, act_all, Serves, act_all-Serves,
}

-- The objects in use, of `size` bytes behind their headers, lie one apart from the other in the region at
-- `mem` and behind the two structs; their headers have the cache, which counts them.
abbrev pub Safe : (size mem : ℕ) → Option Client → Type 0
Safe size mem none = ⊥
Safe size mem (some s) =
    EachPair (Apart (size + 8)) s.live
    × All (Inside (mem + 120) (mem + 262144) (size + 8)) s.live
    × All (HeaderIs s.heap.words (mem + 48)) s.live
    × ((s.heap.caches (mem + 48)).allocated_objects ≡ length s.live)

new_slab-IsSlab :
    (caches : Caches) (words : Memory) (buddy : BuddyAlloc) (objsize mem room : ℕ)
    → 1 ≤ room
    → 262024 / objsize ≡ room
    → IsSlab
        (mem + 48)
        objsize
        (mem + 120)
        room
        (new_slab objsize mem)
        (record {
          caches = put_cache caches (mem + 48) (root objsize mem);
          words = words;
          buddy = buddy;
        })
        []
        []
        0
new_slab-IsSlab caches words buddy objsize mem room some_room is_room =
    let same = put_cache_same caches (mem + 48) (root objsize mem) in
    record {
      alone_before = ap (λ c. c.prev_cache) same;
      alone_behind = ap (λ c. c.next_cache) same;
      is_root = ap (λ c. c.root_cache) same;
      of_size = refl;
      at_most = ap (λ c. c.max_objects) same ∙ is_room;
      at_place = ap (λ c. c.unmanaged_begin) same ∙ omega arith;
      counted = ap (λ c. c.allocated_objects) same;
      listed = rw (ap (λ c. c.freelist) same) nil;
      total = omega arith;
      within_room = omega arith;
      first_free = inr (refl, some_room);
      live_inside = tt;
      free_inside = tt;
      live_apart = tt;
      free_apart = tt;
      across = tt;
      headers = tt;
    }

Serves-Safe :
    (size mem room : ℕ) (ne : mem + 48 ≢ null) (header_fits : 8 ≤ size + 8)
    (not_null : 1 ≤ mem + 120) (bounded : mem + 120 + room * (size + 8) < 2 ^ 64)
    (r : Option Client)
    → room * (size + 8) ≤ 262024
    → Serves (mem + 48) (size + 8) (mem + 120) room ne header_fits not_null bounded r
    → Safe size mem r
Serves-Safe size mem room ne header_fits not_null bounded none most served = served
Serves-Safe size mem room ne header_fits not_null bounded (some s) most (free, taken, kept) =
    let product = mul-le-mul_right {m = taken} {n = room} (size + 8) kept.within_room in
    (
      kept.live_apart,
      Inside-more (mem + 120) (mem + 120 + taken * (size + 8)) (mem + 262144) (size + 8) s.live
          (omega arith) kept.live_inside,
      kept.headers,
      kept.counted,
    )

-- The next request after the users were served.
abbrev pub NextSpares : (size : ℕ) → Request → Option Client → Type 0
NextSpares size r none = ⊥
NextSpares size r (some s) = Spares (size + 8) s.heap.words (others r s) (act r s)

-- A slab of objects of fewer than 262017 bytes that gets a region of 64 pages.
module _ (heap : Heap) (size mem : ℕ) (buddy : BuddyAlloc) (words : Memory)
    (small : size + 8 ≤ 262024)
    (got : buddy_alloc heap.buddy heap.words 64 ≡ some (mem, buddy, words)) (ne : mem ≢ null)
    (fits : mem + 262144 < 2 ^ 64) where
  abbrev room : ℕ
  room = 262024 / (size + 8)

  abbrev start : Client
  start = record {
    alloc = new_slab (size + 8) mem;
    heap = record {
      caches = put_cache heap.caches (mem + 48) (root (size + 8) mem);
      words = words;
      buddy = buddy;
    };
    live = [];
  }

  most : room * (size + 8) ≤ 262024
  most = div-mul-le_self 262024 (size + 8)

  ne_cache : mem + 48 ≢ null
  ne_cache = omega arith

  header_fits : 8 ≤ size + 8
  header_fits = omega arith

  not_null : 1 ≤ mem + 120
  not_null = omega arith

  bounded : mem + 120 + room * (size + 8) < 2 ^ 64
  bounded = let at_most = most in omega arith

  start-Serves :
      (rs : List Request)
      → Serves
          (mem + 48)
          (size + 8)
          (mem + 120)
          room
          ne_cache
          header_fits
          not_null
          bounded
          (act_all rs start)
  start-Serves rs =
      let one : 1 ≤ room =
        (le-div_iff_mul-le {k = size + 8} {x = 1} {y = 262024} (omega arith)).1 (omega arith) in
      act_all-Serves (mem + 48) (size + 8) (mem + 120) room ne_cache header_fits not_null bounded rs
        start ([], 0, new_slab-IsSlab heap.caches words buddy (size + 8) mem room one refl)

  served_start :
      (rs : List Request)
      → (slab_init heap size >>= λ (slab, heap').
          slab >>= λ alloc. act_all rs (record { alloc = alloc; heap = heap'; live = [] }))
        ≡ act_all rs start
  served_start rs = rw (slab_init_new heap size mem buddy words (omega arith) got ne fits) refl

  -- Where a slab of objects of fewer than 262017 bytes gets a region of 64 pages that is not NULL and ends
  -- before 2^64: whatever its users ask for while it has its first cache only, give back, and write into the
  -- objects that they have, in any order, every call returns, and in the end the objects in use do not
  -- overlap, lie inside the region and behind the structs, have the cache in their headers, and are as many
  -- as the cache counts.
  pub act_all-slab_init :
      (rs : List Request)
      → Safe size mem (
          slab_init heap size >>= λ (slab, heap').
          slab >>= λ alloc. act_all rs (record { alloc = alloc; heap = heap'; live = [] }))
  act_all-slab_init rs = rw (served_start rs) (
      Serves-Safe size mem room ne_cache header_fits not_null bounded (act_all rs start) most
        (start-Serves rs))

  -- Where a slab of objects of fewer than 262017 bytes gets a region of 64 pages that is not NULL and ends
  -- before 2^64: after any requests of its users, while it has its first cache only, the next request returns
  -- and changes no word that lies inside an object in use that it is not about, headers included.
  pub act-slab_init :
      (rs : List Request) (r : Request)
      → NextSpares size r (
          slab_init heap size >>= λ (slab, heap').
          slab >>= λ alloc. act_all rs (record { alloc = alloc; heap = heap'; live = [] }))
  act-slab_init rs r = rw (served_start rs) (
      elim (act_all rs start)
          as (λ o.
            Serves (mem + 48) (size + 8) (mem + 120) room ne_cache header_fits not_null bounded o
            → NextSpares size r o) [
              | none ↦ λ impossible. impossible
              | some s ↦ λ kept.
                  act-Spares (mem + 48) (size + 8) (mem + 120) room ne_cache header_fits not_null
                    bounded r s kept
            ]
        (start-Serves rs))
