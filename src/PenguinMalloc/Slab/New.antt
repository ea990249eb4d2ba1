-- ===== src/PenguinMalloc/Slab/New.antt =====
-- A new slab, and the objects that it gives first.
use native.Mathlib.Nat.{le-div_iff_mul-le, div-le_self}
use doomsday_kernel_modules.Base.{
  ◌>>=◌, ℕ, ◌+◌, ◌-◌, ◌*◌, ◌/◌, ◌%◌, ◌^◌, ◌≡◌, ◌≢◌, ◌<◌, ◌≤◌, refl, ap, some, true, arith, ==_of_ne,
}
use doomsday_kernel_modules.PenguinMalloc.Freelist.{Memory, null}
use doomsday_kernel_modules.PenguinMalloc.Buddy.{BuddyAlloc, buddy_alloc}
use doomsday_kernel_modules.PenguinMalloc.SlabCaches.{
  SlabCache, SlabAlloc, Caches, Heap, put_cache, divide_size, new_cache, slab_cache_init,
}
use doomsday_kernel_modules.PenguinMalloc.Slab.{slab_cache_pages, slab_init}
use doomsday_kernel_modules.PenguinMalloc.Slab.Step.{put_cache_same}
use doomsday_kernel_modules.PenguinMalloc.Slab.Fresh.{
  IsFilling, places, slab_allocs, slab_allocs-IsFilling, AllWithin, places-AllWithin,
}

-- The cache of a new slab in a region of 64 pages at `mem`.
abbrev pub root : ℕ → ℕ → SlabCache
root objsize mem = record {
  size = 262024;
  begin = mem + 48;
  unmanaged_begin = mem + 120;
  prev_cache = null;
  next_cache = null;
  freelist = null;
  allocated_objects = 0;
  max_objects = 262024 / objsize;
  root_cache = true;
}

abbrev pub new_slab : ℕ → ℕ → SlabAlloc
new_slab objsize mem = record {
  first_cache = mem + 48;
  first_free_cache = mem + 48;
  last_cache = mem + 48;
  objsize = objsize;
  cachesize = 64;
}

slab_cache_pages_64 : (objsize : ℕ) → 1 ≤ objsize → objsize < 2 ^ 61 → slab_cache_pages objsize ≡ 64
unfolding slab_cache_pages
slab_cache_pages_64 objsize low high = ground arith

slab_cache_init_root :
    (objsize mem : ℕ) (caches : Caches)
    → 1 ≤ objsize
    → mem + 262144 < 2 ^ 64
    → slab_cache_init
        (record {
          first_cache = null;
          first_free_cache = null;
          last_cache = null;
          objsize = objsize;
          cachesize = 64;
        })
        caches
        (mem + 48)
        (mem + 262144)
      ≡ some (new_slab objsize mem, put_cache caches (mem + 48) (root objsize mem))
unfolding slab_cache_init new_cache divide_size
slab_cache_init_root objsize mem caches low fits =
    let size : (((mem + 262144) + 2 ^ 64 - (mem + 48)) % 2 ^ 64 + 2 ^ 64 - 72) % 2 ^ 64 ≡ 262024 =
      omega arith in
    let place : (mem + 48 + 72) % 2 ^ 64 ≡ mem + 120 = omega arith in
    let ne : objsize ≢ 0 = omega arith in rw (size, place, ==_of_ne ne) refl

-- A slab that gets a region.
pub slab_init_new :
    (heap : Heap) (size mem : ℕ) (buddy : BuddyAlloc) (words : Memory)
    → size + 8 < 2 ^ 61
    → buddy_alloc heap.buddy heap.words 64 ≡ some (mem, buddy, words)
    → mem ≢ null
    → mem + 262144 < 2 ^ 64
    → slab_init heap size
      ≡ some (
        some (new_slab (size + 8) mem),
        record {
          caches = put_cache heap.caches (mem + 48) (root (size + 8) mem);
          words = words;
          buddy = buddy;
        },
      )
unfolding slab_init
slab_init_new heap size mem buddy words small got ne fits =
    let objsize : (size + 8) % 2 ^ 64 ≡ size + 8 = omega arith in
    let begin : (mem + 48) % 2 ^ 64 ≡ mem + 48 = omega arith in
    let end : (mem + 262144) % 2 ^ 64 ≡ mem + 262144 = omega arith in
    rw
      (
        objsize,
        slab_cache_pages_64 (size + 8) (omega arith) (omega arith),
        got,
        ==_of_ne ne,
        begin,
        end,
        slab_cache_init_root (size + 8) mem heap.caches (omega arith) fits,
      )
      refl

-- Where a slab of objects of fewer than 2^61 - 8 bytes gets a region of 64 pages that is not NULL and ends
-- before 2^64, its first objects, one or more and as many as the region has room for behind the two
-- structs, are all given, one behind the other with a header of a word before each; all of them lie
-- inside the region and behind the structs.
pub slab_allocs-slab_init :
    (heap : Heap) (size mem k : ℕ) (buddy : BuddyAlloc) (words : Memory)
    → size + 8 < 2 ^ 61
    → buddy_alloc heap.buddy heap.words 64 ≡ some (mem, buddy, words)
    → mem ≢ null
    → mem + 262144 < 2 ^ 64
    → 1 ≤ k
    → 120 + k * (size + 8) ≤ 262144
    → ((slab_init heap size >>= λ (slab, heap'). slab >>= λ alloc. slab_allocs k alloc heap')
        ≡ some (places k (mem + 120) (size + 8)))
      × AllWithin (mem + 128) (mem + 262144) size (places k (mem + 120) (size + 8))
slab_allocs-slab_init heap size mem k buddy words small got ne fits some_objects enough =
    let room : k ≤ 262024 / (size + 8) =
      (le-div_iff_mul-le {k = size + 8} {x = k} {y = 262024} (omega arith)).1 (omega arith) in
    let most : 262024 / (size + 8) ≤ 262024 = div-le_self 262024 (size + 8) in
    let caches = put_cache heap.caches (mem + 48) (root (size + 8) mem) in
    let heap' : Heap = record { caches = caches; words = words; buddy = buddy } in
    let same : caches (mem + 48) ≡ root (size + 8) mem =
      put_cache_same heap.caches (mem + 48) (root (size + 8) mem) in
    let nonempty : 0 ≢ 262024 / (size + 8) = omega arith in
    let filling : IsFilling (new_slab (size + 8) mem) heap' (mem + 48) (size + 8) (mem + 120)
        (262024 / (size + 8)) 0 =
      record {
        alone_before = ap (λ c. c.prev_cache) same;
        alone_behind = ap (λ c. c.next_cache) same;
        none_freed = ap (λ c. c.freelist) same;
        counted = ap (λ c. c.allocated_objects) same;
        at_most = ap (λ c. c.max_objects) same;
        at_place = ap (λ c. c.unmanaged_begin) same;
        of_size = refl;
        first_free = rw (==_of_ne nonempty) refl;
      } in
    (
      rw (slab_init_new heap size mem buddy words small got ne fits) (
          slab_allocs-IsFilling (mem + 48) (size + 8) (262024 / (size + 8)) (omega arith) k
            (mem + 120) 0 (new_slab (size + 8) mem) heap' filling (omega arith) (omega arith)
            (omega arith) (omega arith)),
      places-AllWithin k (mem + 120) size (mem + 128) (mem + 262144) (omega arith) (omega arith),
    )
