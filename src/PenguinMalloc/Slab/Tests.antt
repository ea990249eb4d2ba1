-- ===== src/PenguinMalloc/Slab/Tests.antt =====
-- The theorems of slabs at concrete values.
use doomsday_kernel_modules.Base.{
  ◌>>=◌, ℕ, ◌+◌, ◌≡◌, refl, none, some, [], ◌∷◌, arith, false, ◌==◌, if◌then◌else◌,
}
use doomsday_kernel_modules.PenguinMalloc.Freelist.{null, store}
use doomsday_kernel_modules.PenguinMalloc.Buddy.{BuddyAlloc, buddy_alloc}
use doomsday_kernel_modules.PenguinMalloc.SlabCaches.{
  SlabAlloc, Caches, Heap, slab_cache_move_down, skip_full,
}
use doomsday_kernel_modules.PenguinMalloc.Slab.{slab_init, slab_alloc, slab_free, slab_destroy}
use doomsday_kernel_modules.PenguinMalloc.Buddy.Runs.{empty}
use doomsday_kernel_modules.PenguinMalloc.Slab.Runs.{every_slab_step, cache_of}
use doomsday_kernel_modules.PenguinMalloc.Slab.Links.{
  Links, nil, cons, first_with_room, skip_full-first_with_room, slab_cache_move_down_endless,
}
use doomsday_kernel_modules.PenguinMalloc.Slab.Fresh.{places, slab_allocs, AllWithin}
use doomsday_kernel_modules.PenguinMalloc.Slab.Destroy.{slab_destroy_endless}
use doomsday_kernel_modules.PenguinMalloc.Slab.New.{slab_allocs-slab_init}
use doomsday_kernel_modules.PenguinMalloc.Slab.Users.{ask, give_back, write, act_all}
use doomsday_kernel_modules.PenguinMalloc.Slab.Served.{
  Safe, NextSpares, act-slab_init, act_all-slab_init,
}
use doomsday_kernel_modules.PenguinMalloc.Slab.Reuse.{slab_alloc_full_freed}

-- A full cache at 100, and one with room at 200.
abbrev two_caches : Caches
two_caches a = if a == 100 then cache_of 200 3 else cache_of 0 1

two-Links : Links two_caches 100 (100 ∷ 200 ∷ [])
two-Links = cons (omega arith) (cons (omega arith) nil)

skip_full_example : skip_full two_caches 5 100 ≡ some (first_with_room two_caches (100 ∷ 200 ∷ []))
skip_full_example = skip_full-first_with_room two_caches 5 two-Links (omega arith)

abbrev some_slab : SlabAlloc
some_slab = record {
  first_cache = 100;
  first_free_cache = 200;
  last_cache = 200;
  objsize = 80008;
  cachesize = 64;
}

abbrev when_full : Caches
when_full a = cache_of 100 3

kept_link :
    let (alloc', caches') = slab_cache_move_down some_slab two_caches 100 in
    (when_full 100).next_cache ≡ (caches' 100).next_cache
unfolding every_slab_step
kept_link = refl

move_down_endless_example : skip_full when_full 1000 100 ≡ none
move_down_endless_example =
    slab_cache_move_down_endless some_slab two_caches 100 (omega arith) (omega arith) (omega arith)
      when_full kept_link refl 1000

-- A free block of 64 pages at `block`, NULL for none.
abbrev pages_at : ℕ → BuddyAlloc
pages_at block = record {
  bitmap = 255 ∷ [];
  freelist = block ∷ 0 ∷ [];
  buddy_layers = 2;
  blocks_count = 64;
  root_block_size = 64;
  begin = 8192;
}

region : buddy_alloc (pages_at 8192) empty 64 ≡ some (8192, pages_at 0, empty)
unfolding every_slab_step
region = refl

slab_allocs_example :
    ((slab_init (record { caches = two_caches; words = empty; buddy = pages_at 8192 }) 1000
        >>= λ (slab, heap'). slab >>= λ alloc. slab_allocs 3 alloc heap')
      ≡ some (places 3 (8192 + 120) 1008))
    × AllWithin (8192 + 128) (8192 + 262144) 1000 (places 3 (8192 + 120) 1008)
slab_allocs_example =
    slab_allocs-slab_init (record { caches = two_caches; words = empty; buddy = pages_at 8192 })
      1000 8192 3 (pages_at 0) empty (omega arith) region (omega arith) (omega arith) (omega arith)
      (omega arith)

abbrev root_slab : ℕ → SlabAlloc
root_slab first_free = record {
  first_cache = 8240;
  first_free_cache = first_free;
  last_cache = 8240;
  objsize = 80008;
  cachesize = 64;
}

abbrev root_heap : ℕ → Heap
root_heap taken = record {
  caches = λ a. cache_of 0 taken;
  words = store empty 8312 8240;
  buddy = pages_at 0;
}

header_there : (root_heap 2).words 8312 ≡ 8240
unfolding every_slab_step
header_there = refl

no_region :
    buddy_alloc (pages_at 0) (store (store empty 8312 8240) 8312 null) 64
    ≡ some (null, pages_at 0, store (store empty 8312 8240) 8312 null)
unfolding every_slab_step
no_region = refl

full_freed_example :
    (slab_free (root_slab 0) (root_heap 3) 8320 >>= λ (alloc', heap').
    slab_alloc 2 alloc' heap' >>= λ (ptr, alloc'', heap''). some ptr)
    ≡ some null
full_freed_example =
    slab_alloc_full_freed (root_slab 0) (root_heap 3) 8240 8312 (pages_at 0)
      (store (store empty 8312 8240) 8312 null) refl refl refl (omega arith) (omega arith)
      header_there no_region

-- Two caches, at 100 and 200.
abbrev linked : Caches
linked a =
    if a == 100
    then cache_of 200 1
    else record (cache_of 0 1) { prev_cache = 100; root_cache = false }

destroy_endless_example :
    slab_destroy 50 some_slab (record { caches = linked; words = empty; buddy = pages_at 0 }) ≡ none
destroy_endless_example =
    slab_destroy_endless some_slab (record { caches = linked; words = empty; buddy = pages_at 0 })
      100 200 refl (omega arith) (omega arith) refl refl refl refl 50

-- Two objects, a write into the second, a free of the first, and another object.
served_example : Safe 1000 8192 (
    slab_init (record { caches = two_caches; words = empty; buddy = pages_at 8192 }) 1000
    >>= λ (slab, heap'). slab >>= λ alloc.
        act_all
          (ask ∷ ask ∷ write 0 16 7 ∷ give_back 1 ∷ ask ∷ [])
          (record { alloc = alloc; heap = heap'; live = [] }))
served_example =
    act_all-slab_init (record { caches = two_caches; words = empty; buddy = pages_at 8192 }) 1000
      8192 (pages_at 0) empty (omega arith) region (omega arith) (omega arith)
      (ask ∷ ask ∷ write 0 16 7 ∷ give_back 1 ∷ ask ∷ [])

spared_example : NextSpares 1000 (give_back 1) (
    slab_init (record { caches = two_caches; words = empty; buddy = pages_at 8192 }) 1000
    >>= λ (slab, heap'). slab >>= λ alloc.
        act_all (ask ∷ ask ∷ write 0 16 7 ∷ []) (record { alloc = alloc; heap = heap'; live = [] }))
spared_example =
    act-slab_init (record { caches = two_caches; words = empty; buddy = pages_at 8192 }) 1000 8192
      (pages_at 0) empty (omega arith) region (omega arith) (omega arith)
      (ask ∷ ask ∷ write 0 16 7 ∷ []) (give_back 1)
