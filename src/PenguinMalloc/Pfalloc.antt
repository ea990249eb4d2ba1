-- ===== src/PenguinMalloc/Pfalloc.antt =====
-- penguin_malloc/src/pfalloc.c: pages from one global buddy allocator, which is `none` where the variable is
-- NULL.
use doomsday_kernel_modules.Base.{◌>>=◌, ℕ, Option, none, some, ◌==◌, if◌then◌else◌}
use doomsday_kernel_modules.PenguinMalloc.Config.{add_size}
use doomsday_kernel_modules.PenguinMalloc.Freelist.{Memory, null}
use doomsday_kernel_modules.PenguinMalloc.Buddy.{BuddyAlloc, buddy_init, buddy_alloc, buddy_free}

pub record Pool : Type 0 where
  pub global_buddy : Option BuddyAlloc
  pub words : Memory

unfoldable pub pfalloc_init : Memory → ℕ → ℕ → Option Pool
pfalloc_init words pool_begin pool_size =
    buddy_init words pool_begin (add_size pool_begin pool_size) >>= λ made. some (elim made [
      | none ↦ record { global_buddy = none; words = words }
      | some (buddy, words') ↦ record { global_buddy = some buddy; words = words' }
    ])

unfoldable pub get_pfalloc_buddy : Pool → Option BuddyAlloc
get_pfalloc_buddy pool = pool.global_buddy

unfoldable pub pfalloc : Pool → ℕ → Option (ℕ × Pool)
pfalloc pool pages = elim pool.global_buddy [
  | none ↦ some (null, pool)
  | some buddy ↦ buddy_alloc buddy pool.words pages >>= λ (ptr, buddy', words').
      some (ptr, record { global_buddy = some buddy'; words = words' })
]

unfoldable pub pffree : Pool → ℕ → Option Pool
pffree pool ptr = elim pool.global_buddy [
  | none ↦ some pool
  | some buddy ↦
      let freed : Option Pool = buddy_free buddy pool.words ptr >>= λ (buddy', words').
      some record { global_buddy = some buddy'; words = words' } in
      if ptr == null then some pool else freed
]
