-- ===== src/PenguinMalloc/Operators.antt =====
-- penguin_malloc/src/new.cpp: the operators new and delete of C++ on top of `penguin_malloc`. The mutex makes
-- each operator one step; the globals are `none` until `pthread_once` has run `init_allocator`. What `mmap`
-- returns, and what its region holds, are arguments. `none` for a result is undefined behaviour.
use doomsday_kernel_modules.Base.{◌>>=◌, ℕ, ◌*◌, Option, none, some, ◌==◌, if◌then◌else◌}
use doomsday_kernel_modules.PenguinMalloc.Config.{add_size}
use doomsday_kernel_modules.PenguinMalloc.Freelist.{Memory, null}
use doomsday_kernel_modules.PenguinMalloc.Buddy.{buddy_init}
use doomsday_kernel_modules.PenguinMalloc.SlabCaches.{Caches}
use doomsday_kernel_modules.PenguinMalloc.Malloc.{
  Globals, penguin_malloc_init, penguin_malloc, penguin_free,
}

abbrev pub heap_size : ℕ
heap_size = 128 * 1024 * 1024

-- How an operator ends; with the globals where it returns or throws.
pub data Outcome {ℓ} (A : Type ℓ) : Type ℓ where
  returned : A → Globals → Outcome A
  bad_alloc : Globals → Outcome A
  aborted : Outcome A

-- The address that `mmap` returns, `none` for MAP_FAILED, and the memory of the process.
pub record Mapping : Type 0 where
  pub mmap : Option ℕ
  pub words : Memory
  pub caches : Caches

-- The inner option is `none` for `std::abort`.
unfoldable pub init_allocator : Mapping → Option (Option Globals)
init_allocator mapping = elim mapping.mmap [
  | none ↦ some none
  | some base ↦ do
    made ← buddy_init mapping.words base (add_size base heap_size)
    (buddy, words) ← made
    globals ← penguin_malloc_init (record { caches = mapping.caches; words = words; buddy = buddy })
    some (some globals)
]

unfoldable pub pthread_once : Mapping → Option Globals → Option (Option Globals)
pthread_once mapping none = init_allocator mapping
pthread_once mapping (some globals) = some (some globals)

unfoldable pub operator_new_nothrow : ℕ → Mapping → Option Globals → ℕ → Option (Outcome ℕ)
operator_new_nothrow fuel mapping state size = pthread_once mapping state >>= λ ready. elim ready [
  | none ↦ some aborted
  | some globals ↦
      penguin_malloc fuel globals size >>= λ (ptr, globals'). some (returned ptr globals')
]

unfoldable pub operator_new : ℕ → Mapping → Option Globals → ℕ → Option (Outcome ℕ)
operator_new fuel mapping state size = pthread_once mapping state >>= λ ready. elim ready [
  | none ↦ some aborted
  | some globals ↦ penguin_malloc fuel globals size >>= λ (ptr, globals').
      some (if ptr == null then bad_alloc globals' else returned ptr globals')
]

-- A pointer other than NULL before the first `new` is undefined behaviour.
unfoldable pub operator_delete : Option Globals → ℕ → Option (Option Globals)
operator_delete none ptr = if ptr == null then some none else none
operator_delete (some globals) ptr = penguin_free globals ptr >>= λ globals'. some (some globals')

-- The other forms of the operators have the same bodies.
unfoldable pub operator_new_array : ℕ → Mapping → Option Globals → ℕ → Option (Outcome ℕ)
operator_new_array fuel mapping state size = operator_new fuel mapping state size

unfoldable pub operator_new_array_nothrow : ℕ → Mapping → Option Globals → ℕ → Option (Outcome ℕ)
operator_new_array_nothrow fuel mapping state size = operator_new_nothrow fuel mapping state size

unfoldable pub operator_delete_array : Option Globals → ℕ → Option (Option Globals)
operator_delete_array state ptr = operator_delete state ptr

unfoldable pub operator_delete_nothrow : Option Globals → ℕ → Option (Option Globals)
operator_delete_nothrow state ptr = operator_delete state ptr

unfoldable pub operator_delete_array_nothrow : Option Globals → ℕ → Option (Option Globals)
operator_delete_array_nothrow state ptr = operator_delete state ptr

-- The size is not used.
unfoldable pub operator_delete_sized : Option Globals → ℕ → ℕ → Option (Option Globals)
operator_delete_sized state ptr size = operator_delete state ptr

unfoldable pub operator_delete_array_sized : Option Globals → ℕ → ℕ → Option (Option Globals)
operator_delete_array_sized state ptr size = operator_delete state ptr
