-- ===== src/PenguinMalloc/Malloc.antt =====
-- penguin_malloc/src/penguin_malloc.c: `penguin_malloc` takes small objects from slabs and others from the
-- buddy allocator, and keeps in a word before each object which of them it was. `none` is undefined
-- behaviour of C, such as the use of a slab that got no region, or a loop without end in a slab.
pub mod Sizes
pub mod Dispatch
mod Tests
use doomsday_kernel_modules.Base.{
  ◌>>=◌, ℕ, zero, suc, ◌+◌, ◌*◌, ◌/◌, ◌^◌, Bool, Option, none, some, List, [], ◌∷◌, ltb, ◌==◌,
  if◌then◌else◌, get_elem?, set,
}
use doomsday_kernel_modules.PenguinMalloc.Config.{
  page_size, penguin_malloc_slabs, penguin_malloc_min_slab_size, word_size, add_size, sub_size,
}
use doomsday_kernel_modules.PenguinMalloc.Freelist.{Memory, null, store}
use doomsday_kernel_modules.PenguinMalloc.Buddy.{buddy_alloc, buddy_free}
use doomsday_kernel_modules.PenguinMalloc.SlabCaches.{SlabAlloc, Heap}
use doomsday_kernel_modules.PenguinMalloc.Slab.{slab_init, slab_alloc, slab_free}

-- The global variables, and what they point to.
pub record Globals : Type 0 where
  pub slabs : List (Option SlabAlloc)
  pub heap : Heap

abbrev pub buddy_index : ℕ
buddy_index = penguin_malloc_slabs

-- `sizeof(penguin_malloc_header_t)`
abbrev pub sizeof_header : ℕ
sizeof_header = word_size

unfoldable pub slab_size_by_index : ℕ → ℕ
slab_size_by_index index = penguin_malloc_min_slab_size * 2 ^ (index + 1)

unfoldable pub to_pages_count : ℕ → ℕ
to_pages_count size = sub_size (add_size size page_size) 1 / page_size

-- The loop, with `left` slabs to look at.
unfoldable pub fit_from : ℕ → ℕ → ℕ → ℕ
fit_from size zero i = buddy_index
fit_from size (suc left) i =
    let rest = fit_from size left (i + 1) in if ltb size (slab_size_by_index i) then i else rest

unfoldable pub best_fit_slab_index : ℕ → ℕ
best_fit_slab_index size = fit_from size penguin_malloc_slabs 0

unfoldable pub init_slabs : ℕ → ℕ → Heap → Option (List (Option SlabAlloc) × Heap)
init_slabs zero i heap = some ([], heap)
init_slabs (suc left) i heap = slab_init heap (slab_size_by_index i) >>= λ (slab, heap').
    init_slabs left (i + 1) heap' >>= λ (slabs, heap''). some (slab ∷ slabs, heap'')

unfoldable pub penguin_malloc_init : Heap → Option Globals
penguin_malloc_init heap = init_slabs penguin_malloc_slabs 0 heap >>= λ (slabs, heap').
    some record { slabs = slabs; heap = heap' }

-- `slab_alloc(global_slabs[index])`
unfoldable pub alloc_at : ℕ → Globals → ℕ → Option (ℕ × Globals)
alloc_at fuel globals index = do
  slab ← get_elem? globals.slabs index
  alloc ← slab
  (mem, alloc', heap') ← slab_alloc fuel alloc globals.heap
  some (mem, record { slabs = set globals.slabs index (some alloc'); heap = heap' })

-- `slab_free(global_slabs[index], ptr)`
unfoldable pub free_at : Globals → ℕ → ℕ → Option Globals
free_at globals index ptr = do
  slab ← get_elem? globals.slabs index
  alloc ← slab
  (alloc', heap') ← slab_free alloc globals.heap ptr
  some record { slabs = set globals.slabs index (some alloc'); heap = heap' }

-- `buddy_alloc(global_buddy, pages)`
unfoldable pub alloc_pages : Globals → ℕ → Option (ℕ × Globals)
alloc_pages globals pages = do
  (mem, buddy, words) ← buddy_alloc globals.heap.buddy globals.heap.words pages
  some (mem, record globals { heap = record globals.heap { buddy = buddy; words = words } })

-- `buddy_free(global_buddy, ptr)`
unfoldable pub free_pages : Globals → ℕ → Option Globals
free_pages globals ptr = do
  (buddy, words) ← buddy_free globals.heap.buddy globals.heap.words ptr
  some record globals { heap = record globals.heap { buddy = buddy; words = words } }

-- The header of the memory gets the index; NULL stays NULL.
unfoldable pub with_header : ℕ → ℕ × Globals → ℕ × Globals
with_header index (mem, globals) = if mem == null then (null, globals) else (
  add_size mem sizeof_header,
  record globals { heap = record globals.heap { words = store globals.heap.words mem index } },
)

-- Where no slab fits or the slab has returned NULL, pages serve.
unfoldable pub penguin_malloc : ℕ → Globals → ℕ → Option (ℕ × Globals)
penguin_malloc fuel globals size =
    let total = add_size size sizeof_header in
    let index = best_fit_slab_index total in
    let from_slab =
      if index == buddy_index then some (null, globals) else alloc_at fuel globals index in
    from_slab >>= λ (mem, globals').
    let pages : Option (ℕ × Globals) = (do
      got ← alloc_pages globals' (to_pages_count total)
      some (with_header buddy_index got)) in
    if mem == null then pages else some (with_header index (mem, globals'))

unfoldable pub penguin_free : Globals → ℕ → Option Globals
penguin_free globals ptr =
    let mem = sub_size ptr sizeof_header in
    let index = globals.heap.words mem in
    let freed =
      if index == buddy_index then free_pages globals mem else free_at globals index mem in
    if ptr == null then some globals else freed
