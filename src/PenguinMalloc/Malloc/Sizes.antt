-- ===== src/PenguinMalloc/Malloc/Sizes.antt =====
-- Which slab, or how many pages, serve a size.
use doomsday_kernel_modules.Base.{ℕ, ◌*◌, ◌≡◌, ◌<◌, ◌≤◌, max, arith}
use doomsday_kernel_modules.PenguinMalloc.Config.{penguin_malloc_slabs}
use doomsday_kernel_modules.PenguinMalloc.Malloc.{
  slab_size_by_index, fit_from, best_fit_slab_index, buddy_index,
}

-- For a size below 4096, header included, the objects of the slab that is chosen are larger than the
-- size, and they have 32 bytes or at most twice the size.
pub best_fit_slab_index_tight :
    (size : ℕ)
    → size < 4096
    → let index = best_fit_slab_index size in
      (index < penguin_malloc_slabs)
      × (size < slab_size_by_index index)
      × (slab_size_by_index index ≤ max 32 (2 * size))
unfolding best_fit_slab_index fit_from slab_size_by_index
best_fit_slab_index_tight size small = ground arith

-- Other sizes are for the buddy allocator.
pub best_fit_slab_index_large : (size : ℕ) → 4096 ≤ size → best_fit_slab_index size ≡ buddy_index
unfolding best_fit_slab_index fit_from slab_size_by_index
best_fit_slab_index_large size large = ground arith

pub best_fit_slab_index_least : (size : ℕ) → size < 32 → best_fit_slab_index size ≡ 0
unfolding best_fit_slab_index fit_from slab_size_by_index
best_fit_slab_index_least size small = ground arith
