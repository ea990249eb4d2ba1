-- ===== src/PenguinMalloc/BuddyUtil/Blocks.antt =====
-- `to_pointer` and `to_index`: the blocks of a layer tile the root block, and a block is split into
-- its two children.
use native.Mathlib.Nat.{
  pow-suc, mul-add-div, mul-le-mul_left, div-mul-le_self, div-lt_iff_lt-mul, ne_of_gt,
}
use doomsday_kernel_modules.Base.{
  ℕ, suc, ◌+◌, ◌-◌, ◌*◌, ◌/◌, ◌%◌, ◌^◌, ◌≤◌, ◌<◌, ◌≡◌, ap, some, arith, ==_of_ne,
}
use doomsday_kernel_modules.PenguinMalloc.Config.{page_size, size_mod}
use doomsday_kernel_modules.PenguinMalloc.Util.Powers.{two-pow-div}
use doomsday_kernel_modules.PenguinMalloc.BuddyUtil.{block_size, to_pointer, to_index}

-- An arena that lies in the address space: the root block starts at `begin`.
pub record IsArena (begin root : ℕ) : Type 0 where
  pub in_memory : begin + root * page_size < size_mod

-- The pages in front of a block of a layer stay inside the root block.
pub block_inside :
    (root layer index : ℕ)
    → index < 2 ^ layer
    → block_size layer root * index + block_size layer root ≤ root
unfolding block_size
block_inside root layer index h =
    let b : ℕ = root / 2 ^ layer in
    omega (
      arith,
      mul-le-mul_left {m = index + 1} {n = 2 ^ layer} b (omega arith),
      div-mul-le_self root (2 ^ layer),
    )

module _ {begin root : ℕ} (arena : IsArena begin root) (layer index : ℕ)
    (h : index < 2 ^ layer) where
  -- No product or sum of `to_pointer` wraps: the address is the sum that is written.
  pub to_pointer_sum :
      to_pointer begin layer index root ≡ begin + block_size layer root * index * page_size
  unfolding to_pointer
  to_pointer_sum = omega (arith, block_inside root layer index h, arena.in_memory)

  -- In an arena that lies in the address space, every address inside a block of a layer is mapped
  -- to the index of the block: `to_index` undoes `to_pointer`, also for interior addresses.
  pub to_index-to_pointer :
      (offset : ℕ)
      → offset < block_size layer root * page_size
      → to_index begin layer (to_pointer begin layer index root + offset) root ≡ some index
  unfolding to_index
  to_index-to_pointer offset lt =
      let b : ℕ = block_size layer root in
      let pos : 0 < b = omega arith in
      let distance : (to_pointer begin layer index root + offset + size_mod - begin) % size_mod
          ≡ b * (index * page_size) + offset =
        omega (arith, to_pointer_sum, block_inside root layer index h, arena.in_memory) in
      let inner : offset / b < page_size = (div-lt_iff_lt-mul pos).1 (omega arith) in
      rw (==_of_ne (ne_of_gt pos), distance, mul-add-div pos (index * page_size) offset)
        (ap some (omega arith))

module _ {begin root : ℕ} (arena : IsArena begin root) (layer index : ℕ) (h : index < 2 ^ layer)
    (even : block_size (suc layer) root * 2 ≡ block_size layer root) where
  left_in : index * 2 < 2 ^ suc layer
  left_in = omega (arith, pow-suc 2 layer)

  right_in : index * 2 + 1 < 2 ^ suc layer
  right_in = omega (arith, pow-suc 2 layer)

  -- Where blocks of a layer halve into those of the next one, the children `2 * index` and
  -- `2 * index + 1` of a block start at the block and at its middle.
  pub split_children :
      (to_pointer begin (suc layer) (index * 2) root ≡ to_pointer begin layer index root)
      × (to_pointer begin (suc layer) (index * 2 + 1) root
          ≡ to_pointer begin layer index root + block_size (suc layer) root * page_size)
  split_children = omega (
    arith,
    to_pointer_sum arena layer index h,
    to_pointer_sum arena (suc layer) (index * 2) left_in,
    to_pointer_sum arena (suc layer) (index * 2 + 1) right_in,
    ap (λ (b : ℕ). b * index) even,
  )

-- With a root of `2^k` pages, the blocks of a layer have `2^(k - layer)`.
pub block_size_pow : (k layer : ℕ) → layer ≤ k → block_size layer (2 ^ k) ≡ 2 ^ (k - layer)
unfolding block_size
block_size_pow k layer h = two-pow-div k layer h

pub block_size_halves :
    (k layer : ℕ) → layer < k → block_size (suc layer) (2 ^ k) * 2 ≡ block_size layer (2 ^ k)
block_size_halves k layer h =
    let e : k - layer ≡ suc (k - suc layer) = omega arith in
    rw (block_size_pow k (suc layer) h, block_size_pow k layer (omega arith), e)
      (omega (arith, pow-suc 2 (k - suc layer)))
