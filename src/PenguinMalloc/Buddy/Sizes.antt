-- ===== src/PenguinMalloc/Buddy/Sizes.antt =====
-- The sizes that `buddy_update_params` computes, and whether the free lists and the bitmap that
-- `buddy_init` reserves from them reach the layer of single pages.
use native.Mathlib.Nat.{le_of_eq, pow-le-pow_right}
use doomsday_kernel_modules.Base.{
  ℕ, ◌+◌, ◌-◌, ◌*◌, ◌^◌, ◌≤◌, ◌<◌, ◌≡◌, ◌∙◌, ◌≢◌, ◌↔◌, refl, some, arith, dec_lt, ap, sym,
}
use doomsday_kernel_modules.PenguinMalloc.Util.{pages_count}
use doomsday_kernel_modules.PenguinMalloc.Util.Powers.{
  IsLog2Upper, IsLog2Lower, log2_upper-IsLog2Upper, log2_lower-IsLog2Lower, two-pow-add,
  two-pow-pos,
}
use doomsday_kernel_modules.PenguinMalloc.BuddyUtil.{mask_index, buddy_bitmap_size}
use doomsday_kernel_modules.PenguinMalloc.BuddyUtil.Position.{position_heap}
use doomsday_kernel_modules.PenguinMalloc.Buddy.{Params, buddy_update_params}

-- The parameters of an arena of `p.blocks_count` pages: the root block has `2^k` of them, and there
-- is a list for each exponent below the rounded up logarithm.
pub record AreParams (k : ℕ) (p : Params) : Type 0 where
  pub root : p.root_block_size ≡ 2 ^ k
  pub lower : IsLog2Lower p.blocks_count k
  pub upper : IsLog2Upper p.blocks_count p.buddy_layers

-- For every region of at least one and fewer than 2^63 pages `buddy_update_params` ends without an
-- undefined shift: the root block is the largest power of two of pages that fits the region.
pub buddy_update_params_runs :
    (begin end : ℕ)
    → 0 < pages_count begin end
    → pages_count begin end < 2 ^ 63
    → (k : ℕ) × (p : Params) × (buddy_update_params begin end ≡ some p)
      × (p.blocks_count ≡ pages_count begin end)
      × AreParams k p
unfolding buddy_update_params
buddy_update_params_runs begin end pos small =
    let (k, _, root, lower) = log2_lower-IsLog2Lower (pages_count begin end) pos small in
    let (layers, run, _, upper) = log2_upper-IsLog2Upper (pages_count begin end) (omega arith) in
    (
      k,
      record {
        blocks_count = pages_count begin end;
        root_block_size = 2 ^ k;
        buddy_layers = layers;
      },
      rw (root, run),
      refl,
      record { root = refl; lower = lower; upper = upper },
    )

module _ (k : ℕ) (p : Params) (are : AreParams k p) where
  layers_reach : (k < p.buddy_layers) ↔ (p.blocks_count ≢ 2 ^ k)
  layers_reach = (
    λ in_array power. absurd (omega (arith, are.upper.least k (le_of_eq power))),
    λ ne. elim (dec_lt k p.buddy_layers) [
      | yes lt ↦ lt
      | no ge ↦ absurd (
          omega (
            arith,
            are.upper.reaches,
            are.lower.fits,
            pow-le-pow_right {n = 2} (omega arith) {i = p.buddy_layers} {j = k} (omega arith),
          ))
    ],
  )

  -- The bit of the last single page lies inside the bitmap exactly when the number of pages is less
  -- than eight short of twice the root block.
  pub buddy_bitmap_size_reach_iff :
      3 ≤ k
      → (mask_index k (2 ^ k - 1) < buddy_bitmap_size p.blocks_count)
        ↔ (2 ^ (k + 1) ≤ p.blocks_count + 7)
  unfolding buddy_bitmap_size
  buddy_bitmap_size_reach_iff deep =
      let place = position_heap k (2 ^ k - 1) (omega (arith, two-pow-pos k)) in
      let e : k - 3 + 3 ≡ k = omega arith in
      let whole : 2 ^ k ≡ 2 ^ (k - 3) * 8 = ap (λ (n : ℕ). 2 ^ n) (sym e) ∙ two-pow-add (k - 3) 3 in
      let double : 2 ^ (k + 1) ≡ 2 ^ k * 2 = two-pow-add k 1 in (λ h. omega arith, λ h. omega arith)

-- For every region of at least one and fewer than 2^63 pages `buddy_update_params` ends with a root block of
-- 2^k pages, so that single pages are the blocks of layer k, and that layer has a free list exactly when the
-- number of pages is not 2^k.
pub buddy_layers_reach_iff :
    (begin end : ℕ)
    → 0 < pages_count begin end
    → pages_count begin end < 2 ^ 63
    → (k : ℕ) × (p : Params) × (buddy_update_params begin end ≡ some p)
      × (p.root_block_size ≡ 2 ^ k)
      × ((k < p.buddy_layers) ↔ (pages_count begin end ≢ 2 ^ k))
buddy_layers_reach_iff begin end pos small =
    let (k, p, run, count, are) = buddy_update_params_runs begin end pos small in
    (k, p, run, are.root, rw (← count) (layers_reach k p are))
