-- ===== src/PenguinMalloc/BuddyUtil/BestFit.antt =====
-- `best_fit_layer`: which requests get a block that is large enough.
use native.Mathlib.Nat.{
  pow-suc, le-div_iff_mul-le, mul-le-mul_left, div-le_self, pow-le-pow_right, le_trans, le_antisymm,
  le_of_eq, le_of_mul-le-mul_left, ne_of_gt,
}
use native.Mathlib.Numerals.{add-one}
use doomsday_kernel_modules.Base.{
  ℕ, ◌+◌, ◌-◌, ◌*◌, ◌/◌, ◌^◌, ◌≤◌, ◌<◌, ◌≡◌, ◌↔◌, ap, some, arith, ==_of_ne, sym, ◌∙◌,
}
use doomsday_kernel_modules.PenguinMalloc.Util.Powers.{
  IsLog2Upper, IsLog2Upper-unique, log2_upper-IsLog2Upper, two-pow-div, two-pow-pos, two-pow-add,
  le_of_pow-lt,
}
use doomsday_kernel_modules.PenguinMalloc.BuddyUtil.{block_size, best_fit_layer}
use doomsday_kernel_modules.PenguinMalloc.BuddyUtil.Blocks.{block_size_pow}

pow-le_inverse : (p q : ℕ) → 2 ^ p ≤ 2 ^ q → p ≤ q
pow-le_inverse p q h = le_of_pow-lt p q (rw (add-one q) (omega (arith, pow-suc 2 q, two-pow-pos q)))

module _ (k pages : ℕ) (small : k ≤ 63) (pos : 0 < pages) (fits : pages ≤ 2 ^ k) where
  quotient_le : 2 ^ k / pages ≤ 2 ^ k
  quotient_le = div-le_self (2 ^ k) pages

  best_fit_some :
      (layer : ℕ) × (best_fit_layer pages (2 ^ k) ≡ some layer) × IsLog2Upper (2 ^ k / pages) layer
  unfolding best_fit_layer
  best_fit_some =
      let (layer, run, _, is) =
        log2_upper-IsLog2Upper (2 ^ k / pages)
          (le_trans quotient_le (pow-le-pow_right {n = 2} (omega arith) small)) in
      (layer, rw (==_of_ne (ne_of_gt pos)) run, is)

  module _ (layer : ℕ) (is : IsLog2Upper (2 ^ k / pages) layer) where
    layer_in : layer ≤ k
    layer_in = is.least k quotient_le

    whole : 2 ^ k ≡ 2 ^ (k - layer) * 2 ^ layer
    whole =
        let in_tree = layer_in in
        let e : k - layer + layer ≡ k = omega arith in
        ap (λ (n : ℕ). 2 ^ n) (sym e) ∙ two-pow-add (k - layer) layer

    holds_iff : (pages ≤ block_size layer (2 ^ k)) ↔ (2 ^ layer ≡ 2 ^ k / pages)
    holds_iff =
        let size = block_size_pow k layer layer_in in
        (
          λ holds.
              le_antisymm
                ((le-div_iff_mul-le pos).1 (
                  omega (
                    arith,
                    whole,
                    mul-le-mul_left {m = pages} {n = 2 ^ (k - layer)} (2 ^ layer) (omega arith),
                  )))
                is.reaches,
          λ power.
              let below : 2 ^ layer * pages ≤ 2 ^ k = (le-div_iff_mul-le pos).0 (le_of_eq power) in
              rw size
                (le_of_mul-le-mul_left {k = 2 ^ layer} (omega (arith, whole)) (two-pow-pos layer)),
        )

  -- For a root block of `2^k` pages and a request that fits it, `best_fit_layer` returns a layer of
  -- the tree, and the blocks of that layer hold the request exactly when the quotient of the two,
  -- rounded down, is a power of two.
  pub best_fit_layer_holds_iff :
      (layer : ℕ) × (best_fit_layer pages (2 ^ k) ≡ some layer)
      × (layer ≤ k)
      × ((pages ≤ block_size layer (2 ^ k)) ↔ (2 ^ layer ≡ 2 ^ k / pages))
  best_fit_layer_holds_iff =
      let (layer, run, is) = best_fit_some in (layer, run, layer_in layer is, holds_iff layer is)

-- A request of a power of two pages gets the layer whose blocks have exactly that many pages.
pub best_fit_layer_exact :
    (k j : ℕ)
    → k ≤ 63
    → j ≤ k
    → (best_fit_layer (2 ^ j) (2 ^ k) ≡ some (k - j)) × (block_size (k - j) (2 ^ k) ≡ 2 ^ j)
best_fit_layer_exact k j small fits =
    let (layer, run, is) =
      best_fit_some k (2 ^ j) small (two-pow-pos j) (pow-le-pow_right {n = 2} (omega arith) fits) in
    let here : IsLog2Upper (2 ^ k / 2 ^ j) (k - j) = record {
      reaches = le_of_eq (two-pow-div k j fits);
      least = λ q h. pow-le_inverse (k - j) q (rw (two-pow-div k j fits) at h);
    } in
    let same : layer ≡ k - j = IsLog2Upper-unique (2 ^ k / 2 ^ j) is here in
    let back : k - (k - j) ≡ j = omega arith in
    (rw (← same) run, block_size_pow k (k - j) (omega arith) ∙ ap (λ (n : ℕ). 2 ^ n) back)
