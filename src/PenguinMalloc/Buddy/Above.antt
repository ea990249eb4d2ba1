-- ===== src/PenguinMalloc/Buddy/Above.antt =====
-- The blocks of penguin_malloc/src/buddy.c that hold a block.
use native.Mathlib.Nat.{pow-le-pow_right, pow-suc, div-div-eq-div-mul}
use doomsday_kernel_modules.Base.{ℕ, suc, ◌+◌, ◌-◌, ◌/◌, ◌^◌, ◌≤◌, ◌<◌, ◌≡◌, sym, ap, ◌∙◌, arith}
use doomsday_kernel_modules.PenguinMalloc.Util.Powers.{two-pow-add}

-- Block `j` of layer `m` is block `i` of layer `l` or holds it.
pub record IsAbove (l i m j : ℕ) : Type 0 where
  pub layer_le : m ≤ l
  pub index_eq : j ≡ i / 2 ^ (l - m)
  pub in_layer : j < 2 ^ m

pub IsAbove-self : (l i : ℕ) → i < 2 ^ l → IsAbove l i l i
IsAbove-self l i h =
    let e : l - l ≡ 0 = omega arith in
    record { layer_le = omega arith; index_eq = rw e (omega arith); in_layer = h }

pub IsAbove-parent : (l i m j : ℕ) → IsAbove l (i / 2) m j → IsAbove (suc l) i m j
IsAbove-parent l i m j up =
    let le = up.layer_le in
    let e : suc l - m ≡ suc (l - m) = omega arith in
    record {
      layer_le = omega arith;
      index_eq =
          up.index_eq
          ∙ (div-div-eq-div-mul i 2 (2 ^ (l - m))
              ∙ ap (λ (d : ℕ). i / d) (omega (arith, ap (λ (n : ℕ). 2 ^ n) e, pow-suc 2 (l - m))));
      in_layer = up.in_layer;
    }

pub IsAbove-trans : (l i m j t b : ℕ) → IsAbove l i m j → IsAbove m j t b → IsAbove l i t b
IsAbove-trans l i m j t b low high =
    let e : l - t ≡ l - m + (m - t) = omega (arith, low.layer_le, high.layer_le) in
    record {
      layer_le = omega (arith, low.layer_le, high.layer_le);
      index_eq =
          high.index_eq
          ∙ ap (λ (n : ℕ). n / 2 ^ (m - t)) low.index_eq
          ∙ div-div-eq-div-mul i (2 ^ (l - m)) (2 ^ (m - t))
          ∙ ap (λ (d : ℕ). i / d)
              (sym (two-pow-add (l - m) (m - t)) ∙ ap (λ (n : ℕ). 2 ^ n) (sym e));
      in_layer = high.in_layer;
    }

pub half_in : (l i : ℕ) → i < 2 ^ suc l → i / 2 < 2 ^ l
half_in l i h = omega (arith, pow-suc 2 l)

-- The index of a block of a layer up to 31 is the same as an `int`.
pub index_small : (k l i : ℕ) → k ≤ 31 → l ≤ k → i < 2 ^ l → i < 2 ^ 31
index_small k l i small le lt =
    omega (arith, pow-le-pow_right {n = 2} (omega arith) {i = l} {j = 31} (omega arith))
