-- ===== src/PenguinMalloc/Util/Powers.antt =====
-- The four loops over powers of two of util.c: each ends, and with the exponent that it is named for.
use native.Mathlib.Nat.{one-le-pow, pow-suc, add-zero, add-suc, mul-div_cancel, pow-le-pow_right}
use native.Mathlib.Numerals.{add-one}
use doomsday_kernel_modules.Base.{
  ℕ, zero, suc, ◌+◌, ◌^◌, ◌≤◌, ◌<◌, ◌≡◌, ◌∙◌, sym, ap, ◌*◌, ◌/◌, ◌-◌, some, ltb, leb, leb→le, arith,
  count_up-IsFirst, IsFirst, dec_lt,
}
use doomsday_kernel_modules.PenguinMalloc.Util.{
  min_upper_power_of_2, max_lower_power_of_2, log2_upper, log2_lower,
}

-- `p` is the least exponent whose power of two is not below `size`.
pub record IsLog2Upper (size p : ℕ) : Type 0 where
  pub reaches : size ≤ 2 ^ p
  pub least : (q : ℕ) → size ≤ 2 ^ q → p ≤ q

-- `p` is the exponent of the greatest power of two that is at most `size`.
pub record IsLog2Lower (size p : ℕ) : Type 0 where
  pub fits : 2 ^ p ≤ size
  pub next_too_large : size < 2 ^ (p + 1)

pub two-pow-pos : (n : ℕ) → 1 ≤ 2 ^ n
two-pow-pos n = one-le-pow n 2 (omega arith)

pub two-pow-add : (m n : ℕ) → 2 ^ (m + n) ≡ 2 ^ m * 2 ^ n
two-pow-add m zero = rw (add-zero) (omega arith)
two-pow-add m (suc n) = omega (
  arith,
  two-pow-add m n,
  ap (λ (e : ℕ). 2 ^ e) (add-suc m n),
  pow-suc 2 (m + n),
  pow-suc 2 n,
  ap (λ (t : ℕ). 2 ^ m * t) (pow-suc 2 n),
)

-- Dividing powers of two subtracts their exponents.
pub two-pow-div : (k l : ℕ) → l ≤ k → 2 ^ k / 2 ^ l ≡ 2 ^ (k - l)
two-pow-div k l h =
    let e : k - l + l ≡ k = omega arith in
    let p : 2 ^ k ≡ 2 ^ (k - l) * 2 ^ l = ap (λ (e : ℕ). 2 ^ e) (sym e) ∙ two-pow-add (k - l) l in
    rw p (mul-div_cancel (2 ^ (k - l)) (two-pow-pos l))

-- Powers of two grow strictly.
pub le_of_pow-lt : (p q : ℕ) → 2 ^ p < 2 ^ (q + 1) → p ≤ q
le_of_pow-lt p q h = elim (dec_lt q p) [
  | no ge ↦ omega arith
  | yes lt ↦
      absurd
        (omega (arith, pow-le-pow_right {n = 2} (omega arith) {i = q + 1} {j = p} (omega arith)))
]

module _ (size : ℕ) where
  IsFirst-IsLog2Upper : (p : ℕ) → IsFirst (λ p. ltb (2 ^ p) size) 0 p → IsLog2Upper size p
  IsFirst-IsLog2Upper p f = record {
    reaches = ground (arith, f.fails);
    least = λ q h. elim (dec_lt q p) [
      | no ge ↦ omega arith
      | yes lt ↦ ground (arith, f.holds_before q (omega arith) lt)
    ];
  }

  IsFirst-IsLog2Lower :
      (p : ℕ) → 0 < size → IsFirst (λ p. leb (2 ^ (p + 1)) size) 0 p → IsLog2Lower size p
  IsFirst-IsLog2Lower zero pos f = record {
    fits = omega arith;
    next_too_large = ground (arith, f.fails);
  }
  IsFirst-IsLog2Lower (suc p) pos f = record {
    fits = rw (← add-one p) (leb→le _ _ (f.holds_before p (omega arith) (omega arith)));
    next_too_large = ground (arith, f.fails);
  }

  -- The first power of two that is not below `size`.
  pub IsLog2Upper-unique : {p q : ℕ} → IsLog2Upper size p → IsLog2Upper size q → p ≡ q
  IsLog2Upper-unique {p} {q} a b = omega (arith, a.least q b.reaches, b.least p a.reaches)

  pub IsLog2Lower-unique : {p q : ℕ} → IsLog2Lower size p → IsLog2Lower size q → p ≡ q
  IsLog2Lower-unique {p} {q} a b = omega (
    arith,
    le_of_pow-lt p q (omega (arith, a.fits, b.next_too_large)),
    le_of_pow-lt q p (omega (arith, b.fits, a.next_too_large)),
  )

  -- For every size up to 2^63 `log2_upper` ends without an undefined shift, and returns the least
  -- exponent whose power of two is at least the size; `min_upper_power_of_2` returns that power.
  pub log2_upper-IsLog2Upper :
      size ≤ 2 ^ 63
      → (p : ℕ) × (log2_upper size ≡ some p)
        × (min_upper_power_of_2 size ≡ some (2 ^ p))
        × IsLog2Upper size p
  unfolding log2_upper min_upper_power_of_2
  log2_upper-IsLog2Upper h =
      let (p, run, first, le) =
        count_up-IsFirst 64 (λ p. ltb (2 ^ p) size) 0 63 (omega arith) (ground arith) in
      (p, run, rw run, IsFirst-IsLog2Upper p first)

  -- For every positive size below 2^63 `log2_lower` ends without an undefined shift, and returns
  -- the exponent `p` with `2^p ≤ size < 2^(p+1)`; `max_lower_power_of_2` returns `2^p`.
  pub log2_lower-IsLog2Lower :
      0 < size
      → size < 2 ^ 63
      → (p : ℕ) × (log2_lower size ≡ some p)
        × (max_lower_power_of_2 size ≡ some (2 ^ p))
        × IsLog2Lower size p
  unfolding log2_lower max_lower_power_of_2
  log2_lower-IsLog2Lower pos h =
      let (p, run, first, le) =
        count_up-IsFirst 63 (λ p. leb (2 ^ (p + 1)) size) 0 62 (omega arith) (ground arith) in
      (p, run, rw run, IsFirst-IsLog2Lower p pos first)
