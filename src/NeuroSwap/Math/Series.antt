-- ===== src/NeuroSwap/Math/Series.antt =====
-- The loop of `kexpf` computes a partial sum of the exponential series.
use doomsday_kernel_modules.Base.{ℕ, zero, suc, ◌+◌, ◌≡◌, ap, ◌∙◌, arith}
use doomsday_kernel_modules.NeuroSwap.Float.{Float}
use doomsday_kernel_modules.NeuroSwap.Math.{exp_tailor_power, exp_loop, kexpf}

module _ (float : Float) where
  open float use {F, D, widen, narrow, whole, add_double, mul_double, div_double}

  -- The term of x^k / k!, and the sum of the terms up to it.
  abbrev pub series_term : F → ℕ → D
  series_term x zero = whole 1
  series_term x (suc k) = mul_double (series_term x k) (div_double (widen x) (whole (suc k)))

  abbrev pub series_sum : F → ℕ → D
  series_sum x zero = whole 1
  series_sum x (suc k) = add_double (series_sum x k) (series_term x (suc k))

  exp_loop_sum :
      (x : F) (left k : ℕ)
      → exp_loop float left (suc k) x (series_term x k) (series_sum x k) ≡ series_sum x (k + left)
  unfolding exp_loop
  exp_loop_sum x zero k = ap (series_sum x) (omega arith)
  exp_loop_sum x (suc left) k =
      ap (λ (i : ℕ). exp_loop float left i x (series_term x (suc k)) (series_sum x (suc k)))
        (omega arith)
      ∙ exp_loop_sum x left (suc k)
      ∙ ap (series_sum x) (omega arith)

  -- The result of kexpf is the sum of the terms x^k / k! for k from 0 to 30, each term computed from the one
  -- before it, rounded to a float at the end.
  pub kexpf-series_sum : (x : F) → kexpf float x ≡ narrow (series_sum x exp_tailor_power)
  unfolding kexpf
  kexpf-series_sum x = ap narrow (exp_loop_sum x exp_tailor_power 0)
