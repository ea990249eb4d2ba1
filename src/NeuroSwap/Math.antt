-- ===== src/NeuroSwap/Math.antt =====
-- neuro-swap/kmodule/math.c. An array is the list of its elements; the loops write an element from
-- elements of the same index only, so they build the list.
pub mod Series
pub mod Rows
use doomsday_kernel_modules.Base.{ℕ, zero, suc, ◌+◌, ◌*◌, List, [], ◌∷◌, get_or}
use doomsday_kernel_modules.NeuroSwap.Float.{Float}

abbrev pub exp_tailor_power : ℕ
exp_tailor_power = 30

-- The elements with the numbers from `i` on.
unfoldable pub build {ℓ} : {A : Type ℓ} → ℕ → ℕ → (ℕ → A) → List A
build zero i f = []
build (suc n) i f = f i ∷ build n (i + 1) f

module _ (float : Float) where
  open float use {
    F, D, nought, one, add, sub, mul, div, neg, widen, narrow, whole, add_double, mul_double,
    div_double,
  }

  -- `for (i = ...; i <= EXP_TAILOR_POWER; i++) { term *= x / i; sum += term; }`
  unfoldable pub exp_loop : ℕ → ℕ → F → D → D → D
  exp_loop zero i x term sum = sum
  exp_loop (suc left) i x term sum =
      let term' = mul_double term (div_double (widen x) (whole i)) in
      exp_loop left (i + 1) x term' (add_double sum term')

  unfoldable pub kexpf : F → F
  unfolding exp_loop
  kexpf x = narrow (exp_loop exp_tailor_power 1 x (whole 1) (whole 1))

  unfoldable pub ktanhf : F → F
  unfolding kexpf
  ktanhf x = let ex = kexpf x in let enx = kexpf (neg x) in div (sub ex enx) (add ex enx)

  unfoldable pub sigmoid : F → F
  unfolding kexpf
  sigmoid x = div one (add one (kexpf (neg x)))

  -- `for (j = ...; j < n; j++) out[i] += A[i * n + j] * x[j];`
  unfoldable pub row_loop : List F → List F → ℕ → ℕ → ℕ → F → F
  row_loop a x start zero j out = out
  row_loop a x start (suc left) j out =
      row_loop a x start left (j + 1)
        (add out (mul (get_or a (start + j) nought) (get_or x j nought)))

  unfoldable pub matvec : List F → List F → ℕ → ℕ → List F
  unfolding row_loop build
  matvec a x m n = build m 0 λ i. row_loop a x (i * n) n 0 nought

  unfoldable pub vec_add : List F → List F → ℕ → List F
  unfolding build
  vec_add out v n = build n 0 λ i. add (get_or out i nought) (get_or v i nought)
