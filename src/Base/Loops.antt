-- ===== src/Base/Loops.antt =====
-- The counting loop `while (test(p)) p += 1;`, which several helpers of the sources run.
use Prim.Native.Nat.{ℕ, zero, suc, ◌+◌, ◌≤◌, ◌<◌}
use mathlib.Core.Path.{◌≡◌, sym, ◌∙◌}
use mathlib.Core.Bool.{Bool, true, false, false≢true}
use mathlib.Core.Option.{Option, none, some}
use native.Mathlib.Decide.{dec_lt}
use native.Mathlib.Nat.{add-zero}
use native.Mathlib.Omega.{arith}
use doomsday_kernel_modules.Base.Tests.{Bool-cases}
use mathlib.Core.Logic.{inl, inr}

-- `none` means that the fuel ran out before the test failed.
unfoldable pub count_up : ℕ → (ℕ → Bool) → ℕ → Option ℕ
count_up zero test p = none
count_up (suc fuel) test p = elim (test p) [ true ↦ count_up fuel test (p + 1) | false ↦ some p ]

-- `q` is where the loop stops: the first number from `p` on at which the test fails.
pub record IsFirst (test : ℕ → Bool) (p q : ℕ) : Type 0 where
  pub from_start : p ≤ q
  pub fails : test q ≡ false
  pub holds_before : (r : ℕ) → p ≤ r → r < q → test r ≡ true

IsFirst-here : (test : ℕ → Bool) (p : ℕ) → test p ≡ false → IsFirst test p p
IsFirst-here test p h = record {
  from_start = omega arith;
  fails = h;
  holds_before = λ r lo hi. absurd (omega arith);
}

IsFirst-step :
    (test : ℕ → Bool) (p q : ℕ) → test p ≡ true → IsFirst test (p + 1) q → IsFirst test p q
IsFirst-step test p q h f = record {
  from_start = omega (arith, f.from_start);
  fails = f.fails;
  holds_before = λ r lo hi. elim (dec_lt p r) [
    | yes lt ↦ f.holds_before r (omega arith) hi
    | no ge ↦ let e : r ≡ p = omega arith in rw e h
  ];
}

-- Enough fuel: if the test fails within `fuel` steps of the start, the loop stops at the first
-- such place.
pub count_up-IsFirst :
    (fuel : ℕ) (test : ℕ → Bool) (p k : ℕ)
    → k < fuel
    → test (p + k) ≡ false
    → (q : ℕ) × (count_up fuel test p ≡ some q) × IsFirst test p q × (q ≤ p + k)
unfolding count_up
count_up-IsFirst zero test p k lt stop = absurd (omega arith)
count_up-IsFirst (suc fuel) test p zero lt stop =
    let h : test p ≡ false = rw add-zero at stop in
    (p, rw (h, count_up), IsFirst-here test p h, omega arith)
count_up-IsFirst (suc fuel) test p (suc k) lt stop = elim (Bool-cases (test p)) [
  | inr h ↦ (p, rw (h, count_up), IsFirst-here test p h, omega arith)
  | inl h ↦
      let e : p + suc k ≡ p + 1 + k = omega arith in
      let (q, run, first, le) = count_up-IsFirst fuel test (p + 1) k (omega arith) (rw e at stop) in
      (q, rw (h, count_up) run, IsFirst-step test p q h first, omega arith)
]

-- Two first places are one.
pub IsFirst-unique : {test : ℕ → Bool} {p q r : ℕ} → IsFirst test p q → IsFirst test p r → q ≡ r
IsFirst-unique {q} {r} a b = elim (dec_lt q r) [
  | yes lt ↦ absurd (false≢true (sym a.fails ∙ b.holds_before q a.from_start lt))
  | no ge ↦ elim (dec_lt r q) [
    | yes lt ↦ absurd (false≢true (sym b.fails ∙ a.holds_before r b.from_start lt))
    | no ge' ↦ omega arith
  ]
]

-- What the loop returns is the first place at which the test fails.
pub count_up_sound :
    (fuel : ℕ) (test : ℕ → Bool) (p : ℕ) {q : ℕ} → count_up fuel test p ≡ some q → IsFirst test p q
unfolding count_up
count_up_sound zero test p e = cc
count_up_sound (suc fuel) test p {q} e = elim (Bool-cases (test p)) [
  | inr h ↦ let e' : p ≡ q = ground arith in rw (← e') (IsFirst-here test p h)
  | inl h ↦ IsFirst-step test p q h (count_up_sound fuel test (p + 1) (rw (h, count_up) at e))
]
