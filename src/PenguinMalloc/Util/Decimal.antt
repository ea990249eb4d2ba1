-- ===== src/PenguinMalloc/Util/Decimal.antt =====
-- `itos` of util.c: what it writes is the decimal text of the number.
use mathlib.Core.Option
use native.Mathlib.Nat.{
  pow-suc, div-div-eq-div-mul, one-le-pow, le-div_iff_mul-le, div-eq_of_lt, suc-ne-zero,
}
use native.Mathlib.Numerals.{add-one}
use doomsday_kernel_modules.Base.{
  ℕ, zero, suc, ◌+◌, ◌-◌, ◌*◌, ◌/◌, ◌%◌, ◌^◌, ◌≤◌, ◌<◌, true, false, ◌≡◌, refl, ap, ◌∙◌, sym, some,
  List, [], ◌∷◌, length, ◌==◌, ==_of_ne, if◌then◌else◌, arith, dec_le, leb,
}
use doomsday_kernel_modules.PenguinMalloc.Util.{denum_loop, digit_loop, itos}

-- Reads decimal digits up to the closing zero, behind a number that is already read.
abbrev pub read_decimal : ℕ → List ℕ → ℕ
read_decimal acc [] = acc
read_decimal acc (c ∷ str) = if c == 0 then acc else read_decimal (acc * 10 + (c - b'0')) str

-- Decimal digits, and then a closing zero at the end of the text.
abbrev pub IsDecimal : List ℕ → Type 0
IsDecimal [] = ⊥
IsDecimal (c ∷ []) = c ≡ 0
IsDecimal (c ∷ d ∷ str) = (b'0' ≤ c) × (c ≤ b'9') × IsDecimal (d ∷ str)

IsDecimal-cons : (c : ℕ) (str : List ℕ) → b'0' ≤ c → c ≤ b'9' → IsDecimal str → IsDecimal (c ∷ str)
IsDecimal-cons c [] low high text = elim text [ ]
IsDecimal-cons c (d ∷ str) low high text = (low, high, text)

-- From the denominator `10^k` on the loop writes `k + 1` digits and the closing zero, and these
-- read as the number behind what stands to their left.
record Written (num k : ℕ) (str : List ℕ) : Type 0 where
  size : length str ≡ k + 2
  decimal : IsDecimal str
  value : read_decimal (num / 10 ^ (k + 1)) str ≡ num

digit_loop_end : (fuel num : ℕ) → digit_loop (suc fuel) num 0 ≡ some (0 ∷ [])
unfolding digit_loop
digit_loop_end fuel num = refl

digit_loop_step :
    (fuel num d e : ℕ) {str : List ℕ}
    → 0 < d
    → d / 10 ≡ e
    → digit_loop fuel num e ≡ some str
    → digit_loop (suc fuel) num d ≡ some ((num / d % 10 + b'0') ∷ str)
unfolding digit_loop
digit_loop_step fuel num d e pos quotient run =
    let test : (d == 0) ≡ false = ground arith in rw (test, quotient, run, Option.map)

read_decimal_digit :
    (q : ℕ) (str : List ℕ) → read_decimal (q / 10) ((q % 10 + b'0') ∷ str) ≡ read_decimal q str
read_decimal_digit q str =
    let test : ((q % 10 + b'0') == 0) ≡ false = ground arith in
    rw test (ap (λ acc. read_decimal acc str) (omega arith))

div_pow_suc : (num k : ℕ) → num / 10 ^ k / 10 ≡ num / 10 ^ (k + 1)
div_pow_suc num k = rw (add-one, pow-suc) (div-div-eq-div-mul num (10 ^ k) 10)

digit_loop-Written :
    (fuel num k : ℕ)
    → k + 1 < fuel
    → (str : List ℕ) × (digit_loop fuel num (10 ^ k) ≡ some str) × Written num k str
digit_loop-Written zero num k lt = absurd (omega arith)
digit_loop-Written (suc zero) num k lt = absurd (omega arith)
digit_loop-Written (suc (suc fuel)) num zero lt = (
  (num / 1 % 10 + b'0') ∷ 0 ∷ [],
  digit_loop_step (suc fuel) num 1 0 (omega arith) refl (digit_loop_end fuel num),
  record {
    size = omega arith;
    decimal = (omega arith, omega arith, refl);
    value =
        ap (λ acc. read_decimal acc ((num / 1 % 10 + b'0') ∷ 0 ∷ [])) (omega arith)
        ∙ read_decimal_digit (num / 1) (0 ∷ [])
        ∙ omega arith;
  },
)
digit_loop-Written (suc fuel) num (suc k) lt =
    let (str, run, w) = digit_loop-Written fuel num k (omega arith) in
    (
      (num / 10 ^ suc k % 10 + b'0') ∷ str,
      digit_loop_step fuel num (10 ^ suc k) (10 ^ k) (one-le-pow (suc k) 10 (omega arith))
          (omega (arith, pow-suc 10 k)) run,
      record {
        size = omega (arith, w.size);
        decimal = IsDecimal-cons _ str (omega arith) (omega arith) w.decimal;
        value = rw (← div_pow_suc num (suc k)) (
            read_decimal_digit (num / 10 ^ suc k) str
            ∙ ap (λ e. read_decimal (num / 10 ^ e) str) (sym (add-one k))
            ∙ w.value);
      },
    )

-- The denominator at which `itos` starts to print.
record IsTop (num k : ℕ) : Type 0 where
  lower : 10 ^ k ≤ num
  upper : num < 10 ^ (k + 1)
  short : k ≤ 9

-- A positive `uint32_t` stays below 10^10, so the product by 10 does not wrap before it stops.
denum_loop-IsTop :
    (fuel num k : ℕ)
    → num < 2 ^ 32
    → k + fuel ≡ 10
    → 10 ^ k ≤ num
    → (j : ℕ) × (denum_loop fuel num (10 ^ k) ≡ some (10 ^ j)) × IsTop num j
unfolding denum_loop
denum_loop-IsTop zero num k small sum low =
    let e : k ≡ 10 = omega arith in absurd (omega (arith, rw e at low))
denum_loop-IsTop (suc fuel) num k small sum low = elim (dec_le (10 * 10 ^ k) num) [
  | yes le ↦
      let test : leb 10 (num / 10 ^ k) ≡ true =
        ground (arith, (le-div_iff_mul-le {x = 10} {y = num} pos).1 le) in
      let next : 10 ^ k * 10 % 2 ^ 32 ≡ 10 ^ suc k = omega (arith, pow-suc 10 k) in
      let (j, run, top) =
        denum_loop-IsTop fuel num (suc k) small (omega arith) (omega (arith, pow-suc 10 k)) in
      (j, rw test (ap (denum_loop fuel num) next ∙ run), top)
  | no gt ↦
      let test : leb 10 (num / 10 ^ k) ≡ false =
        ground (arith, (le-div_iff_mul-le {x = 10} {y = num} pos).0) in
      (
        k,
        rw test,
        record { lower = low; upper = rw (add-one, pow-suc) (omega arith); short = omega arith },
      )
]
  where
    pos : 0 < 10 ^ k
    pos = one-le-pow k 10 (omega arith)

-- For every `uint32_t` the loops of `itos` end, and write at most ten decimal digits, which read as the
-- number, and a closing zero behind them.
pub itos-IsDecimal :
    (num : ℕ)
    → num < 2 ^ 32
    → (str : List ℕ) × (itos num ≡ some str)
      × IsDecimal str
      × (read_decimal 0 str ≡ num)
      × (length str ≤ 11)
unfolding itos
itos-IsDecimal zero small =
    (b'0' ∷ 0 ∷ [], refl, (omega arith, omega arith, refl), refl, omega arith)
itos-IsDecimal (suc n) small =
    let (j, top_run, top) = denum_loop-IsTop 10 (suc n) 0 small refl (omega arith) in
    let (str, run, w) = digit_loop-Written 11 (suc n) j (omega (arith, top.short)) in
    let left : suc n / 10 ^ (j + 1) ≡ 0 = div-eq_of_lt top.upper in
    (
      str,
      rw (==_of_ne (suc-ne-zero n)) (rw top_run run),
      w.decimal,
      (rw left at w.value),
      omega (arith, w.size, top.short),
    )
