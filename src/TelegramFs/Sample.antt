-- ===== src/TelegramFs/Sample.antt =====
-- A kernel for the module tgfs that is a concrete function.
use doomsday_kernel_modules.Base.{
  split_at, split_at_found, split_at_last, ℕ, zero, suc, ◌+◌, ◌-◌, ◌*◌, ◌/◌, ◌%◌, ◌<◌, ◌≡◌, refl,
  Bool, true, false, ◌&&◌, Option, none, some, List, [], ◌∷◌, ◌++◌, arith, ltb, leb, ◌==◌,
  if◌then◌else◌, take,
}
use doomsday_kernel_modules.TelegramFs.Kernel.{Kernel, ℤ, pos, negsuc}

-- A number of any size in decimal; the first argument bounds the number of its digits.
abbrev pub show_decimal : ℕ → ℕ → List ℕ
show_decimal zero n = []
show_decimal (suc fuel) n =
    let front = show_decimal fuel (n / 10) in
    if ltb n 10 then ((48 + n) ∷ []) else (front ++ ((48 + n % 10) ∷ []))

abbrev read_digits : ℕ → List ℕ → Option ℕ
read_digits acc [] = some acc
read_digits acc (c ∷ text) =
    let rest = read_digits (acc * 10 + (c - 48)) text in if leb 48 c && leb c 57 then rest else none

abbrev signed : Bool → Option ℕ → Option ℤ
signed minus none = none
signed false (some n) = some (pos n)
signed true (some zero) = some (pos 0)
signed true (some (suc n)) = some (negsuc n)

abbrev pub read_int : List ℕ → Option ℤ
read_int [] = none
read_int (c ∷ text) =
    if c == b'-' then signed true (read_digits 0 text) else signed false (read_digits 0 (c ∷ text))

pub read_int_digit : (n : ℕ) → n < 10 → read_int ((48 + n) ∷ []) ≡ some (pos n)
read_int_digit n h =
    let not_minus : (48 + n == 45) ≡ false = ground arith in
    let above : leb 48 (48 + n) ≡ true = ground arith in
    let below : leb (48 + n) 57 ≡ true = ground arith in
    let value : 0 + (48 + n - 48) ≡ n = omega arith in rw (not_minus, above, below, value)

pub show_decimal_digit : (n : ℕ) → n < 10 → show_decimal (suc n) n ≡ (48 + n) ∷ []
show_decimal_digit n h = ground arith

abbrev pub sample_kernel : Kernel
sample_kernel = record {
  scnprintf = λ size text. take (size - 1) text;
  scnprintf_cuts = λ size text. refl;
  show_int = λ n. show_decimal (suc n) n;
  kstrtoint_digit = read_int_digit;
  show_int_digit = show_decimal_digit;
  strscpy = λ size text. take (size - 1) text;
  strscpy_cuts = λ size text. refl;
  strsep = split_at;
  strsep_found = split_at_found;
  strsep_last = split_at_last;
  kstrtoint = read_int;
}
