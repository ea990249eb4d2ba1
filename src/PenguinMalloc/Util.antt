-- ===== src/PenguinMalloc/Util.antt =====
-- penguin_malloc/src/util.c. Addresses and sizes are numbers below 2 ^ 64. A shift of `1ull` by 64
-- or more is undefined in C: the loops over powers of two return `none` there.
pub mod Align
pub mod Decimal
pub mod Powers
mod Tests
use mathlib.Core.Option
use doomsday_kernel_modules.Base.{
  ℕ, zero, suc, ◌+◌, ◌-◌, ◌*◌, ◌/◌, ◌%◌, ◌^◌, Bool, true, false, Option, none, some, List, [], ◌∷◌,
  ltb, leb, ◌==◌, if◌then◌else◌, count_up,
}
use doomsday_kernel_modules.PenguinMalloc.Config.{page_size, add_size, sub_size}

pub align_addr_to_page_size_up : ℕ → ℕ
align_addr_to_page_size_up ptr = add_size ptr (page_size - ptr % page_size)

pub align_addr_to_page_size_down : ℕ → ℕ
align_addr_to_page_size_down ptr = ptr - ptr % page_size

pub align_size_to_page_size_up : ℕ → ℕ
align_size_to_page_size_up ptr = add_size ptr (page_size - ptr % page_size)

pub align_size_to_page_size_down : ℕ → ℕ
align_size_to_page_size_down ptr = ptr - ptr % page_size

-- Each runs `while ((1ull << p) < size) p += 1;`.
unfoldable pub min_upper_power_of_2 : ℕ → Option ℕ
unfolding count_up
min_upper_power_of_2 size = Option.map (λ p. 2 ^ p) (count_up 64 (λ p. ltb (2 ^ p) size) 0)

unfoldable pub log2_upper : ℕ → Option ℕ
unfolding count_up
log2_upper size = count_up 64 (λ p. ltb (2 ^ p) size) 0

-- Each runs `while ((1ull << (p + 1)) <= size) p += 1;`.
unfoldable pub max_lower_power_of_2 : ℕ → Option ℕ
unfolding count_up
max_lower_power_of_2 size = Option.map (λ p. 2 ^ p) (count_up 63 (λ p. leb (2 ^ (p + 1)) size) 0)

unfoldable pub log2_lower : ℕ → Option ℕ
unfolding count_up
log2_lower size = count_up 63 (λ p. leb (2 ^ (p + 1)) size) 0

-- `(end - begin) / PAGE_SIZE` on the aligned addresses. The difference of two pointers is signed
-- and its quotient is cut towards zero, then read as a `size_t`.
unfoldable pub pages_count : ℕ → ℕ → ℕ
unfolding align_addr_to_page_size_up align_addr_to_page_size_down
pages_count begin end =
    let b = align_addr_to_page_size_up begin in
    let e = align_addr_to_page_size_down end in
    if leb b e then (e - b) / page_size else sub_size 0 ((b - e) / page_size)

pub dist : ℕ → ℕ → ℕ
dist ptr1 ptr2 = if ltb ptr2 ptr1 then ptr1 - ptr2 else ptr2 - ptr1

-- The index of the first zero byte; `none` is a read past the end of the array.
pub strlen : List ℕ → Option ℕ
strlen [] = none
strlen (c ∷ str) = if c == 0 then some 0 else Option.map suc (strlen str)

-- `while (num / denum >= 10) denum *= 10;` on `uint32_t`; `none` means that the fuel ran out.
pub denum_loop : ℕ → ℕ → ℕ → Option ℕ
denum_loop zero num denum = none
denum_loop (suc fuel) num denum =
    let rest = denum_loop fuel num (denum * 10 % 2 ^ 32) in
    if leb 10 (num / denum) then rest else some denum

-- The bytes that `while (denum != 0) { ... }` and the final `str[i] = 0` write, in order.
pub digit_loop : ℕ → ℕ → ℕ → Option (List ℕ)
digit_loop zero num denum = none
digit_loop (suc fuel) num denum =
    let rest =
      Option.map (λ str. (num / denum % 10 + b'0') ∷ str) (digit_loop fuel num (denum / 10)) in
    if denum == 0 then some (0 ∷ []) else rest

-- What `itos` writes to `str`, its closing zero included.
pub itos : ℕ → Option (List ℕ)
unfolding denum_loop digit_loop
itos num =
    if num == 0
    then some (b'0' ∷ 0 ∷ [])
    else elim (denum_loop 10 num 1) [ none ↦ none | some denum ↦ digit_loop 11 num denum ]
