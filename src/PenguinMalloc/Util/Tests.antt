-- ===== src/PenguinMalloc/Util/Tests.antt =====
-- The helpers of util.c at the inputs of their tests, and the theorems at inputs that meet their
-- hypotheses.
use doomsday_kernel_modules.Base.{
  ℕ, ◌+◌, ◌%◌, ◌^◌, ◌≤◌, ◌<◌, ◌≡◌, refl, some, none, List, [], ◌∷◌, arith, length,
}
use doomsday_kernel_modules.PenguinMalloc.Util.{
  align_addr_to_page_size_up, align_addr_to_page_size_down, min_upper_power_of_2,
  max_lower_power_of_2, log2_upper, log2_lower, dist, strlen, itos,
}
use doomsday_kernel_modules.PenguinMalloc.Util.Align.{
  align_addr_to_page_size_up_next, align_addr_to_page_size_down_page, dist_add,
}
use doomsday_kernel_modules.PenguinMalloc.Util.Decimal.{read_decimal, IsDecimal, itos-IsDecimal}

-- The cases of penguin_malloc/tests/util_test.cpp.
powers_228 :
    (max_lower_power_of_2 228 ≡ some 128)
    × (min_upper_power_of_2 228 ≡ some 256)
    × (log2_lower 228 ≡ some 7)
    × (log2_upper 228 ≡ some 8)
unfolding max_lower_power_of_2 min_upper_power_of_2 log2_lower log2_upper
powers_228 = (refl, refl, refl, refl)

too_large : (log2_upper (2 ^ 63 + 1) ≡ none) × (log2_lower (2 ^ 63) ≡ none)
unfolding log2_lower log2_upper
too_large = (refl, refl)

strlen_abc : strlen (b'a' ∷ b'b' ∷ b'c' ∷ 0 ∷ 7 ∷ []) ≡ some 3
unfolding strlen
strlen_abc = refl

itos_4096 : itos 4096 ≡ some (b'4' ∷ b'0' ∷ b'9' ∷ b'6' ∷ 0 ∷ [])
unfolding itos
itos_4096 = refl

align_up_example :
    (align_addr_to_page_size_up 8192 % 4096 ≡ 0)
    × (8192 < align_addr_to_page_size_up 8192)
    × (align_addr_to_page_size_up 8192 ≤ 8192 + 4096)
align_up_example = align_addr_to_page_size_up_next 8192 (omega arith)

align_down_example :
    (align_addr_to_page_size_down 8200 % 4096 ≡ 0)
    × (align_addr_to_page_size_down 8200 ≤ 8200)
    × (8200 < align_addr_to_page_size_down 8200 + 4096)
align_down_example = align_addr_to_page_size_down_page 8200

dist_example : (dist 9 4 ≡ dist 4 9) × (4 + dist 9 4 ≡ 9)
dist_example = dist_add 9 4

itos_example :
    (str : List ℕ) × (itos 4096 ≡ some str)
    × IsDecimal str
    × (read_decimal 0 str ≡ 4096)
    × (length str ≤ 11)
itos_example = itos-IsDecimal 4096 (omega arith)
