-- ===== src/PenguinMalloc/Config.antt =====
-- penguin_malloc/src/config.h: the constants of the build, and `size_t`, which has 64 bits.
use doomsday_kernel_modules.Base.{
  ℕ, ◌+◌, ◌-◌, ◌*◌, ◌/◌, ◌%◌, ◌^◌, ◌<◌, ◌≡◌, refl, true, arith, ltb, if◌then◌else◌,
}

abbrev pub size_mod : ℕ
size_mod = 2 ^ 64

abbrev pub page_size : ℕ
page_size = 4096

abbrev pub slab_min_cache_pages : ℕ
slab_min_cache_pages = 8

abbrev pub slab_min_cache_objects : ℕ
slab_min_cache_objects = 8

abbrev pub penguin_malloc_slabs : ℕ
penguin_malloc_slabs = 8

abbrev pub penguin_malloc_min_slab_size : ℕ
penguin_malloc_min_slab_size = 16

-- `sizeof` of a pointer or a `size_t`.
abbrev pub word_size : ℕ
word_size = 8

-- `size_t` sums, differences and products wrap; `-` on ℕ stops at 0, so the modulus goes first.
abbrev pub add_size : ℕ → ℕ → ℕ
add_size a b = (a + b) % size_mod

abbrev pub sub_size : ℕ → ℕ → ℕ
sub_size a b = (a + size_mod - b) % size_mod

abbrev pub mul_size : ℕ → ℕ → ℕ
mul_size a b = a * b % size_mod

-- An `int` of 32 bits, by the number below 2^32 with the same bits: the conversion from `size_t`, the one to
-- `size_t`, and the division by 2, which rounds to 0.
unfoldable pub to_int : ℕ → ℕ
to_int n = n % 2 ^ 32

unfoldable pub int_to_size : ℕ → ℕ
int_to_size i = if ltb i (2 ^ 31) then i else i + (2 ^ 64 - 2 ^ 32)

unfoldable pub half_int : ℕ → ℕ
half_int i = if ltb i (2 ^ 31) then i / 2 else (2 ^ 32 - (2 ^ 32 - i) / 2) % 2 ^ 32

pub to_int_small : (n : ℕ) → n < 2 ^ 31 → to_int n ≡ n
unfolding to_int
to_int_small n small = omega arith

pub int_to_size_small : (i : ℕ) → i < 2 ^ 31 → int_to_size i ≡ i
unfolding int_to_size
int_to_size_small i small = ground arith

pub half_int_small : (i : ℕ) → i < 2 ^ 31 → half_int i ≡ i / 2
unfolding half_int
half_int_small i small = let test : ltb i (2 ^ 31) ≡ true = ground arith in rw test refl
