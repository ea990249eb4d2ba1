-- ===== src/Base/Bits.antt =====
-- Bits of bytes, checked over all values, and `x ^ 1` at every number.
use Prim.Native.Nat.{
  ℕ, zero, suc, ◌+◌, ◌-◌, ◌*◌, ◌/◌, ◌%◌, ◌^◌, ◌≤◌, ◌<◌, bit_and, bit_or, bit_xor, digits, differ,
  bit_xor-bitwise,
}
use mathlib.Core.Path.{◌≡◌, refl}
use mathlib.Core.Bool.{Bool, true, false, not}
use native.Mathlib.Decide.{ℕ_discrete}
use native.Mathlib.Omega.{arith}
use doomsday_kernel_modules.Base.Tests.{◌==◌, if◌then◌else◌}

-- `byte & (1 << i)`, `byte | (1 << i)` and `byte & ~(1 << i)`, cut to eight bits as a `uint8_t`.
abbrev pub test_bit : ℕ → ℕ → Bool
test_bit byte i = not (bit_and byte (2 ^ i) == 0)

abbrev pub set_bit : ℕ → ℕ → ℕ
set_bit byte i = bit_or byte (2 ^ i) % 256

abbrev pub clear_bit : ℕ → ℕ → ℕ
clear_bit byte i = bit_and byte (2 ^ 64 - 1 - 2 ^ i) % 256

-- A test of all numbers up to `limit`, from the top down.
up_to : (limit : ℕ) → (ℕ → Bool) → Bool
up_to zero test = test 0
up_to (suc limit) test = if test (suc limit) then up_to limit test else false

up_to_instance :
    (limit : ℕ) (test : ℕ → Bool) → up_to limit test ≡ true → (n : ℕ) → n ≤ limit → test n ≡ true
unfolding up_to
up_to_instance zero test all n le = let e : n ≡ 0 = omega arith in rw e all
up_to_instance (suc limit) test all n le = elim (ℕ_discrete n (suc limit)) [
  | yes e ↦ rw e (ground arith)
  | no ne ↦ up_to_instance limit test (ground arith) n (omega arith)
]

eq_bool : Bool → Bool → Bool
eq_bool true b = b
eq_bool false b = not b

eq_bool_sound : (a b : Bool) → eq_bool a b ≡ true → a ≡ b
unfolding eq_bool
eq_bool_sound true b h = ground arith
eq_bool_sound false b h = ground arith

-- Every byte, every bit that is written, every bit that is read.
over_bits : (ℕ → ℕ → ℕ → Bool) → Bool
over_bits p = up_to 255 λ b. up_to 7 λ i. up_to 7 λ j. p b i j

over_bits_sound :
    (p : ℕ → ℕ → ℕ → Bool) (b i j : ℕ)
    → over_bits p ≡ true
    → b < 256
    → i < 8
    → j < 8
    → p b i j ≡ true
unfolding over_bits
over_bits_sound p b i j h hb hi hj =
    up_to_instance 7 _ (up_to_instance 7 _ (up_to_instance 255 _ h b (omega arith)) i (omega arith))
      j (omega arith)

test-set_table :
    over_bits (λ b i j. eq_bool (test_bit (set_bit b i) j) (if i == j then true else test_bit b j))
    ≡ true
unfolding over_bits up_to eq_bool
test-set_table = refl

test-clear_table :
    over_bits
      (λ b i j. eq_bool (test_bit (clear_bit b i) j) (if i == j then false else test_bit b j))
    ≡ true
unfolding over_bits up_to eq_bool
test-clear_table = refl

module _ (b i j : ℕ) (hb : b < 256) (hi : i < 8) (hj : j < 8) where
  pub test_bit-set_bit : test_bit (set_bit b i) j ≡ (if i == j then true else test_bit b j)
  test_bit-set_bit = eq_bool_sound _ _ (over_bits_sound _ b i j test-set_table hb hi hj)

  pub test_bit-clear_bit : test_bit (clear_bit b i) j ≡ (if i == j then false else test_bit b j)
  test_bit-clear_bit = eq_bool_sound _ _ (over_bits_sound _ b i j test-clear_table hb hi hj)

differ-zero : (d : ℕ) → d < 2 → differ d 0 ≡ d
differ-zero zero h = refl
differ-zero (suc zero) h = refl
differ-zero (suc (suc d)) h = absurd (omega arith)

differ-one : (d : ℕ) → d < 2 → differ d 1 ≡ 1 - d
differ-one zero h = refl
differ-one (suc zero) h = refl
differ-one (suc (suc d)) h = absurd (omega arith)

-- `^` by zero keeps the number, at any fuel that is enough.
digits_xor-zero : (n a : ℕ) → a ≤ n → digits (λ b. b) differ n a 0 ≡ a
digits_xor-zero zero zero h = refl
digits_xor-zero zero (suc a) h = absurd (omega arith)
digits_xor-zero (suc n) zero h = refl
digits_xor-zero (suc n) (suc a) h =
    omega
      (arith, digits_xor-zero n (suc a / 2) (omega arith), differ-zero (suc a % 2) (omega arith))

-- `a ^ 1` changes the lowest digit alone: an even number goes up by one, an odd one down.
pub bit_xor-one : (a : ℕ) → bit_xor a 1 ≡ a + 1 - 2 * (a % 2)
bit_xor-one zero = refl
bit_xor-one (suc a) = simp bit_xor-bitwise (
    omega
      (arith, digits_xor-zero a (suc a / 2) (omega arith), differ-one (suc a % 2) (omega arith)))
