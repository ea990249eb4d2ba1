-- ===== src/NeuroSwap/Userspace.antt =====
-- neuro-swap/kmodule/umain.c, the program that tries the network, by direct calls and through /dev/nswap. Its
-- system calls are parameters; what it prints for a test is the pair of the two sequences.
use doomsday_kernel_modules.Base.{
  ℕ, Bool, Option, none, some, List, [], ◌∷◌, length, ◌==◌, if◌then◌else◌,
}
use doomsday_kernel_modules.NeuroSwap.Float.{Float}
use doomsday_kernel_modules.NeuroSwap.Network.{
  Weights, lstm_memorize, lstm_recall, lstm_state_reset,
}

abbrev pub test_seq_len : ℕ
test_seq_len = 5

abbrev pub tests : List (List ℕ)
tests =
    (100 ∷ 80 ∷ 60 ∷ 40 ∷ 20 ∷ [])
    ∷ (100 ∷ 20 ∷ 80 ∷ 40 ∷ 20 ∷ [])
    ∷ (100 ∷ 40 ∷ 100 ∷ 40 ∷ 100 ∷ [])
    ∷ (1 ∷ 2 ∷ 3 ∷ 4 ∷ 5 ∷ [])
    ∷ (5 ∷ 4 ∷ 3 ∷ 2 ∷ 1 ∷ [])
    ∷ []

module _ (float : Float) (weights : Weights float.F) where
  -- One test through the calls: the network is reset, and has to recall the sequence.
  unfoldable pub direct_test : List ℕ → List ℕ × List ℕ
  direct_test input =
      let state = lstm_memorize float weights (lstm_state_reset float weights) input in
      (input, (lstm_recall float weights state test_seq_len).1)

  unfoldable pub direct_tests : List (List ℕ) → List (List ℕ × List ℕ)
  unfolding direct_test
  direct_tests [] = []
  direct_tests (input ∷ rest) = direct_test input ∷ direct_tests rest

  unfoldable pub run_userspace_tests : List (List ℕ × List ℕ)
  unfolding direct_tests
  run_userspace_tests = direct_tests tests

-- How the tests through the device end: without the device, with a call that fails or is short, or after
-- the file is closed.
pub data Ended : Type 0 where
  not_opened write_failed read_failed closed : Ended

-- `write` gives the number of bytes that it takes and `read` the bytes that it gets, or `none` for -1.
module _ {D : Type 0} (write : D → List ℕ → Option ℕ × D) (read : D → ℕ → Option (List ℕ) × D) where
  unfoldable pub device_tests : List (List ℕ) → D → List (List ℕ × List ℕ) × Ended
  device_tests [] dev = ([], closed)
  device_tests (input ∷ rest) dev =
      let (written, dev₁) = write dev input in
      let (got, dev₂) = read dev₁ test_seq_len in
      let (reports, ended) = device_tests rest dev₂ in
      let after_write : List (List ℕ × List ℕ) × Ended = elim got [
        | none ↦ ([], read_failed)
        | some out_seq ↦
            if length out_seq == test_seq_len
            then ((input, out_seq) ∷ reports, ended)
            else ([], read_failed)
      ] in
      elim written [
        | none ↦ ([], write_failed)
        | some ret ↦ if ret == test_seq_len then after_write else ([], write_failed)
      ]

  unfoldable pub run_device_tests : Bool → D → List (List ℕ × List ℕ) × Ended
  unfolding device_tests
  run_device_tests opened dev = if opened then device_tests tests dev else ([], not_opened)
