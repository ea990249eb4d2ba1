-- ===== src/NeuroSwap/Tests.antt =====
-- Whole numbers in place of floats, and the theorems at concrete requests and answers of the kernel.
use doomsday_kernel_modules.Base.{
  none, ℕ, ◌+◌, ◌-◌, ◌*◌, ◌/◌, ◌%◌, ◌<◌, ◌≡◌, ◌↔◌, refl, true, false, some, [], ◌∷◌, ◌++◌, length,
  replicate, arith,
}
use doomsday_kernel_modules.NeuroSwap.Float.{Float}
use doomsday_kernel_modules.NeuroSwap.Math.Rows.{concat}
use doomsday_kernel_modules.NeuroSwap.Network.{
  GateWeights, Weights, LstmState, lstm_state_reset, lstm_recall,
}
use doomsday_kernel_modules.NeuroSwap.Userspace.{run_device_tests, read_failed}
use doomsday_kernel_modules.NeuroSwap.Device.{Request, past_end, nswap_queue_rq}
use doomsday_kernel_modules.NeuroSwap.Device.Requests.{nswap_queue_rq-concat}
use doomsday_kernel_modules.NeuroSwap.Module.{Kernel, nswap_init, nswap_exit}
use doomsday_kernel_modules.NeuroSwap.Module.Balance.{held_after, nswap_exit_balanced_iff}

low_byte : (x : ℕ) → x % 256 < 256
low_byte x = omega arith

abbrev whole_numbers : Float
whole_numbers = record {
  F = ℕ;
  D = ℕ;
  nought = 0;
  one = 1;
  full = 255;
  add = λ x y. x + y;
  sub = λ x y. x - y;
  mul = λ x y. x * y;
  div = λ x y. x / y;
  neg = λ x. 0 - x;
  widen = λ x. x;
  narrow = λ x. x;
  whole = λ n. n;
  add_double = λ x y. x + y;
  mul_double = λ x y. x * y;
  div_double = λ x y. x / y;
  of_byte = λ b. b;
  to_byte = λ x. x % 256;
  to_byte_bound = low_byte;
}

abbrev gate_weights : GateWeights ℕ
gate_weights = record { w = replicate 80 1; u = replicate 6400 0; b = replicate 80 2 }

abbrev weights : Weights ℕ
weights = record {
  wi = gate_weights;
  wf = gate_weights;
  wg = gate_weights;
  wo = gate_weights;
  wy = replicate 80 1;
  by = 0 ∷ [];
}

abbrev fresh : LstmState ℕ
fresh = lstm_state_reset whole_numbers weights

-- A read of four bytes in two segments.
abbrev two_segments : Request
two_segments = record { sector = 8; is_write = false; segments = (0 ∷ 0 ∷ 0 ∷ []) ∷ (0 ∷ []) ∷ [] }

request_inside : past_end 65536 two_segments ≡ false
unfolding past_end
request_inside = refl

queue_rq_concat_example :
    (
      (nswap_queue_rq whole_numbers weights 65536 fresh two_segments).lstm,
      concat (nswap_queue_rq whole_numbers weights 65536 fresh two_segments).segments,
    )
    ≡ lstm_recall whole_numbers weights fresh 4
queue_rq_concat_example =
    nswap_queue_rq-concat whole_numbers weights 65536 fresh two_segments request_inside

abbrev willing : Kernel
willing = record {
  registers = true;
  allocates = true;
  tag_set_error = 0;
  disk_error = 0;
  add_disk_error = 0;
}

willing_succeeds : (nswap_init 32 willing).0 ≡ 0
unfolding nswap_init
willing_succeeds = refl

exit_balanced_example :
    (held_after true ((nswap_init 32 willing).1 ++ nswap_exit) ≡ some []) ↔ (true ≡ true)
exit_balanced_example = nswap_exit_balanced_iff 32 willing true willing_succeeds

-- A device that takes all and gives nothing.
device_tests_test :
    run_device_tests {D = ℕ} (λ dev bytes. (some (length bytes), dev)) (λ dev n. (none, dev)) true 0
    ≡ ([], read_failed)
unfolding run_device_tests
device_tests_test = refl
