-- ===== src/NeuroSwap/Network.antt =====
-- neuro-swap/kmodule/inference.c: the state of the network, one step of it, and the two ways to run it over
-- bytes. The arrays of the generated weights.h are a parameter.
pub mod Runs
use doomsday_kernel_modules.Base.{
  ℕ, zero, suc, ◌+◌, ◌*◌, ◌≡◌, List, [], ◌∷◌, map, length, get_or, replicate,
}
use doomsday_kernel_modules.NeuroSwap.Float.{Float}
use doomsday_kernel_modules.NeuroSwap.Math.{build, ktanhf, sigmoid, matvec, vec_add}

abbrev pub input_size : ℕ
input_size = 1

abbrev pub hidden_size : ℕ
hidden_size = 80

abbrev pub output_size : ℕ
output_size = 1

-- `LSTMState`
pub record LstmState (A : Type 0) : Type 0 where
  pub h : List A
  pub c : List A

-- The arrays for one gate: for the input, for the hidden state, and the bias.
pub record GateWeights (A : Type 0) : Type 0 where
  pub w : List A
  pub u : List A
  pub b : List A

-- The arrays of weights.h: the gates i, f, g and o, and the output.
pub record Weights (A : Type 0) : Type 0 where
  pub wi : GateWeights A
  pub wf : GateWeights A
  pub wg : GateWeights A
  pub wo : GateWeights A
  pub wy : List A
  pub by : List A

module _ (float : Float) (weights : Weights float.F) where
  open float use {F, nought, full, add, mul, div, of_byte, to_byte}

  -- `matvec`, `matvec`, `vec_add`, `vec_add` and the loop that applies the function to each element.
  unfoldable pub gate : (F → F) → GateWeights F → List F → List F → List F
  gate act g x h =
      let in_part = matvec float g.w x hidden_size input_size in
      let tmp = matvec float g.u h hidden_size hidden_size in
      map act (vec_add float (vec_add float in_part tmp hidden_size) g.b hidden_size)

  -- The new state, and what is written to `y` where that is not NULL.
  unfoldable pub lstm_step : LstmState F → List F → LstmState F × List F
  unfolding gate
  lstm_step s x =
      let gi = gate (sigmoid float) weights.wi x s.h in
      let gf = gate (sigmoid float) weights.wf x s.h in
      let gg = gate (ktanhf float) weights.wg x s.h in
      let go = gate (sigmoid float) weights.wo x s.h in
      let c = build hidden_size 0 λ i.
        add (mul (get_or gf i nought) (get_or s.c i nought))
          (mul (get_or gi i nought) (get_or gg i nought)) in
      let h =
        build hidden_size 0 λ i. mul (get_or go i nought) (ktanhf float (get_or c i nought)) in
      let y =
        vec_add float (matvec float weights.wy h output_size hidden_size) weights.by output_size in
      (record { h = h; c = c }, y)

  unfoldable pub lstm_memorize : LstmState F → List ℕ → LstmState F
  unfolding lstm_step
  lstm_memorize s [] = s
  lstm_memorize s (byte ∷ seq) = lstm_memorize (lstm_step s (div (of_byte byte) full ∷ [])).0 seq

  -- The new state, and the bytes that are written.
  unfoldable pub lstm_recall : LstmState F → ℕ → LstmState F × List ℕ
  unfolding lstm_step
  lstm_recall s zero = (s, [])
  lstm_recall s (suc len) =
      let (s', out) = lstm_step s (replicate input_size nought) in
      let (end, seq) = lstm_recall s' len in (end, to_byte (mul (get_or out 0 nought) full) ∷ seq)

  unfoldable pub lstm_state_reset : LstmState F
  lstm_state_reset = record { h = replicate hidden_size nought; c = replicate hidden_size nought }

unfoldable pub lstm_state_copy : {A : Type 0} → LstmState A → LstmState A
lstm_state_copy src = src
