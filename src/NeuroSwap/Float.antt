-- ===== src/NeuroSwap/Float.antt =====
-- All that neuro-swap/kmodule does with `float` and `double`, as an interface.
use doomsday_kernel_modules.Base.{ℕ, ◌<◌}

pub record Float : Type 1 where
  pub F : Type 0
  pub D : Type 0
  -- 0.0f, 1.0f and 255.0f
  pub nought : F
  pub one : F
  pub full : F
  pub add : F → F → F
  pub sub : F → F → F
  pub mul : F → F → F
  pub div : F → F → F
  pub neg : F → F
  -- `(double)x`, `(float)d`, a whole number as a `double`
  pub widen : F → D
  pub narrow : D → F
  pub whole : ℕ → D
  pub add_double : D → D → D
  pub mul_double : D → D → D
  pub div_double : D → D → D
  -- `(float)b` for a byte, and the conversion to `uint8_t`, which is a byte
  pub of_byte : ℕ → F
  pub to_byte : F → ℕ
  pub to_byte_bound : (x : F) → to_byte x < 256
