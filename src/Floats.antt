-- ===== src/Floats.antt =====
-- The `f32` of the source. There are no floating-point numbers here: a development over a value of
-- this record holds for every arithmetic with these operations, the IEEE one among them. The laws
-- a theorem needs are hypotheses of that theorem.
pub mod Bits
use herbert_rs.Prelude.{ℕ, Bool}
use herbert_rs.Prelude.Int.{ℤ}

pub record Floats : Type 1 where
  pub F : Type 0
  -- `0.0`, `127.0` and the like, and an `i32` or `i8` cast by `as f32`
  pub lit : ℕ → F
  pub of_int : ℤ → F
  pub neg_infinity : F
  pub add : F → F → F
  pub sub : F → F → F
  pub mul : F → F → F
  pub div : F → F → F
  pub neg : F → F
  pub abs : F → F
  pub exp : F → F
  pub round : F → F
  -- `x.max(y)` and `x.clamp(lo, hi)`
  pub fmax : F → F → F
  pub clamp : F → F → F → F
  -- `x < y` and `x == y`: no NaN is less than or equal to a number
  pub lt : F → F → Bool
  pub feq : F → F → Bool
  -- the bit pattern, and the saturating cast `x as i8` as a byte in two's complement
  pub to_bits : F → ℕ
  pub from_bits : ℕ → F
  pub to_i8 : F → ℕ
