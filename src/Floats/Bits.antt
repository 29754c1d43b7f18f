-- ===== src/Floats/Bits.antt =====
-- An instance of `Floats` for tests: a number is its bit pattern, and the operations are those of the
-- naturals, with `clamp` standing for the rounding and clamping to a code of 4 bits.
use herbert_rs.Prelude.{ℕ, ◌+◌, ◌-◌, ◌*◌, ◌%◌, ◌/◌, max, ltb, ◌==◌}
use herbert_rs.Prelude.Int.{ℤ, pos, negsuc}
use herbert_rs.Floats.{Floats}

abbrev magnitude : ℤ → ℕ
magnitude (pos n) = n
magnitude (negsuc n) = n

abbrev pub bit_floats : Floats
bit_floats = record {
  F = ℕ;
  lit = λ n. n;
  of_int = magnitude;
  neg_infinity = 0;
  add = λ a b. a + b;
  sub = λ a b. a - b;
  mul = λ a b. a * b;
  div = λ a b. a / b;
  neg = λ a. a;
  abs = λ a. a;
  exp = λ a. a;
  round = λ a. a;
  fmax = max;
  clamp = λ x lo hi. x % 8;
  lt = ltb;
  feq = λ a b. a == b;
  to_bits = λ a. a;
  from_bits = λ n. n;
  to_i8 = λ a. a;
}
