-- ===== src/Kv/Quant/Rounding.antt =====
-- `f32_to_bf16` and `bf16_to_f32` of crates/core/src/tensor.rs, on bit patterns.
use herbert_rs.Prelude.{
  ℕ, ◌+◌, ◌*◌, ◌/◌, ◌%◌, ◌^◌, ◌≤◌, ◌<◌, ◌≡◌, arith, ltb, if◌then◌else◌, Bool-cases, inl, inr,
  ltb→lt, ltb-false,
}
use herbert_rs.Floats.{Floats}
use herbert_rs.Kv.Quant.{f32_to_bf16, bf16_to_f32}

module _ (f : Floats) where
  open f use {F, to_bits, from_bits}

  -- The branches of `f32_to_bf16` compute one addition: half a unit, less one where the upper half
  -- is even, carries into the upper 16 bits exactly when they round up. So ties go to even.
  pub f32_to_bf16-add :
      (x : F) → f32_to_bf16 f x ≡ (to_bits x + 0x7fff + to_bits x / 2 ^ 16 % 2) / 2 ^ 16 % 2 ^ 16
  unfolding f32_to_bf16
  f32_to_bf16-add x = ground arith

  -- The rounding error is at most half a unit in the last place kept, unless the rounding carries out of
  -- the 16 bits, and on a tie the result is even.
  pub f32_to_bf16_nearest :
      (x : F)
      → to_bits x < 0xffff * 2 ^ 16 + 2 ^ 15
      → (f32_to_bf16 f x * 2 ^ 16 ≤ to_bits x + 2 ^ 15)
        × (to_bits x ≤ f32_to_bf16 f x * 2 ^ 16 + 2 ^ 15)
        × (to_bits x % 2 ^ 16 ≡ 2 ^ 15 → f32_to_bf16 f x % 2 ≡ 0)
  f32_to_bf16_nearest x h = omega (arith, f32_to_bf16-add x)

  -- Widening and rounding again is the identity on 16 bits, given that `to_bits` reads back what
  -- `from_bits` was given.
  pub f32_to_bf16-bf16_to_f32 :
      ((n : ℕ) → n < 2 ^ 32 → to_bits (from_bits n) ≡ n)
      → (b : ℕ) → b < 2 ^ 16
      → f32_to_bf16 f (bf16_to_f32 f b) ≡ b
  unfolding bf16_to_f32
  f32_to_bf16-bf16_to_f32 exact b h = omega (
    arith,
    f32_to_bf16-add (from_bits (b * 2 ^ 16 % 2 ^ 32)),
    exact (b * 2 ^ 16 % 2 ^ 32) (omega arith),
  )

  -- A NaN whose upper mantissa bits are all ones, with the rounding bit set, becomes a zero: the carry
  -- runs through the exponent into the sign bit, and out of it.
  pub f32_to_bf16_nan :
      (x : F)
      → to_bits x < 2 ^ 32
      → 0x7fff8000 ≤ to_bits x % 2 ^ 31
      → f32_to_bf16 f x ≡ (if ltb (to_bits x) (2 ^ 31) then 0x8000 else 0)
  f32_to_bf16_nan x h k = elim (Bool-cases (ltb (to_bits x) (2 ^ 31))) [
    | inl plus ↦ rw plus (omega (arith, f32_to_bf16-add x, ltb→lt _ _ plus))
    | inr minus ↦ rw minus (omega (arith, f32_to_bf16-add x, ltb-false _ _ minus))
  ]
