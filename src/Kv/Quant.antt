-- ===== src/Kv/Quant.antt =====
-- The quantizers of crates/backends/backend_common/src/kv_cache.rs and `f32_to_bf16` and
-- `bf16_to_f32` of crates/core/src/tensor.rs. A mask of k ones, `x & (2^k - 1)`, is written `x % 2 ^ k`,
-- and a shift is a quotient or a product.
pub mod Rounding
pub mod Packing
use Prim.Native.Nat.{bit_or}
use mathlib.Core.List.{foldl}
use herbert_rs.Prelude.{
  ℕ, ◌+◌, ◌*◌, ◌/◌, ◌%◌, ◌^◌, ◌&&◌, ◌||◌, not, Option, List, ◌==◌, if◌then◌else◌, ◌>>=◌, get_elem?,
  for_range, write_at,
}
use herbert_rs.Prelude.Int.{sub_ℕ}
use herbert_rs.Floats.{Floats}

-- `lo | (hi << 4)` on `u8`
unfoldable pub pack_byte : ℕ → ℕ → ℕ
pack_byte lo hi = bit_or lo (hi * 2 ^ 4 % 2 ^ 8)

module _ (f : Floats) where
  open f use {
    F, lit, of_int, mul, div, neg, abs, round, fmax, clamp, feq, to_bits, from_bits, to_i8,
  }

  unfoldable pub max_abs : List F → F
  max_abs xs = foldl (λ a x. fmax a (abs x)) (lit 0) xs

  unfoldable pub compute_int8_scale : List F → F
  compute_int8_scale head =
      if feq (max_abs head) (lit 0) then lit 1 else div (max_abs head) (lit 127)

  unfoldable pub quantize_i8 : F → F → ℕ
  quantize_i8 x scale = to_i8 (clamp (round (div x scale)) (neg (lit 127)) (lit 127))

  unfoldable pub compute_int4_scale : List F → F
  compute_int4_scale group =
      if feq (max_abs group) (lit 0) then lit 1 else div (max_abs group) (lit 7)

  -- `(q + 8) as u8`, on the bit pattern of `q`
  unfoldable pub quantize_i4 : F → F → ℕ
  quantize_i4 x scale = (to_i8 (clamp (round (div x scale)) (neg (lit 8)) (lit 7)) + 8) % 2 ^ 8

  unfoldable pub pack_i4_group : List F → F → List ℕ → Option (List ℕ)
  pack_i4_group src scale dst =
      for_range 16 0
        (λ i d. do
          lo ← get_elem? src i
          hi ← get_elem? src (i + 16)
          write_at d i (pack_byte (quantize_i4 lo scale) (quantize_i4 hi scale)))
        dst

  -- `(byte & 0x0F) as i32 - 8` and `(byte >> 4) as i32 - 8`, scaled
  unfoldable pub low_value : ℕ → F → F
  low_value byte scale = mul (of_int (sub_ℕ (byte % 2 ^ 4) 8)) scale

  unfoldable pub high_value : ℕ → F → F
  high_value byte scale = mul (of_int (sub_ℕ (byte / 2 ^ 4) 8)) scale

  unfoldable pub unpack_i4_group : List ℕ → F → List F → Option (List F)
  unpack_i4_group packed scale dst =
      for_range 16 0
        (λ i d. do
          byte ← get_elem? packed i
          d' ← write_at d i (low_value byte scale)
          write_at d' (i + 16) (high_value byte scale))
        dst

  unfoldable pub f32_to_bf16 : F → ℕ
  f32_to_bf16 x =
      let bits = to_bits x in
      let lsb = bits / 2 ^ 16 % 2 in
      let round_bit = bits / 2 ^ 15 % 2 in
      let sticky = bits % 2 ^ 15 in
      let result = bits / 2 ^ 16 in
      (if round_bit == 1 && (not (sticky == 0) || lsb == 1) then result + 1 else result) % 2 ^ 16

  unfoldable pub bf16_to_f32 : ℕ → F
  bf16_to_f32 bf16 = from_bits (bf16 * 2 ^ 16 % 2 ^ 32)
