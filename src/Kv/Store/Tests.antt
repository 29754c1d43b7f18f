-- ===== src/Kv/Store/Tests.antt =====
-- Runs of the KV store and of the quantizers, and their theorems at them.
use herbert_rs.Prelude.{
  ℕ, ◌+◌, ◌*◌, ◌%◌, ◌^◌, ◌<◌, ◌≤◌, ◌≡◌, refl, false, some, List, [], ◌∷◌, inl, length, arith,
  get_elem?, if◌then◌else◌, ltb, for_range, slice, extend_at, checked_div, write_at,
}
use herbert_rs.Floats.Bits.{bit_floats}
use herbert_rs.Kv
use herbert_rs.Kv.{KvLayerData, KvStore, KvQuantType, int4_num_groups, first_len_div}
use herbert_rs.Kv.Quant.{
  pack_byte, max_abs, compute_int8_scale, quantize_i8, compute_int4_scale, quantize_i4,
  pack_i4_group, low_value, high_value, unpack_i4_group, f32_to_bf16, bf16_to_f32,
}
use herbert_rs.Kv.Quant.Rounding.{f32_to_bf16_nearest, f32_to_bf16-bf16_to_f32, f32_to_bf16_nan}
use herbert_rs.Kv.Quant.Packing.{unpack-pack, value}
use herbert_rs.Kv.Store.{
  tabulate, truncate_at, for_positions, append_f32, append_bf16, append_int8, append_group,
  append_int4, append_layer_data, append, truncate_to,
}
use herbert_rs.Kv.Store.Flat.{truncate_to-append}

program : Unit {0}
unfolding for_range slice extend_at checked_div write_at int4_num_groups first_len_div Kv.cached_len
    Kv.truncate_to pack_byte max_abs compute_int8_scale quantize_i8 compute_int4_scale quantize_i4
    pack_i4_group low_value high_value unpack_i4_group f32_to_bf16 bf16_to_f32 tabulate truncate_at
    for_positions append_f32 append_bf16 append_int8 append_group append_int4 append_layer_data
    append truncate_to
program = tt

-- Two heads of dimension 2, one layer, with one position in the bf16 format.
abbrev layer : KvLayerData ℕ
layer = KvLayerData.bf16 ((1 ∷ 2 ∷ []) ∷ (3 ∷ 4 ∷ []) ∷ []) ((5 ∷ 6 ∷ []) ∷ (7 ∷ 8 ∷ []) ∷ [])

abbrev kv : KvStore ℕ
kv = record {
  kv_quant = KvQuantType.bf16;
  layer_data = layer ∷ [];
  keys = (1 ∷ 2 ∷ 3 ∷ 4 ∷ []) ∷ [];
  values = (5 ∷ 6 ∷ 7 ∷ 8 ∷ []) ∷ [];
  num_kv_heads = 2;
  head_dim = 2;
  seq_len = 1;
  kv_dim = 4;
  text_pos = 1;
  conv_cache = [];
  deltanet_recurrent = [];
  deltanet_conv = [];
  bidirectional = false;
}

-- 1.0, 1.5, a tie that rounds down to an even number, and one that rounds up.
abbrev four : List ℕ
four = 0x3f800000 ∷ 0x3fc00000 ∷ 0x3f808000 ∷ 0x3f818000 ∷ []

appended :
    append_layer_data bit_floats 2 2 layer four four
    ≡ some (
        KvLayerData.bf16
          ((1 ∷ 2 ∷ 0x3f80 ∷ 0x3fc0 ∷ []) ∷ (3 ∷ 4 ∷ 0x3f80 ∷ 0x3f82 ∷ []) ∷ [])
          ((5 ∷ 6 ∷ 0x3f80 ∷ 0x3fc0 ∷ []) ∷ (7 ∷ 8 ∷ 0x3f80 ∷ 0x3f82 ∷ []) ∷ []))
unfolding program
appended = refl

truncate_to-append_example :
    (s' : KvStore ℕ) × (append bit_floats kv 0 four four ≡ some s') × (truncate_to s' 0 1 ≡ some kv)
truncate_to-append_example =
    truncate_to-append bit_floats kv 0 1 1 layer four four refl
      (
        record { heads = refl; lengths = (refl, (refl, tt)) },
        record { heads = refl; lengths = (refl, (refl, tt)) },
      )
      (λ h. record {
        keys_at = 1 ∷ 2 ∷ 3 ∷ 4 ∷ [];
        keys_found = refl;
        keys_length = refl;
        values_at = 5 ∷ 6 ∷ 7 ∷ 8 ∷ [];
        values_found = refl;
        values_length = refl;
      })
      (omega arith) refl refl

-- One head of dimension 32 in 4-bit codes.
abbrev zeros : List ℕ
zeros = 0 ∷ 0 ∷ 0 ∷ 0 ∷ 0 ∷ 0 ∷ 0 ∷ 0 ∷ 0 ∷ 0 ∷ 0 ∷ 0 ∷ 0 ∷ 0 ∷ 0 ∷ 0 ∷ []

abbrev int4_layer : KvLayerData ℕ
int4_layer = KvLayerData.int4 (zeros ∷ []) (zeros ∷ []) ((1 ∷ []) ∷ []) ((1 ∷ []) ∷ [])

int4_positions : Kv.cached_len int4_layer 32 ≡ some 1
unfolding program
int4_positions = refl

f32_to_bf16_nearest_example :
    (f32_to_bf16 bit_floats 0x3f808000 * 2 ^ 16 ≤ 0x3f808000 + 2 ^ 15)
    × (0x3f808000 ≤ f32_to_bf16 bit_floats 0x3f808000 * 2 ^ 16 + 2 ^ 15)
    × (0x3f808000 % 2 ^ 16 ≡ 2 ^ 15 → f32_to_bf16 bit_floats 0x3f808000 % 2 ≡ 0)
f32_to_bf16_nearest_example = f32_to_bf16_nearest bit_floats 0x3f808000 (omega arith)

f32_to_bf16-bf16_to_f32_example : f32_to_bf16 bit_floats (bf16_to_f32 bit_floats 0x3f81) ≡ 0x3f81
f32_to_bf16-bf16_to_f32_example =
    f32_to_bf16-bf16_to_f32 bit_floats (λ n h. refl) 0x3f81 (omega arith)

f32_to_bf16_nan_example :
    f32_to_bf16 bit_floats 0x7fffffff ≡ (if ltb 0x7fffffff (2 ^ 31) then 0x8000 else 0)
f32_to_bf16_nan_example = f32_to_bf16_nan bit_floats 0x7fffffff (omega arith) (omega arith)

abbrev group : List ℕ
group = tabulate 32 0 (λ i. i)

unpack-pack_example :
    (packed vals : List ℕ) × (pack_i4_group bit_floats group 1 (tabulate 16 0 (λ i. i))
      ≡ some packed)
    × (unpack_i4_group bit_floats packed 1 group ≡ some vals)
    × (length vals ≡ length group)
    × ((i : ℕ) → i < 32 → get_elem? vals i ≡ some (value bit_floats group 1 i))
unfolding program
unpack-pack_example =
    unpack-pack bit_floats (λ x. inl (omega arith)) group 1 (tabulate 16 0 (λ i. i)) group
      (omega arith) (omega arith) (omega arith)
