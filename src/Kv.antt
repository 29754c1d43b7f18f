-- ===== src/Kv.antt =====
-- crates/backends/backend_common/src/kv_cache.rs: the data of a KV cache, its size in bytes, its
-- snapshots. A `Vec` is a list, and so is a `HugeVec`, which only changes where the memory comes
-- from. A `u16`, `u8` or `i8` is the number of its bit pattern. Panics are `none`.
pub mod Quant
pub mod Snapshot
pub mod Store
use herbert_rs.Prelude.{
  ℕ, zero, suc, ◌+◌, ◌*◌, ◌/◌, Bool, true, false, Option, none, some, List, [], ◌∷◌, ◌++◌, map,
  length, take, replicate, ◌==◌, ltb, if◌then◌else◌, checked_div, ◌>>=◌,
}

pub data KvQuantType : Type 0 where
  f32 bf16 int8 int4 : KvQuantType

pub data KvLayerData (F : Type 0) : Type 0 where
  -- keys per head, values per head
  f32 : List (List F) → List (List F) → KvLayerData F
  bf16 : List (List ℕ) → List (List ℕ) → KvLayerData F
  -- keys per head, values per head, scales of the keys, scales of the values
  int8 : List (List ℕ) → List (List ℕ) → List (List F) → List (List F) → KvLayerData F
  int4 : List (List ℕ) → List (List ℕ) → List (List F) → List (List F) → KvLayerData F

abbrev pub int4_group_size : ℕ
int4_group_size = 32

unfoldable pub int4_num_groups : ℕ → ℕ
int4_num_groups head_dim = head_dim / int4_group_size

-- `first().map_or(0, |v| v.len() / d)`
unfoldable pub first_len_div {ℓ} : {A : Type ℓ} → List (List A) → ℕ → Option ℕ
first_len_div [] d = some 0
first_len_div (v ∷ vs) d = checked_div (length v) d

-- `for v in vs { v.truncate(n) }`
abbrev pub truncate_all {ℓ} : {A : Type ℓ} → ℕ → List (List A) → List (List A)
truncate_all n = map (take n)

-- `for v in vs { total += v.len() * size }`
unfoldable pub sum_bytes {ℓ} : {A : Type ℓ} → ℕ → List (List A) → ℕ
sum_bytes size [] = 0
sum_bytes size (v ∷ vs) = length v * size + sum_bytes size vs

module _ {F : Type 0} where
  unfoldable pub cached_len : KvLayerData F → ℕ → Option ℕ
  cached_len (KvLayerData.f32 ks vs) head_dim = first_len_div ks head_dim
  cached_len (KvLayerData.bf16 ks vs) head_dim = first_len_div ks head_dim
  cached_len (KvLayerData.int8 ks vs kss vss) head_dim = first_len_div ks head_dim
  cached_len (KvLayerData.int4 ks vs kss vss) head_dim =
      let num_groups = int4_num_groups head_dim in
      if num_groups == 0 then some 0 else first_len_div kss num_groups

  unfoldable pub truncate_to : KvLayerData F → ℕ → ℕ → KvLayerData F
  truncate_to (KvLayerData.f32 ks vs) trim_to head_dim =
      KvLayerData.f32 (truncate_all (trim_to * head_dim) ks) (truncate_all (trim_to * head_dim) vs)
  truncate_to (KvLayerData.bf16 ks vs) trim_to head_dim =
      KvLayerData.bf16 (truncate_all (trim_to * head_dim) ks) (truncate_all (trim_to * head_dim) vs)
  truncate_to (KvLayerData.int8 ks vs kss vss) trim_to head_dim =
      KvLayerData.int8 (truncate_all (trim_to * head_dim) ks) (truncate_all (trim_to * head_dim) vs)
        (truncate_all trim_to kss) (truncate_all trim_to vss)
  truncate_to (KvLayerData.int4 ks vs kss vss) trim_to head_dim =
      let packed_elems = trim_to * (head_dim / 2) in
      let scales = trim_to * int4_num_groups head_dim in
      KvLayerData.int4 (truncate_all packed_elems ks) (truncate_all packed_elems vs)
        (truncate_all scales kss) (truncate_all scales vss)

  -- The part of `memory_bytes` that one layer adds.
  unfoldable pub layer_bytes : KvLayerData F → ℕ
  layer_bytes (KvLayerData.f32 ks vs) = sum_bytes 4 ks + sum_bytes 4 vs
  layer_bytes (KvLayerData.bf16 ks vs) = sum_bytes 2 ks + sum_bytes 2 vs
  layer_bytes (KvLayerData.int8 ks vs kss vss) =
      sum_bytes 1 ks + sum_bytes 1 vs + sum_bytes 4 kss + sum_bytes 4 vss
  layer_bytes (KvLayerData.int4 ks vs kss vss) =
      sum_bytes 1 ks + sum_bytes 1 vs + sum_bytes 4 kss + sum_bytes 4 vss

  unfoldable pub layers_bytes : List (KvLayerData F) → ℕ
  layers_bytes [] = 0
  layers_bytes (ld ∷ lds) = layer_bytes ld + layers_bytes lds

pub record KvStoreSnapshot (F : Type 0) : Type 0 where
  pub kv_quant : KvQuantType
  pub layer_data : List (KvLayerData F)
  pub keys : List (List ℕ)
  pub values : List (List ℕ)
  pub num_kv_heads : ℕ
  pub head_dim : ℕ
  pub seq_len : ℕ
  pub kv_dim : ℕ

pub record KvStore (F : Type 0) : Type 0 where
  pub kv_quant : KvQuantType
  pub layer_data : List (KvLayerData F)
  pub keys : List (List ℕ)
  pub values : List (List ℕ)
  pub num_kv_heads : ℕ
  pub head_dim : ℕ
  pub seq_len : ℕ
  pub kv_dim : ℕ
  pub text_pos : ℕ
  pub conv_cache : List (List F)
  pub deltanet_recurrent : List (List F)
  pub deltanet_conv : List (List F)
  pub bidirectional : Bool
