-- ===== src/H2o/Compact.antt =====
-- `compact` and `h2o_evict` of crates/backends/backend_common/src/h2o.rs on a whole store.
use herbert_rs.Prelude.{ℕ, ◌*◌, ◌/◌, List, map, length, All, if◌then◌else◌}
use herbert_rs.Kv.{KvLayerData, KvStore, int4_num_groups}
use herbert_rs.Kv.Store.{is_bf16}
use herbert_rs.Kv.Store.Shape.{Holds}
use herbert_rs.Kv.Store.Growth.{AllLength}
use herbert_rs.H2o.Rows.{gather}

-- The layer with the rows at the kept positions only.
abbrev pub gather_layer : {F : Type 0} → ℕ → List ℕ → KvLayerData F → KvLayerData F
gather_layer head_dim kept (KvLayerData.f32 ks vs) =
    KvLayerData.f32 (map (gather head_dim kept) ks) (map (gather head_dim kept) vs)
gather_layer head_dim kept (KvLayerData.bf16 ks vs) =
    KvLayerData.bf16 (map (gather head_dim kept) ks) (map (gather head_dim kept) vs)
gather_layer head_dim kept (KvLayerData.int8 ks vs kss vss) =
    KvLayerData.int8 (map (gather head_dim kept) ks) (map (gather head_dim kept) vs)
      (map (gather 1 kept) kss) (map (gather 1 kept) vss)
gather_layer head_dim kept (KvLayerData.int4 ks vs kss vss) =
    KvLayerData.int4 (map (gather (head_dim / 2) kept) ks) (map (gather (head_dim / 2) kept) vs)
      (map (gather (int4_num_groups head_dim) kept) kss)
      (map (gather (int4_num_groups head_dim) kept) vss)

-- Every layer of the store holds `n` positions, and so do the flat copies of the bf16 format.
pub record StoreHolds {F : Type 0} (kv : KvStore F) (head_dim n : ℕ) : Type 0 where
  pub layers_hold : All (Holds kv.num_kv_heads head_dim n) kv.layer_data
  pub keys_hold : AllLength (n * kv.kv_dim) kv.keys
  pub values_hold : AllLength (n * kv.kv_dim) kv.values

-- The store with the kept positions only.
abbrev pub gather_store : {F : Type 0} → ℕ → List ℕ → KvStore F → KvStore F
gather_store head_dim kept kv = record kv {
  layer_data = map (gather_layer head_dim kept) kv.layer_data;
  keys = if is_bf16 kv.kv_quant then map (gather kv.kv_dim kept) kv.keys else kv.keys;
  values = if is_bf16 kv.kv_quant then map (gather kv.kv_dim kept) kv.values else kv.values;
  seq_len = length kept;
}
