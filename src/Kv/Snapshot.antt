-- ===== src/Kv/Snapshot.antt =====
-- `impl KvStoreSnapshot` of crates/backends/backend_common/src/kv_cache.rs.
use herbert_rs.Prelude.{ℕ, ◌+◌}
use herbert_rs.Kv.{KvStoreSnapshot, layers_bytes, sum_bytes}

unfoldable pub memory_bytes : {F : Type 0} → KvStoreSnapshot F → ℕ
memory_bytes s = layers_bytes s.layer_data + (sum_bytes 2 s.keys + sum_bytes 2 s.values)
