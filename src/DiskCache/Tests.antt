-- ===== src/DiskCache/Tests.antt =====
-- Runs of the prefix cache on disk, and its theorems at them.
use herbert_rs.Prelude.{
  ℕ, ◌≡◌, refl, false, Option, some, List, [], ◌∷◌, ◌++◌, map, length, take, arith, slice,
  for_range, extend_at,
}
use herbert_rs.Prelude.Tokens.{tokens_eq}
use herbert_rs.Prelude.Text.{Text}
use herbert_rs.Kv.{KvStore, KvLayerData, KvQuantType}
use herbert_rs.Kv.Store.{for_positions}
use herbert_rs.DiskCache.Format.{
  to_le_bytes, from_le_bytes, PrefixCacheHeader, write_header, read_header, u16_bytes,
  one_layer_bytes, all_layer_bytes, read_u16s, read_layers,
}
use herbert_rs.DiskCache.Index.{
  IndexEntry, PrefixCache, Files, read_file, exists_file, remove_file, insert_desc, sort_desc,
  insert_by_access, sort_by_access, total_size, evict_files, retain_existing, evict_if_needed,
}
use herbert_rs.DiskCache.{
  copy_head, clear_heads, rebuild_layer, rebuild_layers, load_kv_data, lookup_from, lookup,
  is_cached, save_inner, save, save_system,
}
use herbert_rs.DiskCache.Header.{read_header-write_header}
use herbert_rs.DiskCache.Reload.{read_layers-all_layer_bytes}
use herbert_rs.DiskCache.Ordered.{Ordered, operations-Ordered}
use herbert_rs.DiskCache.Longest.{Descends, Hit, lookup-Hit}

program : Unit {0}
unfolding slice for_range extend_at tokens_eq for_positions to_le_bytes from_le_bytes write_header
    read_header read_file exists_file remove_file insert_desc sort_desc insert_by_access
    sort_by_access total_size evict_files retain_existing evict_if_needed u16_bytes one_layer_bytes
    all_layer_bytes read_u16s read_layers copy_head clear_heads rebuild_layer rebuild_layers
    load_kv_data lookup_from lookup is_cached save_inner save save_system
program = tt

abbrev hash : List ℕ → ℕ
hash tokens = length tokens

abbrev name_of : ℕ → ℕ → Text
name_of h n = h ∷ n ∷ []

abbrev cache : PrefixCache
cache = record {
  config = record { max_size_bytes = 1000; min_prefix_len = 1; checkpoint_interval = 1 };
  model_hash_0 = 3;
  model_hash_1 = 4;
  index = [];
  num_layers = 1;
  kv_dim = 2;
  access_clock = 0;
}

-- One layer of one head of dimension 2, with two positions.
abbrev kv : KvStore ℕ
kv = record {
  kv_quant = KvQuantType.bf16;
  layer_data = KvLayerData.bf16 ((1 ∷ 2 ∷ 300 ∷ 4 ∷ []) ∷ []) ((5 ∷ 6 ∷ 7 ∷ 8 ∷ []) ∷ []) ∷ [];
  keys = (1 ∷ 2 ∷ 300 ∷ 4 ∷ []) ∷ [];
  values = (5 ∷ 6 ∷ 7 ∷ 8 ∷ []) ∷ [];
  num_kv_heads = 1;
  head_dim = 2;
  seq_len = 2;
  kv_dim = 2;
  text_pos = 2;
  conv_cache = [];
  deltanet_recurrent = [];
  deltanet_conv = [];
  bidirectional = false;
}

abbrev contents : Option (PrefixCache × Files) → List ℕ
contents (some (c, (name, bytes) ∷ fs)) = bytes
contents o = []

abbrev saved : Option (PrefixCache × Files)
saved = save hash name_of cache [] (9 ∷ 9 ∷ []) kv

-- What was saved is loaded again, the heads and the flat vectors alike.
reloaded :
    load_kv_data cache (contents saved) (record kv {
      keys = [] ∷ [];
      values = [] ∷ [];
      layer_data = KvLayerData.bf16 ([] ∷ []) ([] ∷ []) ∷ [];
    })
    ≡ some (kv, 2)
unfolding program
reloaded = refl

abbrev header : PrefixCacheHeader
header = record {
  kv_dim = 1024;
  num_layers = 36;
  seq_len = 512;
  model_hash_0 = 0xDEADBEEF;
  model_hash_1 = 0xCAFEBABE;
  token_hash = 0x123456789ABCDEF0;
}

read_header-write_header_example :
    read_header (write_header header ++ (1 ∷ 2 ∷ [])) ≡ some (header, 1 ∷ 2 ∷ [])
read_header-write_header_example = read_header-write_header header (1 ∷ 2 ∷ []) (record {
  kv_dim_fits = omega arith;
  num_layers_fits = omega arith;
  seq_len_fits = omega arith;
  model_hash_0_fits = omega arith;
  model_hash_1_fits = omega arith;
  token_hash_fits = omega arith;
})

read_layers-all_layer_bytes_example :
    (bytes : List ℕ) × (all_layer_bytes 1 2 kv.keys kv.values ≡ some bytes)
    × (read_layers 1 2 bytes ≡ some (map (take 2) kv.keys, map (take 2) kv.values))
read_layers-all_layer_bytes_example = read_layers-all_layer_bytes 2 kv.keys kv.values (
  record {
    keys_enough = omega arith;
    values_enough = omega arith;
    keys_words = (omega arith, (omega arith, (omega arith, (omega arith, tt))));
    values_words = (omega arith, (omega arith, (omega arith, (omega arith, tt))));
  },
  tt,
)

abbrev entry : ℕ → IndexEntry
entry n = record {
  prefix_len = n;
  token_hash = n;
  file_name = n ∷ [];
  file_size = 8;
  last_access = 0;
}

-- The file of the longest entry is gone, so the next one is the hit.
abbrev indexed : PrefixCache
indexed = record cache { index = entry 3 ∷ entry 2 ∷ entry 1 ∷ [] }

abbrev files : Files
files = (2 ∷ [], []) ∷ (1 ∷ [], []) ∷ []

found : (lookup hash indexed files (7 ∷ 7 ∷ 7 ∷ 7 ∷ [])).1 ≡ some (2, 2 ∷ [])
unfolding program
found = refl

lookup-Hit_example :
    Hit hash files
      (7 ∷ 7 ∷ 7 ∷ 7 ∷ [])
      indexed.index
      (lookup hash indexed files (7 ∷ 7 ∷ 7 ∷ 7 ∷ [])).1
lookup-Hit_example =
    lookup-Hit hash indexed files (7 ∷ 7 ∷ 7 ∷ 7 ∷ [])
      ((omega arith, (omega arith, tt)), ((omega arith, tt), (tt, tt))) (omega arith)

operations-Ordered_example :
    Descends (lookup hash indexed files (9 ∷ 9 ∷ [])).0.index
    × Ordered (save hash name_of indexed files (9 ∷ 9 ∷ []) kv)
    × Ordered (save_system hash name_of indexed files (9 ∷ 9 ∷ []) kv)
operations-Ordered_example =
    operations-Ordered hash name_of indexed files (9 ∷ 9 ∷ []) kv
      ((omega arith, (omega arith, tt)), ((omega arith, tt), (tt, tt)))
