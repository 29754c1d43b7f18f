-- ===== src/DiskCache.antt =====
-- crates/backends/backend_common/src/prefix_cache.rs: the prefix cache on disk. The model's directory is a list
-- of file names and contents, and writing is the writing of a temporary file and its renaming at once; of the
-- errors of the file system only the missing file is modelled. `none` is an error or a panic. Bytes are numbers, and
-- the memory of a `u16` is little-endian, as on the machines that the code is for.
--
-- `hash` stands for `hash_tokens`, and `name_of` for the format of a file's name from the hash and the length.
-- The scan of the directory in `PrefixCache::new`, which parses names, is left out.
pub mod Format
pub mod Index
pub mod Header
pub mod Longest
pub mod Ordered
pub mod Reload
mod Tests
use herbert_rs.Prelude.{
  ℕ, zero, suc, ◌+◌, ◌-◌, ◌*◌, ◌/◌, ◌%◌, ◌^◌, max, Bool, true, false, ◌&&◌, ◌||◌, not, Option, none,
  some, List, [], ◌∷◌, ◌++◌, map, length, take, drop, replicate, get_elem?, ltb, leb, ◌==◌,
  if◌then◌else◌, ◌>>=◌, slice, extend_at,
}
use herbert_rs.Prelude.Tokens.{tokens_eq, is_empty}
use herbert_rs.Prelude.Text.{Text}
use herbert_rs.Kv.{KvLayerData, KvStore}
use herbert_rs.Kv.Store.{for_positions}
use herbert_rs.DiskCache.Format.{
  to_le_bytes, from_le_bytes, magic, header_size, format_version, PrefixCacheHeader, write_header,
  field, read_header, u16_bytes, one_layer_bytes, all_layer_bytes, read_u16s, read_layers,
}
use herbert_rs.DiskCache.Index.{
  IndexEntry, PrefixCacheConfig, PrefixCache, Files, read_file, exists_file, remove_file,
  insert_desc, sort_desc, insert_by_access, sort_by_access, total_size, evict_files,
  retain_existing, evict_if_needed,
}

-- One row of a head, copied from the flat vectors of its layer.
unfoldable pub copy_head :
    ℕ
    → ℕ
    → List ℕ
    → List ℕ
    → ℕ
    → ℕ
    → List (List ℕ) × List (List ℕ)
    → Option (List (List ℕ) × List (List ℕ))
copy_head kv_dim head_dim keys values pos h (ks, vs) = do
  let src = pos * kv_dim + h * head_dim
  k ← slice keys src (src + head_dim)
  ks' ← extend_at ks h k
  v ← slice values src (src + head_dim)
  vs' ← extend_at vs h v
  some (ks', vs')

-- The first `n` vectors cleared.
unfoldable pub clear_heads : ℕ → List (List ℕ) → Option (List (List ℕ))
clear_heads n vs = if ltb (length vs) n then none else some (replicate n [] ++ drop n vs)

-- The reconstruction of the heads of a layer.
unfoldable pub rebuild_layer :
    {F : Type 0} → ℕ → ℕ → ℕ → ℕ → List ℕ → List ℕ → KvLayerData F → Option (KvLayerData F)
rebuild_layer seq_len num_kv_heads kv_dim head_dim keys values (KvLayerData.bf16 ks vs) = do
  ks' ← clear_heads num_kv_heads ks
  vs' ← clear_heads num_kv_heads vs
  (ks'', vs'') ←
      for_positions seq_len num_kv_heads (copy_head kv_dim head_dim keys values) (ks', vs')
  some (KvLayerData.bf16 ks'' vs'')
rebuild_layer seq_len num_kv_heads kv_dim head_dim keys values layer = some layer

unfoldable pub rebuild_layers :
    {F : Type 0}
    → ℕ
    → ℕ
    → ℕ
    → ℕ
    → List (List ℕ)
    → List (List ℕ)
    → List (KvLayerData F)
    → Option (List (KvLayerData F))
rebuild_layers seq_len num_kv_heads kv_dim head_dim (ks ∷ keys) (vs ∷ values) (l ∷ layers) = do
  l' ← rebuild_layer seq_len num_kv_heads kv_dim head_dim ks vs l
  layers' ← rebuild_layers seq_len num_kv_heads kv_dim head_dim keys values layers
  some (l' ∷ layers')
rebuild_layers seq_len num_kv_heads kv_dim head_dim (ks ∷ keys) (vs ∷ values) [] = none
rebuild_layers seq_len num_kv_heads kv_dim head_dim keys values layers = some layers

-- `load_kv_data` on the contents of a file: the store, and the number of positions.
unfoldable pub load_kv_data :
    {F : Type 0} → PrefixCache → List ℕ → KvStore F → Option (KvStore F × ℕ)
load_kv_data c bytes kv = do
  (h, body) ← read_header bytes
  checked ←
      if not (h.model_hash_0 == c.model_hash_0 && h.model_hash_1 == c.model_hash_1)
      then none
      else if not (h.num_layers == c.num_layers)
      then none
      else if not (h.kv_dim == c.kv_dim)
      then none
      else some h
  (keys, values) ← read_layers c.num_layers (checked.seq_len * c.kv_dim) body
  checked_keys ←
      if ltb (length kv.keys) c.num_layers || ltb (length kv.values) c.num_layers
      then none
      else some keys
  layers ←
      rebuild_layers checked.seq_len kv.num_kv_heads c.kv_dim kv.head_dim checked_keys values
        kv.layer_data
  some (
    record kv {
      keys = keys ++ drop c.num_layers kv.keys;
      values = values ++ drop c.num_layers kv.values;
      layer_data = layers;
      seq_len = checked.seq_len;
    },
    checked.seq_len,
  )

module _ (hash : List ℕ → ℕ) where
  -- The loop of `lookup`: the entries with their new times, and the hit.
  unfoldable pub lookup_from :
      ℕ → Files → List ℕ → List IndexEntry → List IndexEntry × Option (ℕ × Text)
  lookup_from clock fs tokens [] = ([], none)
  lookup_from clock fs tokens (e ∷ es) =
      let (es', hit) = lookup_from clock fs tokens es in
      if ltb (length tokens) e.prefix_len
      then (e ∷ es', hit)
      else if hash (take e.prefix_len tokens) == e.token_hash
      then (if exists_file fs e.file_name
          then (record e { last_access = clock } ∷ es, some (e.prefix_len, e.file_name))
          else (record e { last_access = clock } ∷ es', hit))
      else (e ∷ es', hit)

  unfoldable pub lookup : PrefixCache → Files → List ℕ → PrefixCache × Option (ℕ × Text)
  lookup c fs tokens =
      if ltb (length tokens) c.config.min_prefix_len
      then (c, none)
      else (let clock = c.access_clock + 1 in
          let (index, hit) = lookup_from clock fs tokens c.index in
          (record c { index = index; access_clock = clock }, hit))

  -- The closure of `any`.
  unfoldable pub is_cached : ℕ → ℕ → List IndexEntry → Bool
  is_cached len token_hash [] = false
  is_cached len token_hash (e ∷ es) =
      let rest = is_cached len token_hash es in
      if e.prefix_len == len && e.token_hash == token_hash then true else rest

  module _ (name_of : ℕ → ℕ → Text) where
    unfoldable pub save_inner :
        {F : Type 0} → PrefixCache → Files → List ℕ → KvStore F → Option (PrefixCache × Files)
    save_inner c fs tokens kv =
        let save_len = length tokens in
        let token_hash = hash tokens in
        if is_cached save_len token_hash c.index then some (c, fs) else (do
          let header : PrefixCacheHeader = record {
            kv_dim = c.kv_dim % 2 ^ 32;
            num_layers = c.num_layers % 2 ^ 32;
            seq_len = save_len % 2 ^ 32;
            model_hash_0 = c.model_hash_0;
            model_hash_1 = c.model_hash_1;
            token_hash = token_hash;
          }
          body ← all_layer_bytes c.num_layers (save_len * c.kv_dim) kv.keys kv.values
          let bytes = write_header header ++ body
          let name = name_of token_hash save_len
          let entry : IndexEntry = record {
            prefix_len = save_len;
            token_hash = token_hash;
            file_name = name;
            file_size = length bytes;
            last_access = c.access_clock;
          }
          some (
              evict_if_needed (record c { index = sort_desc (c.index ++ (entry ∷ [])) })
                ((name, bytes) ∷ remove_file fs name)))

    unfoldable pub save :
        {F : Type 0} → PrefixCache → Files → List ℕ → KvStore F → Option (PrefixCache × Files)
    save c fs tokens kv =
        let interval = max c.config.checkpoint_interval 1 in
        let save_len = length tokens / interval * interval in
        if ltb save_len c.config.min_prefix_len
        then some (c, fs)
        else save_inner c fs (take save_len tokens) kv

    unfoldable pub save_system :
        {F : Type 0} → PrefixCache → Files → List ℕ → KvStore F → Option (PrefixCache × Files)
    save_system c fs tokens kv = if is_empty tokens then some (c, fs) else save_inner c fs tokens kv
