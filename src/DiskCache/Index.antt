-- ===== src/DiskCache/Index.antt =====
-- The index of crates/backends/backend_common/src/prefix_cache.rs, and the eviction of files.
use herbert_rs.Prelude.{
  ℕ, ◌+◌, ◌-◌, Bool, true, false, Option, none, some, List, [], ◌∷◌, leb, if◌then◌else◌,
}
use herbert_rs.Prelude.Tokens.{tokens_eq}
use herbert_rs.Prelude.Text.{Text}

pub record IndexEntry : Type 0 where
  pub prefix_len : ℕ
  pub token_hash : ℕ
  pub file_name : Text
  pub file_size : ℕ
  pub last_access : ℕ

pub record PrefixCacheConfig : Type 0 where
  pub max_size_bytes : ℕ
  pub min_prefix_len : ℕ
  pub checkpoint_interval : ℕ

pub record PrefixCache : Type 0 where
  pub config : PrefixCacheConfig
  pub model_hash_0 : ℕ
  pub model_hash_1 : ℕ
  pub index : List IndexEntry
  pub num_layers : ℕ
  pub kv_dim : ℕ
  pub access_clock : ℕ

abbrev pub Files : Type 0
Files = List (Text × List ℕ)

unfoldable pub read_file : Files → Text → Option (List ℕ)
read_file [] name = none
read_file (f ∷ fs) name =
    let rest = read_file fs name in if tokens_eq f.0 name then some f.1 else rest

abbrev is_found : Option (List ℕ) → Bool
is_found none = false
is_found (some bytes) = true

-- `path.exists()`
unfoldable pub exists_file : Files → Text → Bool
exists_file fs name = is_found (read_file fs name)

-- `fs::remove_file`: all that a name stands for.
unfoldable pub remove_file : Files → Text → Files
remove_file [] name = []
remove_file (f ∷ fs) name =
    let rest = remove_file fs name in if tokens_eq f.0 name then rest else f ∷ rest

-- `index.sort_by(|a, b| b.prefix_len.cmp(&a.prefix_len))`, a stable sort
unfoldable pub insert_desc : IndexEntry → List IndexEntry → List IndexEntry
insert_desc e [] = e ∷ []
insert_desc e (x ∷ xs) =
    if leb x.prefix_len e.prefix_len then e ∷ (x ∷ xs) else x ∷ insert_desc e xs

unfoldable pub sort_desc : List IndexEntry → List IndexEntry
sort_desc [] = []
sort_desc (e ∷ es) = insert_desc e (sort_desc es)

-- `evict_order.sort_by_key(|&i| index[i].last_access)`, a stable sort
unfoldable pub insert_by_access : IndexEntry → List IndexEntry → List IndexEntry
insert_by_access e [] = e ∷ []
insert_by_access e (x ∷ xs) =
    if leb e.last_access x.last_access then e ∷ (x ∷ xs) else x ∷ insert_by_access e xs

unfoldable pub sort_by_access : List IndexEntry → List IndexEntry
sort_by_access [] = []
sort_by_access (e ∷ es) = insert_by_access e (sort_by_access es)

unfoldable pub total_size : List IndexEntry → ℕ
total_size [] = 0
total_size (e ∷ es) = e.file_size + total_size es

-- The loop over `evict_order`: the files, and whether one was removed.
unfoldable pub evict_files : ℕ → ℕ → Files → List IndexEntry → Bool → Files × Bool
evict_files limit total fs [] evicted = (fs, evicted)
evict_files limit total fs (e ∷ es) evicted =
    if leb total limit
    then (fs, evicted)
    else if exists_file fs e.file_name
    then evict_files limit (total - e.file_size) (remove_file fs e.file_name) es true
    else evict_files limit total fs es evicted

unfoldable pub retain_existing : Files → List IndexEntry → List IndexEntry
retain_existing fs [] = []
retain_existing fs (e ∷ es) =
    let rest = retain_existing fs es in if exists_file fs e.file_name then e ∷ rest else rest

unfoldable pub evict_if_needed : PrefixCache → Files → PrefixCache × Files
evict_if_needed c fs =
    let total = total_size c.index in
    if leb total c.config.max_size_bytes
    then (c, fs)
    else (let (fs', evicted) =
          evict_files c.config.max_size_bytes total fs (sort_by_access c.index) false in
        (if evicted then record c { index = sort_desc (retain_existing fs' c.index) } else c, fs'))
