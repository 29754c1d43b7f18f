-- ===== src/DiskCache/Format.antt =====
-- The format of a cache file of crates/backends/backend_common/src/prefix_cache.rs: the header, and the keys and
-- values of the layers. Bytes are numbers, and `none` is an error or a panic.
use herbert_rs.Prelude.{
  ℕ, zero, suc, ◌+◌, ◌-◌, ◌*◌, ◌/◌, ◌%◌, ◌&&◌, not, Option, none, some, List, [], ◌∷◌, ◌++◌, length,
  take, drop, replicate, ltb, leb, ◌==◌, if◌then◌else◌, ◌>>=◌,
}
use herbert_rs.Prelude.Tokens.{tokens_eq}

-- `n.to_le_bytes()` in `w` bytes, and `from_le_bytes`.
unfoldable pub to_le_bytes : ℕ → ℕ → List ℕ
to_le_bytes zero n = []
to_le_bytes (suc w) n = n % 256 ∷ to_le_bytes w (n / 256)

unfoldable pub from_le_bytes : List ℕ → ℕ
from_le_bytes [] = 0
from_le_bytes (b ∷ bs) = b + 256 * from_le_bytes bs

-- "QW3PKCCH"
abbrev pub magic : List ℕ
magic = 81 ∷ 87 ∷ 51 ∷ 80 ∷ 75 ∷ 67 ∷ 67 ∷ 72 ∷ []

abbrev pub header_size : ℕ
header_size = 80

abbrev pub format_version : ℕ
format_version = 1

pub record PrefixCacheHeader : Type 0 where
  pub kv_dim : ℕ
  pub num_layers : ℕ
  pub seq_len : ℕ
  pub model_hash_0 : ℕ
  pub model_hash_1 : ℕ
  pub token_hash : ℕ

unfoldable pub write_header : PrefixCacheHeader → List ℕ
write_header h =
    magic
    ++ (to_le_bytes 4 format_version
        ++ (to_le_bytes 4 h.kv_dim
            ++ (to_le_bytes 4 h.num_layers
                ++ (to_le_bytes 4 h.seq_len
                    ++ (to_le_bytes 8 h.model_hash_0
                        ++ (to_le_bytes 8 h.model_hash_1
                            ++ (to_le_bytes 8 h.token_hash ++ replicate 32 0)))))))

-- `buf[from..to]` of the header
abbrev pub field : List ℕ → ℕ → ℕ → ℕ
field buf from to = from_le_bytes (take (to - from) (drop from buf))

-- The header, and the bytes behind it.
unfoldable pub read_header : List ℕ → Option (PrefixCacheHeader × List ℕ)
read_header bytes =
    let buf = take header_size bytes in
    if ltb (length bytes) header_size
    then none
    else if not (tokens_eq (take 8 buf) magic)
    then none
    else if not (field buf 8 12 == format_version)
    then none
    else some (
      record {
        kv_dim = field buf 12 16;
        num_layers = field buf 16 20;
        seq_len = field buf 20 24;
        model_hash_0 = field buf 24 32;
        model_hash_1 = field buf 32 40;
        token_hash = field buf 40 48;
      },
      drop header_size bytes,
    )

-- The bytes of the first `n` elements, or as many zeros.
unfoldable pub u16_bytes : List ℕ → List ℕ
u16_bytes [] = []
u16_bytes (x ∷ xs) = to_le_bytes 2 x ++ u16_bytes xs

unfoldable pub one_layer_bytes : ℕ → List ℕ → List ℕ → List ℕ
one_layer_bytes elems ks vs =
    if leb elems (length ks)
    then u16_bytes (take elems ks) ++ u16_bytes (take elems vs)
    else replicate (elems * 2) 0 ++ replicate (elems * 2) 0

-- The loop over the layers from `i` on; `none` is an index, or a slice of the values, out of range.
unfoldable pub all_layer_bytes : ℕ → ℕ → List (List ℕ) → List (List ℕ) → Option (List ℕ)
all_layer_bytes zero elems keys values = some []
all_layer_bytes (suc n) elems [] values = none
all_layer_bytes (suc n) elems (ks ∷ keys) [] = none
all_layer_bytes (suc n) elems (ks ∷ keys) (vs ∷ values) =
    let rest = all_layer_bytes n elems keys values in
    if leb elems (length ks) && ltb (length vs) elems
    then none
    else (rest >>= λ bytes. some (one_layer_bytes elems ks vs ++ bytes))

-- `elems` little-endian `u16`s from the front of the bytes.
unfoldable pub read_u16s : ℕ → List ℕ → Option (List ℕ × List ℕ)
read_u16s zero bytes = some ([], bytes)
read_u16s (suc n) [] = none
read_u16s (suc n) (lo ∷ []) = none
read_u16s (suc n) (lo ∷ (hi ∷ bytes)) =
    read_u16s n bytes >>= λ r. some (from_le_bytes (lo ∷ hi ∷ []) ∷ r.0, r.1)

-- The loop of `load_kv_data` over the layers: their new keys and values.
unfoldable pub read_layers : ℕ → ℕ → List ℕ → Option (List (List ℕ) × List (List ℕ))
read_layers zero elems bytes = some ([], [])
read_layers (suc n) elems bytes = do
  (ks, bytes') ← read_u16s elems bytes
  (vs, bytes'') ← read_u16s elems bytes'
  (keys, values) ← read_layers n elems bytes''
  some (ks ∷ keys, vs ∷ values)
