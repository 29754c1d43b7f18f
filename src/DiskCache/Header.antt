-- ===== src/DiskCache/Header.antt =====
-- The header of a cache file of crates/backends/backend_common/src/prefix_cache.rs, written and read.
use herbert_rs.Prelude.{
  ℕ, zero, suc, ◌/◌, ◌^◌, ◌<◌, ◌≡◌, refl, ap, false, some, List, ◌++◌, length, arith, ltb, le→ltb,
}
use herbert_rs.Prelude.Tokens.{tokens_eq}
use herbert_rs.DiskCache.Format.{
  to_le_bytes, from_le_bytes, header_size, PrefixCacheHeader, write_header, read_header,
}

length-to_le_bytes : (w n : ℕ) → length (to_le_bytes w n) ≡ w
unfolding to_le_bytes
length-to_le_bytes zero n = refl
length-to_le_bytes (suc w) n = ap suc (length-to_le_bytes w (n / 256))

pub from_le_bytes-to_le_bytes_4 : (n : ℕ) → n < 2 ^ 32 → from_le_bytes (to_le_bytes 4 n) ≡ n
unfolding to_le_bytes from_le_bytes
from_le_bytes-to_le_bytes_4 n h = omega arith

pub from_le_bytes-to_le_bytes_8 : (n : ℕ) → n < 2 ^ 64 → from_le_bytes (to_le_bytes 8 n) ≡ n
unfolding to_le_bytes from_le_bytes
from_le_bytes-to_le_bytes_8 n h = omega arith

-- The fields fit their widths.
pub record IsFit (h : PrefixCacheHeader) : Type 0 where
  pub kv_dim_fits : h.kv_dim < 2 ^ 32
  pub num_layers_fits : h.num_layers < 2 ^ 32
  pub seq_len_fits : h.seq_len < 2 ^ 32
  pub model_hash_0_fits : h.model_hash_0 < 2 ^ 64
  pub model_hash_1_fits : h.model_hash_1 < 2 ^ 64
  pub token_hash_fits : h.token_hash < 2 ^ 64

-- A header whose fields fit their widths is read back, and what is behind it is left.
pub read_header-write_header :
    (h : PrefixCacheHeader) (body : List ℕ)
    → IsFit h
    → read_header (write_header h ++ body) ≡ some (h, body)
unfolding read_header write_header tokens_eq to_le_bytes from_le_bytes
read_header-write_header h body fit = rw long (λ i. some (
  record {
    kv_dim = from_le_bytes-to_le_bytes_4 h.kv_dim fit.kv_dim_fits i;
    num_layers = from_le_bytes-to_le_bytes_4 h.num_layers fit.num_layers_fits i;
    seq_len = from_le_bytes-to_le_bytes_4 h.seq_len fit.seq_len_fits i;
    model_hash_0 = from_le_bytes-to_le_bytes_8 h.model_hash_0 fit.model_hash_0_fits i;
    model_hash_1 = from_le_bytes-to_le_bytes_8 h.model_hash_1 fit.model_hash_1_fits i;
    token_hash = from_le_bytes-to_le_bytes_8 h.token_hash fit.token_hash_fits i;
  },
  body,
))
  where
    long : ltb (length (write_header h ++ body)) header_size ≡ false
    long = le→ltb (length (write_header h ++ body)) 80 (omega arith)
