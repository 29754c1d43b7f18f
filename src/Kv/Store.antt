-- ===== src/Kv/Store.antt =====
-- `impl KvStore` of crates/backends/backend_common/src/kv_cache.rs. The counters of the profiling
-- build are left out. `is_deltanet_layer` and the sizes come from the model's configuration.
pub mod Growth
pub mod Shape
pub mod Append
pub mod Quantized
pub mod Rollback
pub mod Flat
mod Tests
use herbert_rs.Prelude.{
  ℕ, zero, suc, ◌+◌, ◌*◌, ◌/◌, Bool, true, false, Option, none, some, List, [], ◌∷◌, ◌++◌, map,
  length, take, replicate, get_elem?, set, ltb, if◌then◌else◌, ◌>>=◌, for_range, slice, extend_at,
  checked_div,
}
use herbert_rs.Floats.{Floats}
use herbert_rs.Kv
use herbert_rs.Kv.{
  KvQuantType, KvLayerData, KvStore, KvStoreSnapshot, int4_num_groups, int4_group_size,
  layers_bytes, sum_bytes,
}
use herbert_rs.Kv.Quant.{
  compute_int8_scale, quantize_i8, compute_int4_scale, pack_i4_group, f32_to_bf16,
}

-- What the code reads of `Config` to build the states of the convolution layers.
pub record Config : Type 0 where
  pub num_layers : ℕ
  pub hidden_size : ℕ
  pub conv_l_cache : ℕ
  pub is_deltanet_layer : ℕ → Bool
  pub deltanet_recurrent_size : ℕ
  pub deltanet_conv_dim : ℕ
  pub linear_conv_kernel_dim : Option ℕ

-- `(start..start + n).map(g).collect()`
unfoldable pub tabulate {ℓ} : {A : Type ℓ} → ℕ → ℕ → (ℕ → A) → List A
tabulate zero start g = []
tabulate (suc n) start g = g start ∷ tabulate n (suc start) g

unfoldable pub unwrap_or {ℓ} : {A : Type ℓ} → Option A → A → A
unwrap_or none d = d
unwrap_or (some a) d = a

abbrev pub is_bf16 : KvQuantType → Bool
is_bf16 KvQuantType.bf16 = true
is_bf16 KvQuantType.f32 = false
is_bf16 KvQuantType.int8 = false
is_bf16 KvQuantType.int4 = false

-- `vs[i].truncate(n)`
unfoldable pub truncate_at {ℓ} : {A : Type ℓ} → List (List A) → ℕ → ℕ → Option (List (List A))
truncate_at vs i n = get_elem? vs i >>= λ v. some (set vs i (take n v))

-- `for pos in 0..num_positions { for kv_h in 0..num_kv_heads { … } }`
unfoldable pub for_positions {ℓ} : {S : Type ℓ} → ℕ → ℕ → (ℕ → ℕ → S → Option S) → S → Option S
for_positions num_positions num_kv_heads body s =
    for_range num_positions 0 (λ pos t. for_range num_kv_heads 0 (body pos) t) s

module _ (f : Floats) where
  open f use {F, lit}

  -- One step of the loops of `append_layer_data`, for each format: position `pos`, head `h`.
  unfoldable pub append_f32 :
      ℕ
      → ℕ
      → List F
      → List F
      → ℕ
      → ℕ
      → List (List F) × List (List F)
      → Option (List (List F) × List (List F))
  append_f32 kv_dim head_dim k v pos h (ks, vs) = do
    let src = pos * kv_dim + h * head_dim
    k_head ← slice k src (src + head_dim)
    ks' ← extend_at ks h k_head
    v_head ← slice v src (src + head_dim)
    vs' ← extend_at vs h v_head
    some (ks', vs')

  unfoldable pub append_bf16 :
      ℕ
      → ℕ
      → List F
      → List F
      → ℕ
      → ℕ
      → List (List ℕ) × List (List ℕ)
      → Option (List (List ℕ) × List (List ℕ))
  append_bf16 kv_dim head_dim k v pos h (ks, vs) = do
    let src = pos * kv_dim + h * head_dim
    k_head ← slice k src (src + head_dim)
    ks' ← extend_at ks h (map (f32_to_bf16 f) k_head)
    v_head ← slice v src (src + head_dim)
    vs' ← extend_at vs h (map (f32_to_bf16 f) v_head)
    some (ks', vs')

  abbrev pub Quantized : Type 0
  Quantized = List (List ℕ) × List (List ℕ) × List (List F) × List (List F)

  unfoldable pub append_int8 : ℕ → ℕ → List F → List F → ℕ → ℕ → Quantized → Option Quantized
  append_int8 kv_dim head_dim k v pos h (ks, vs, kss, vss) = do
    let src = pos * kv_dim + h * head_dim
    k_head ← slice k src (src + head_dim)
    v_head ← slice v src (src + head_dim)
    let k_scale = compute_int8_scale f k_head
    kss' ← extend_at kss h (k_scale ∷ [])
    ks' ← extend_at ks h (map (λ x. quantize_i8 f x k_scale) k_head)
    let v_scale = compute_int8_scale f v_head
    vss' ← extend_at vss h (v_scale ∷ [])
    vs' ← extend_at vs h (map (λ x. quantize_i8 f x v_scale) v_head)
    some (ks', vs', kss', vss')

  -- One group of a head: its scale is pushed, and its bytes go into `pack_buf` from `g * 16` on.
  unfoldable pub append_group :
      List F → ℕ → ℕ → List (List F) × List ℕ → Option (List (List F) × List ℕ)
  append_group head h g (scales, pack_buf) = do
    let start = g * int4_group_size
    group ← slice head start (start + int4_group_size)
    let scale = compute_int4_scale f group
    scales' ← extend_at scales h (scale ∷ [])
    rest ← slice pack_buf (g * 16) (length pack_buf)
    packed ← pack_i4_group f group scale rest
    some (scales', take (g * 16) pack_buf ++ packed)

  unfoldable pub append_int4 :
      ℕ → ℕ → List F → List F → ℕ → ℕ → Quantized × List ℕ → Option (Quantized × List ℕ)
  append_int4 kv_dim head_dim k v pos h ((ks, vs, kss, vss), pack_buf) = do
    let num_groups = int4_num_groups head_dim
    let src = pos * kv_dim + h * head_dim
    k_head ← slice k src (src + head_dim)
    v_head ← slice v src (src + head_dim)
    (kss', k_buf) ← for_range num_groups 0 (append_group k_head h) (kss, pack_buf)
    ks' ← extend_at ks h k_buf
    (vss', v_buf) ← for_range num_groups 0 (append_group v_head h) (vss, k_buf)
    vs' ← extend_at vs h v_buf
    some ((ks', vs', kss', vss'), v_buf)

  unfoldable pub append_layer_data :
      ℕ → ℕ → KvLayerData F → List F → List F → Option (KvLayerData F)
  append_layer_data num_kv_heads head_dim (KvLayerData.f32 ks vs) k v = do
    let kv_dim = num_kv_heads * head_dim
    n ← checked_div (length k) kv_dim
    (ks', vs') ← for_positions n num_kv_heads (append_f32 kv_dim head_dim k v) (ks, vs)
    some (KvLayerData.f32 ks' vs')
  append_layer_data num_kv_heads head_dim (KvLayerData.bf16 ks vs) k v = do
    let kv_dim = num_kv_heads * head_dim
    n ← checked_div (length k) kv_dim
    (ks', vs') ← for_positions n num_kv_heads (append_bf16 kv_dim head_dim k v) (ks, vs)
    some (KvLayerData.bf16 ks' vs')
  append_layer_data num_kv_heads head_dim (KvLayerData.int8 ks vs kss vss) k v = do
    let kv_dim = num_kv_heads * head_dim
    n ← checked_div (length k) kv_dim
    (ks', vs', kss', vss') ←
        for_positions n num_kv_heads (append_int8 kv_dim head_dim k v) (ks, vs, kss, vss)
    some (KvLayerData.int8 ks' vs' kss' vss')
  append_layer_data num_kv_heads head_dim (KvLayerData.int4 ks vs kss vss) k v = do
    let kv_dim = num_kv_heads * head_dim
    n ← checked_div (length k) kv_dim
    let pack_buf = replicate {A = ℕ} (head_dim / 2) 0
    ((ks', vs', kss', vss'), _) ←
        for_positions n num_kv_heads (append_int4 kv_dim head_dim k v)
          ((ks, vs, kss, vss), pack_buf)
    some (KvLayerData.int4 ks' vs' kss' vss')

  unfoldable pub append : KvStore F → ℕ → List F → List F → Option (KvStore F)
  append s layer_idx k v = do
    ks ←
        if is_bf16 s.kv_quant
        then extend_at s.keys layer_idx (map (f32_to_bf16 f) k)
        else some s.keys
    vs ←
        if is_bf16 s.kv_quant
        then extend_at s.values layer_idx (map (f32_to_bf16 f) v)
        else some s.values
    layer ← get_elem? s.layer_data layer_idx
    layer' ← append_layer_data s.num_kv_heads s.head_dim layer k v
    some (record s { keys = ks; values = vs; layer_data = set s.layer_data layer_idx layer' })

  -- A new store with the data of the snapshot and the zeroed states of a fresh cache.
  unfoldable pub restore_from_snapshot : KvStoreSnapshot F → Config → KvStore F
  restore_from_snapshot s config = record {
    kv_quant = s.kv_quant;
    layer_data = s.layer_data;
    keys = s.keys;
    values = s.values;
    num_kv_heads = s.num_kv_heads;
    head_dim = s.head_dim;
    seq_len = s.seq_len;
    kv_dim = s.kv_dim;
    text_pos = 0;
    conv_cache = tabulate config.num_layers 0 (λ _.
        if ltb 0 config.conv_l_cache
        then replicate (config.hidden_size * config.conv_l_cache) (lit 0)
        else []);
    deltanet_recurrent = tabulate config.num_layers 0 (λ i.
        if config.is_deltanet_layer i
        then replicate config.deltanet_recurrent_size (lit 0)
        else []);
    deltanet_conv = tabulate config.num_layers 0 (λ i.
        if config.is_deltanet_layer i
        then replicate (config.deltanet_conv_dim * unwrap_or config.linear_conv_kernel_dim 4)
            (lit 0)
        else []);
    bidirectional = false;
  }

module _ {F : Type 0} where
  unfoldable pub truncate_to : KvStore F → ℕ → ℕ → Option (KvStore F)
  truncate_to s layer_idx trim_to = do
    ks ←
        if is_bf16 s.kv_quant
        then truncate_at s.keys layer_idx (trim_to * s.kv_dim)
        else some s.keys
    vs ←
        if is_bf16 s.kv_quant
        then truncate_at s.values layer_idx (trim_to * s.kv_dim)
        else some s.values
    layer ← get_elem? s.layer_data layer_idx
    let layer' = Kv.truncate_to layer trim_to s.head_dim
    some (record s { keys = ks; values = vs; layer_data = set s.layer_data layer_idx layer' })

  unfoldable pub cached_len : KvStore F → ℕ → Option ℕ
  cached_len s layer_idx = get_elem? s.layer_data layer_idx >>= λ ld. Kv.cached_len ld s.head_dim

  unfoldable pub advance_seq_len : KvStore F → ℕ → KvStore F
  advance_seq_len s count = record s { seq_len = s.seq_len + count }

  unfoldable pub memory_bytes : KvStore F → ℕ
  memory_bytes s = layers_bytes s.layer_data + (sum_bytes 2 s.keys + sum_bytes 2 s.values)

  unfoldable pub snapshot : KvStore F → KvStoreSnapshot F
  snapshot s = record {
    kv_quant = s.kv_quant;
    layer_data = s.layer_data;
    keys = s.keys;
    values = s.values;
    num_kv_heads = s.num_kv_heads;
    head_dim = s.head_dim;
    seq_len = s.seq_len;
    kv_dim = s.kv_dim;
  }
