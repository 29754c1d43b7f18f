-- ===== src/H2o.antt =====
-- crates/backends/backend_common/src/h2o.rs: which positions of a full KV cache are kept, and the
-- compaction of the cache to them. `none` is a panic.
--
-- The scores come from `score_probe`, dot products of floats, as an argument. `by_score` stands for
-- the standard library's `sort_unstable_by` on the scores, of which nothing is used but that it
-- permutes; the sort by position, whose keys are distinct, is written out.
pub mod Ranges
pub mod Select
pub mod Rows
pub mod Compact
mod Tests
use herbert_rs.Prelude.{
  ℕ, zero, suc, ◌+◌, ◌-◌, ◌*◌, ◌/◌, ◌%◌, ◌^◌, min, max, Option, none, some, List, [], ◌∷◌, ◌++◌,
  map, length, take, get_elem?, ltb, leb, ◌==◌, if◌then◌else◌, ◌>>=◌, copy_within, write_at,
  map_all,
}
use herbert_rs.Kv.{KvLayerData, KvStore, int4_num_groups}
use herbert_rs.Kv.Store.{tabulate, is_bf16}

abbrev pub h2o_sink_count : ℕ
h2o_sink_count = 8

abbrev pub h2o_recent_window : ℕ
h2o_recent_window = 128

unfoldable pub hysteresis : ℕ → ℕ
hysteresis budget = min (budget / 8) 512

abbrev pub as_u32 : ℕ → ℕ
as_u32 i = i % 2 ^ 32

-- `(start..end).map(|i| i as u32)`
abbrev pub u32_range : ℕ → ℕ → List ℕ
u32_range start end = tabulate (end - start) start as_u32

module _ {F : Type 0} where
  -- `(start..start + n).map(|i| (i as u32, scores[i]))`
  unfoldable pub score_range : List F → ℕ → ℕ → Option (List (ℕ × F))
  score_range scores start zero = some []
  score_range scores start (suc n) = do
    x ← get_elem? scores start
    rest ← score_range scores (suc start) n
    some ((as_u32 start, x) ∷ rest)

  -- `sort_unstable_by_key(|&(pos, _)| pos)`
  unfoldable pub insert_by_position : ℕ × F → List (ℕ × F) → List (ℕ × F)
  insert_by_position x [] = x ∷ []
  insert_by_position x (y ∷ ys) = if leb x.0 y.0 then x ∷ (y ∷ ys) else y ∷ insert_by_position x ys

  unfoldable pub sort_by_position : List (ℕ × F) → List (ℕ × F)
  sort_by_position [] = []
  sort_by_position (x ∷ xs) = insert_by_position x (sort_by_position xs)

  module _ (by_score : List (ℕ × F) → List (ℕ × F)) where
    -- The scored positions of the middle that are kept.
    unfoldable pub select_middle : List F → ℕ → ℕ → ℕ → Option (List ℕ)
    select_middle scores start end middle_budget = do
      scored ← score_range scores start (end - start)
      some (map (λ (e : ℕ × F). e.0) (sort_by_position (take middle_budget (by_score scored))))

    unfoldable pub select_kept : List F → ℕ → ℕ → Option (List ℕ)
    select_kept scores budget cached_len =
        let sink_count = min h2o_sink_count cached_len in
        let recent_start = cached_len - h2o_recent_window in
        let evictable_end = max recent_start sink_count in
        let middle_budget =
          budget - sink_count - min h2o_recent_window (cached_len - recent_start) in
        (if ltb sink_count evictable_end
          then select_middle scores sink_count evictable_end middle_budget
          else some [])
        >>= λ middle. some (
            u32_range 0 sink_count
            ++ (middle ++ u32_range (max evictable_end sink_count) cached_len))

-- The loop over `kept_positions` that moves a row of `width` elements, from new position `new_pos` on.
unfoldable pub move_rows : {A : Type 0} → ℕ → ℕ → List ℕ → List A → Option (List A)
move_rows width new_pos [] v = some v
move_rows width new_pos (old_pos ∷ kept) v =
    (if old_pos == new_pos
      then some v
      else copy_within v (old_pos * width) (old_pos * width + width) (new_pos * width))
    >>= move_rows width (suc new_pos) kept

-- The loop over the scales of the 8-bit format, one for each position.
unfoldable pub move_scales : {A : Type 0} → ℕ → List ℕ → List A → Option (List A)
move_scales new_pos [] v = some v
move_scales new_pos (old_pos ∷ kept) v =
    (if old_pos == new_pos then some v else get_elem? v old_pos >>= λ x. write_at v new_pos x)
    >>= move_scales (suc new_pos) kept

-- One vector: the loop, and the `truncate` behind it.
unfoldable pub compact_rows : {A : Type 0} → ℕ → List ℕ → List A → Option (List A)
compact_rows width kept v = move_rows width 0 kept v >>= λ w. some (take (length kept * width) w)

unfoldable pub compact_scales : {A : Type 0} → List ℕ → List A → Option (List A)
compact_scales kept v = move_scales 0 kept v >>= λ w. some (take (length kept) w)

unfoldable pub compact_layer : {F : Type 0} → ℕ → List ℕ → KvLayerData F → Option (KvLayerData F)
compact_layer head_dim kept (KvLayerData.f32 ks vs) = do
  ks' ← map_all (compact_rows head_dim kept) ks
  vs' ← map_all (compact_rows head_dim kept) vs
  some (KvLayerData.f32 ks' vs')
compact_layer head_dim kept (KvLayerData.bf16 ks vs) = do
  ks' ← map_all (compact_rows head_dim kept) ks
  vs' ← map_all (compact_rows head_dim kept) vs
  some (KvLayerData.bf16 ks' vs')
compact_layer head_dim kept (KvLayerData.int8 ks vs kss vss) = do
  ks' ← map_all (compact_rows head_dim kept) ks
  vs' ← map_all (compact_rows head_dim kept) vs
  kss' ← map_all (compact_scales kept) kss
  vss' ← map_all (compact_scales kept) vss
  some (KvLayerData.int8 ks' vs' kss' vss')
compact_layer head_dim kept (KvLayerData.int4 ks vs kss vss) = do
  ks' ← map_all (compact_rows (head_dim / 2) kept) ks
  vs' ← map_all (compact_rows (head_dim / 2) kept) vs
  kss' ← map_all (compact_rows (int4_num_groups head_dim) kept) kss
  vss' ← map_all (compact_rows (int4_num_groups head_dim) kept) vss
  some (KvLayerData.int4 ks' vs' kss' vss')

unfoldable pub compact : {F : Type 0} → KvStore F → List ℕ → ℕ → Option (KvStore F)
compact kv kept head_dim = do
  layers ← map_all (compact_layer head_dim kept) kv.layer_data
  ks ← if is_bf16 kv.kv_quant then map_all (compact_rows kv.kv_dim kept) kv.keys else some kv.keys
  vs ←
      if is_bf16 kv.kv_quant
      then map_all (compact_rows kv.kv_dim kept) kv.values
      else some kv.values
  some (record kv { layer_data = layers; keys = ks; values = vs })

-- `scores` is what `score_probe` computes; the result comes with the number of evicted positions.
unfoldable pub h2o_evict :
    {F : Type 0}
    → (List (ℕ × F) → List (ℕ × F))
    → List F
    → KvStore F
    → ℕ
    → ℕ
    → Option (KvStore F × ℕ)
h2o_evict by_score scores kv head_dim budget =
    let cached_len = kv.seq_len in
    if leb cached_len budget then some (kv, 0) else (do
      kept ← select_kept by_score scores budget cached_len
      let num_kept = length kept
      kv' ← compact kv kept head_dim
      some (record kv' { seq_len = num_kept }, cached_len - num_kept))
