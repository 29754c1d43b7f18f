-- ===== src/H2o/Tests.antt =====
-- Runs of the eviction, and its theorems at them.
use mathlib.Core.List.Perm
use herbert_rs.Prelude.{
  ℕ, ◌≡◌, refl, false, some, List, [], ◌∷◌, length, arith, copy_within, write_at,
}
use herbert_rs.Kv.{KvLayerData, KvStore, KvQuantType}
use herbert_rs.Kv.Store.{tabulate}
use herbert_rs.H2o.{
  as_u32, score_range, insert_by_position, sort_by_position, select_middle, select_kept, move_rows,
  move_scales, compact_rows, compact_scales, compact_layer, compact, h2o_evict, hysteresis,
}
use herbert_rs.H2o.Select.{Kept, select_kept-Kept}

program : Unit {0}
unfolding copy_within write_at tabulate score_range insert_by_position sort_by_position
    select_middle select_kept move_rows move_scales compact_rows compact_scales compact_layer
    compact h2o_evict hysteresis
program = tt

-- The moves of rows of two elements: positions 0, 2 and 3 of 4 are kept.
rows :
    compact_rows {A = ℕ} 2 (0 ∷ 2 ∷ 3 ∷ []) (1 ∷ 2 ∷ 3 ∷ 4 ∷ 5 ∷ 6 ∷ 7 ∷ 8 ∷ [])
    ≡ some (1 ∷ 2 ∷ 5 ∷ 6 ∷ 7 ∷ 8 ∷ [])
unfolding program
rows = refl

scales : compact_scales {A = ℕ} (1 ∷ 3 ∷ []) (9 ∷ 8 ∷ 7 ∷ 6 ∷ []) ≡ some (8 ∷ 6 ∷ [])
unfolding program
scales = refl

-- A sort by score that happens to leave the order alone.
abbrev by_score : List (ℕ × ℕ) → List (ℕ × ℕ)
by_score xs = xs

abbrev scores : List ℕ
scores = tabulate 140 0 as_u32

-- One head of dimension 1 in 32-bit floats, with 140 positions.
abbrev kv : KvStore ℕ
kv = record {
  kv_quant = KvQuantType.f32;
  layer_data = KvLayerData.f32 (scores ∷ []) (scores ∷ []) ∷ [];
  keys = [];
  values = [];
  num_kv_heads = 1;
  head_dim = 1;
  seq_len = 140;
  kv_dim = 1;
  text_pos = 140;
  conv_cache = [];
  deltanet_recurrent = [];
  deltanet_conv = [];
  bidirectional = false;
}

scores-length : length scores ≡ 140
unfolding program
scores-length = refl

select_kept-Kept_example :
    (kept middle : List ℕ) × (select_kept by_score scores 138 140 ≡ some kept)
    × Kept 138 140 kept middle
select_kept-Kept_example =
    select_kept-Kept by_score (λ xs. Perm.refl xs) scores 138 140 (omega (arith, scores-length))
      (omega arith)
