-- ===== src/Kv/Store/Append.antt =====
-- The loops of `append_layer_data` for the formats without scales
-- (crates/backends/backend_common/src/kv_cache.rs).
use herbert_rs.Prelude.{
  ℕ, suc, ◌+◌, ◌*◌, ◌≤◌, ◌<◌, ◌≡◌, refl, ◌∙◌, sym, some, List, map, length, arith, slice,
  slice-some, extend_at, length-map,
}
use herbert_rs.Floats.{Floats}
use herbert_rs.Kv.Store.{append_f32, append_bf16, for_positions}
use herbert_rs.Kv.Quant.{f32_to_bf16}
use herbert_rs.Kv.Store.Growth.{
  GrownBy, GrownBy-refl, GrownBy-ext, extend_at-GrownBy, grown, grown_here, grown_other, grown_row,
  grown_none,
}
use herbert_rs.Kv.Store.Shape.{for_positions_inv}

-- The slice of one head of one position lies in a flat vector of `n` positions.
pub head_in_range :
    (heads dim n pos h : ℕ)
    → pos < n
    → h < heads
    → pos * (heads * dim) + h * dim + dim ≤ n * (heads * dim)
head_in_range heads dim n pos h lt lt' = omega (arith, row, place)
  where
    row : suc pos * (heads * dim) ≤ n * (heads * dim)
    row = grind arith

    place : suc h * dim ≤ heads * dim
    place = grind arith

-- The slice itself.
pub head_slice :
    {F : Type 0} (heads dim n pos h : ℕ) (k : List F)
    → length k ≡ n * (heads * dim)
    → pos < n
    → h < heads
    → (xs : List F) × (slice k (pos * (heads * dim) + h * dim) (pos * (heads * dim) + h * dim + dim)
        ≡ some xs)
      × (length xs ≡ dim)
head_slice heads dim n pos h k len lt lt' =
    let (xs, run, size) =
      slice-some k (pos * (heads * dim) + h * dim) (pos * (heads * dim) + h * dim + dim)
        (omega arith) (omega (arith, head_in_range heads dim n pos h lt lt')) in
    (xs, run, omega arith)

-- One more head of a vector of vectors.
pub extend_head :
    {A : Type 0} (stride pos h : ℕ) (xs ys : List (List A)) (e : List A)
    → h < length xs
    → length e ≡ stride
    → GrownBy (grown stride pos h) xs ys
    → (zs : List (List A)) × (extend_at ys h e ≡ some zs) × GrownBy (grown stride pos (suc h)) xs zs
extend_head stride pos h xs ys e lt size gr =
    extend_at-GrownBy (grown stride pos h) (grown stride pos (suc h)) xs ys h e lt
      (rw size (grown_here stride pos h)) (grown_other stride pos h) gr

pub row_done :
    {A : Type 0} (stride pos heads : ℕ) (xs ys : List (List A))
    → length xs ≡ heads
    → GrownBy (grown stride pos heads) xs ys
    → GrownBy (grown stride (suc pos) 0) xs ys
row_done stride pos heads xs ys len gr =
    GrownBy-ext (grown stride pos heads) (grown stride (suc pos) 0) xs ys
      (λ i lt. grown_row stride pos heads i (omega arith)) gr

pub none_done : {A : Type 0} (stride : ℕ) (xs : List (List A)) → GrownBy (grown stride 0 0) xs xs
none_done stride xs =
    GrownBy-ext (λ i. 0) (grown stride 0 0) xs xs (λ i lt. sym (grown_none stride i))
      (GrownBy-refl xs)

-- Both the keys and the values have grown so far.
abbrev pub BothGrown :
    {A : Type 0}
    → ℕ
    → List (List A)
    → List (List A)
    → ℕ
    → ℕ
    → List (List A) × List (List A)
    → Type 0
BothGrown dim ks vs pos h s = GrownBy (grown dim pos h) ks s.0 × GrownBy (grown dim pos h) vs s.1

module _ (f : Floats) (heads dim n : ℕ) (k v : List f.F) where
  open f use {F}

  append_f32_keeps :
      (ks vs : List (List F)) (pos h : ℕ) (s : List (List F) × List (List F))
      → length k ≡ n * (heads * dim)
      → length v ≡ n * (heads * dim)
      → length ks ≡ heads
      → length vs ≡ heads
      → pos < n
      → h < heads
      → BothGrown dim ks vs pos h s
      → (u : List (List F) × List (List F)) × (append_f32 f (heads * dim) dim k v pos h s ≡ some u)
        × BothGrown dim ks vs pos (suc h) u
  unfolding append_f32
  append_f32_keeps ks vs pos h s lk lv lks lvs lt lt' g =
      let (k_head, k_run, k_len) = head_slice heads dim n pos h k lk lt lt' in
      let (v_head, v_run, v_len) = head_slice heads dim n pos h v lv lt lt' in
      let (ks', ks_run, gk) = extend_head dim pos h ks s.0 k_head (omega arith) k_len g.0 in
      let (vs', vs_run, gv) = extend_head dim pos h vs s.1 v_head (omega arith) v_len g.1 in
      ((ks', vs'), rw (k_run, ks_run, v_run, vs_run) refl, (gk, gv))

  pub append_f32_loops :
      (ks vs : List (List F))
      → length k ≡ n * (heads * dim)
      → length v ≡ n * (heads * dim)
      → length ks ≡ heads
      → length vs ≡ heads
      → (u : List (List F) × List (List F)) × (for_positions n heads
            (append_f32 f (heads * dim) dim k v)
            (ks, vs)
          ≡ some u)
        × BothGrown dim ks vs n 0 u
  append_f32_loops ks vs lk lv lks lvs =
      for_positions_inv (BothGrown dim ks vs) (append_f32 f (heads * dim) dim k v) n heads (ks, vs)
        (λ pos h s lt lt' g. append_f32_keeps ks vs pos h s lk lv lks lvs lt lt' g)
        (λ pos s g. (row_done dim pos heads ks s.0 lks g.0, row_done dim pos heads vs s.1 lvs g.1))
        (none_done dim ks, none_done dim vs)

  append_bf16_keeps :
      (ks vs : List (List ℕ)) (pos h : ℕ) (s : List (List ℕ) × List (List ℕ))
      → length k ≡ n * (heads * dim)
      → length v ≡ n * (heads * dim)
      → length ks ≡ heads
      → length vs ≡ heads
      → pos < n
      → h < heads
      → BothGrown dim ks vs pos h s
      → (u : List (List ℕ) × List (List ℕ)) × (append_bf16 f (heads * dim) dim k v pos h s ≡ some u)
        × BothGrown dim ks vs pos (suc h) u
  unfolding append_bf16
  append_bf16_keeps ks vs pos h s lk lv lks lvs lt lt' g =
      let (k_head, k_run, k_len) = head_slice heads dim n pos h k lk lt lt' in
      let (v_head, v_run, v_len) = head_slice heads dim n pos h v lv lt lt' in
      let (ks', ks_run, gk) =
        extend_head dim pos h ks s.0 (map (f32_to_bf16 f) k_head) (omega arith)
          (length-map (f32_to_bf16 f) k_head ∙ k_len) g.0 in
      let (vs', vs_run, gv) =
        extend_head dim pos h vs s.1 (map (f32_to_bf16 f) v_head) (omega arith)
          (length-map (f32_to_bf16 f) v_head ∙ v_len) g.1 in
      ((ks', vs'), rw (k_run, ks_run, v_run, vs_run) refl, (gk, gv))

  pub append_bf16_loops :
      (ks vs : List (List ℕ))
      → length k ≡ n * (heads * dim)
      → length v ≡ n * (heads * dim)
      → length ks ≡ heads
      → length vs ≡ heads
      → (u : List (List ℕ) × List (List ℕ)) × (for_positions n heads
            (append_bf16 f (heads * dim) dim k v)
            (ks, vs)
          ≡ some u)
        × BothGrown dim ks vs n 0 u
  append_bf16_loops ks vs lk lv lks lvs =
      for_positions_inv (BothGrown dim ks vs) (append_bf16 f (heads * dim) dim k v) n heads (ks, vs)
        (λ pos h s lt lt' g. append_bf16_keeps ks vs pos h s lk lv lks lvs lt lt' g)
        (λ pos s g. (row_done dim pos heads ks s.0 lks g.0, row_done dim pos heads vs s.1 lvs g.1))
        (none_done dim ks, none_done dim vs)
