-- ===== src/Kv/Store/Quantized.antt =====
-- The loops of `append_layer_data` for the formats with scales
-- (crates/backends/backend_common/src/kv_cache.rs).
use herbert_rs.Prelude.{
  ℕ, suc, ◌+◌, ◌*◌, ◌/◌, ◌<◌, ◌≡◌, ◌≢◌, refl, ◌∙◌, some, List, [], ◌∷◌, ◌++◌, map, length, take,
  replicate, arith, slice-some, length-map, length-append, length-take, length-replicate, for_range,
  for_range_inv, ◌==◌, if◌then◌else◌,
}
use herbert_rs.Floats.{Floats}
use herbert_rs.Kv.{int4_num_groups}
use herbert_rs.Kv.Store.{append_int8, append_group, append_int4, for_positions}
use herbert_rs.Kv.Quant.{compute_int8_scale, quantize_i8, compute_int4_scale}
use herbert_rs.Kv.Quant.Packing.{pack_i4_group_lem}
use herbert_rs.Kv.Store.Growth.{GrownBy, GrownBy-ext, extend_at-GrownBy, grown}
use herbert_rs.Kv.Store.Shape.{for_positions_inv}
use herbert_rs.Kv.Store.Append.{head_slice, extend_head, row_done, none_done}

-- The keys, the values and both scales of a layer.
abbrev pub Parts : Type 0 → Type 0
Parts F = List (List ℕ) × List (List ℕ) × List (List F) × List (List F)

abbrev pub PartsGrown : {F : Type 0} → ℕ → ℕ → Parts F → ℕ → ℕ → Parts F → Type 0
PartsGrown dim scales (ks, vs, kss, vss) pos h (kcur, vcur, kscur, vscur) =
    GrownBy (grown dim pos h) ks kcur
    × GrownBy (grown dim pos h) vs vcur
    × GrownBy (grown scales pos h) kss kscur
    × GrownBy (grown scales pos h) vss vscur

abbrev pub PartsHeads : {F : Type 0} → ℕ → Parts F → Type 0
PartsHeads heads (ks, vs, kss, vss) =
    (length ks ≡ heads) × (length vs ≡ heads) × (length kss ≡ heads) × (length vss ≡ heads)

parts_row_done :
    {F : Type 0} (dim scales pos heads : ℕ) (p q : Parts F)
    → PartsHeads heads p
    → PartsGrown dim scales p pos heads q
    → PartsGrown dim scales p (suc pos) 0 q
parts_row_done dim scales pos heads (ks, vs, kss, vss) (kcur, vcur, kscur, vscur) len g = (
  row_done dim pos heads ks kcur len.0 g.0,
  row_done dim pos heads vs vcur len.1 g.1,
  row_done scales pos heads kss kscur len.2 g.2,
  row_done scales pos heads vss vscur len.3 g.3,
)

parts_none_done : {F : Type 0} (dim scales : ℕ) (p : Parts F) → PartsGrown dim scales p 0 0 p
parts_none_done dim scales (ks, vs, kss, vss) =
    (none_done dim ks, none_done dim vs, none_done scales kss, none_done scales vss)

-- What the scales of head `i` have grown by when `j` groups of head `h` are done.
abbrev groups_grown : ℕ → ℕ → ℕ → ℕ → ℕ → ℕ
groups_grown scales pos h j i = grown scales pos h i + (if i == h then j else 0)

groups_here :
    (scales pos h j : ℕ) → groups_grown scales pos h (suc j) h ≡ groups_grown scales pos h j h + 1
groups_here scales pos h j = ground arith

groups_other :
    (scales pos h j i : ℕ)
    → i ≢ h
    → groups_grown scales pos h (suc j) i ≡ groups_grown scales pos h j i
groups_other scales pos h j i ne = ground arith

groups_none : (scales pos h i : ℕ) → grown scales pos h i ≡ groups_grown scales pos h 0 i
groups_none scales pos h i = ground arith

groups_all : (scales pos h i : ℕ) → groups_grown scales pos h scales i ≡ grown scales pos (suc h) i
groups_all scales pos h i = ground arith

module _ (f : Floats) (heads dim n : ℕ) (k v : List f.F) where
  open f use {F}

  append_int8_keeps :
      (p : Parts F) (pos h : ℕ) (s : Parts F)
      → length k ≡ n * (heads * dim)
      → length v ≡ n * (heads * dim)
      → PartsHeads heads p
      → pos < n
      → h < heads
      → PartsGrown dim 1 p pos h s
      → (u : Parts F) × (append_int8 f (heads * dim) dim k v pos h s ≡ some u)
        × PartsGrown dim 1 p pos (suc h) u
  unfolding append_int8
  append_int8_keeps (ks, vs, kss, vss) pos h (kcur, vcur, kscur, vscur) lk lv len lt lt' g =
      let (k_head, k_run, k_len) = head_slice heads dim n pos h k lk lt lt' in
      let (v_head, v_run, v_len) = head_slice heads dim n pos h v lv lt lt' in
      let k_scale = compute_int8_scale f k_head in
      let v_scale = compute_int8_scale f v_head in
      let (kss', kss_run, gks) =
        extend_head 1 pos h kss kscur (k_scale ∷ []) (omega arith) refl g.2 in
      let (ks', ks_run, gk) =
        extend_head dim pos h ks kcur (map (λ x. quantize_i8 f x k_scale) k_head) (omega arith)
          (length-map (λ x. quantize_i8 f x k_scale) k_head ∙ k_len) g.0 in
      let (vss', vss_run, gvs) =
        extend_head 1 pos h vss vscur (v_scale ∷ []) (omega arith) refl g.3 in
      let (vs', vs_run, gv) =
        extend_head dim pos h vs vcur (map (λ x. quantize_i8 f x v_scale) v_head) (omega arith)
          (length-map (λ x. quantize_i8 f x v_scale) v_head ∙ v_len) g.1 in
      (
        (ks', vs', kss', vss'),
        rw (k_run, v_run, kss_run, ks_run, vss_run, vs_run) refl,
        (gk, gv, gks, gvs),
      )

  pub append_int8_loops :
      (p : Parts F)
      → length k ≡ n * (heads * dim)
      → length v ≡ n * (heads * dim)
      → PartsHeads heads p
      → (u : Parts F) × (for_positions n heads (append_int8 f (heads * dim) dim k v) p ≡ some u)
        × PartsGrown dim 1 p n 0 u
  append_int8_loops p lk lv len =
      for_positions_inv (PartsGrown dim 1 p) (append_int8 f (heads * dim) dim k v) n heads p
        (λ pos h s lt lt' g. append_int8_keeps p pos h s lk lv len lt lt' g)
        (λ pos s g. parts_row_done dim 1 pos heads p s len g) (parts_none_done dim 1 p)

  -- The scales of a head after `j` groups, and a buffer of the right length.
  abbrev GroupsDone : List (List F) → ℕ → ℕ → ℕ → List (List F) × List ℕ → Type 0
  GroupsDone scales pos h j (scs, buf) =
      GrownBy (groups_grown (int4_num_groups dim) pos h j) scales scs × (length buf ≡ dim / 2)

  append_group_keeps :
      (head : List F) (scales : List (List F)) (pos h j : ℕ) (s : List (List F) × List ℕ)
      → length head ≡ dim
      → h < length scales
      → j < int4_num_groups dim
      → GroupsDone scales pos h j s
      → (u : List (List F) × List ℕ) × (append_group f head h j s ≡ some u)
        × GroupsDone scales pos h (suc j) u
  unfolding append_group int4_num_groups
  append_group_keeps head scales pos h j (scs, buf) len lt lt' g =
      let (group, g_run, g_len) =
        slice-some head (j * 32) (j * 32 + 32) (omega arith) (omega arith) in
      let scale = compute_int4_scale f group in
      let (scs', s_run, gr) =
        extend_at-GrownBy (groups_grown (int4_num_groups dim) pos h j)
          (groups_grown (int4_num_groups dim) pos h (suc j)) scales scs h (scale ∷ []) lt
          (groups_here (int4_num_groups dim) pos h j) (groups_other (int4_num_groups dim) pos h j)
          g.0 in
      let (rest, r_run, r_len) =
        slice-some buf (j * 16) (length buf) (omega (arith, g.1)) (omega arith) in
      let (packed, p_run, p_done) =
        pack_i4_group_lem f group scale rest (omega arith) (omega (arith, g.1)) in
      (
        (scs', take (j * 16) buf ++ packed),
        rw (g_run, s_run, r_run, p_run) refl,
        (
          gr,
          omega (
            arith,
            length-append (take (j * 16) buf) packed,
            length-take (j * 16) buf,
            p_done.0,
            g.1,
          ),
        ),
      )

  -- The groups of one head: as many scales, and the buffer is as long as before.
  groups_loop :
      (head : List F) (scales scs : List (List F)) (pos h : ℕ) (buf : List ℕ)
      → length head ≡ dim
      → h < length scales
      → GrownBy (grown (int4_num_groups dim) pos h) scales scs
      → length buf ≡ dim / 2
      → (u : List (List F) × List ℕ) × (for_range
            (int4_num_groups dim)
            0
            (append_group f head h)
            (scs, buf)
          ≡ some u)
        × GrownBy (grown (int4_num_groups dim) pos (suc h)) scales u.0
        × (length u.1 ≡ dim / 2)
  groups_loop head scales scs pos h buf len lt gr size =
      let groups = int4_num_groups dim in
      let (u, run, done) =
        for_range_inv (GroupsDone scales pos h) (append_group f head h) groups 0 groups (scs, buf)
          (omega arith) (λ j s lo hi g. append_group_keeps head scales pos h j s len lt hi g)
          (
            GrownBy-ext (grown groups pos h) (groups_grown groups pos h 0) scales scs
                (λ i _. groups_none groups pos h i) gr,
            size,
          ) in
      (
        u,
        run,
        GrownBy-ext (groups_grown groups pos h groups) (grown groups pos (suc h)) scales u.0
            (λ i _. groups_all groups pos h i) done.0,
        done.1,
      )

  abbrev PackedGrown : Parts F → ℕ → ℕ → Parts F × List ℕ → Type 0
  PackedGrown p pos h (s, buf) =
      PartsGrown (dim / 2) (int4_num_groups dim) p pos h s × (length buf ≡ dim / 2)

  append_int4_keeps :
      (p : Parts F) (pos h : ℕ) (s : Parts F × List ℕ)
      → length k ≡ n * (heads * dim)
      → length v ≡ n * (heads * dim)
      → PartsHeads heads p
      → pos < n
      → h < heads
      → PackedGrown p pos h s
      → (u : Parts F × List ℕ) × (append_int4 f (heads * dim) dim k v pos h s ≡ some u)
        × PackedGrown p pos (suc h) u
  unfolding append_int4
  append_int4_keeps (ks, vs, kss, vss) pos h ((kcur, vcur, kscur, vscur), buf) lk lv len lt lt'
        (g, size) =
      let (k_head, k_run, k_len) = head_slice heads dim n pos h k lk lt lt' in
      let (v_head, v_run, v_len) = head_slice heads dim n pos h v lv lt lt' in
      let ((kss', k_buf), kss_run, gks, k_size) =
        groups_loop k_head kss kscur pos h buf k_len (omega arith) g.2 size in
      let (ks', ks_run, gk) = extend_head (dim / 2) pos h ks kcur k_buf (omega arith) k_size g.0 in
      let ((vss', v_buf), vss_run, gvs, v_size) =
        groups_loop v_head vss vscur pos h k_buf v_len (omega arith) g.3 k_size in
      let (vs', vs_run, gv) = extend_head (dim / 2) pos h vs vcur v_buf (omega arith) v_size g.1 in
      (
        ((ks', vs', kss', vss'), v_buf),
        rw (k_run, v_run, kss_run, ks_run, vss_run, vs_run) refl,
        ((gk, gv, gks, gvs), v_size),
      )

  pub append_int4_loops :
      (p : Parts F)
      → length k ≡ n * (heads * dim)
      → length v ≡ n * (heads * dim)
      → PartsHeads heads p
      → (u : Parts F × List ℕ) × (for_positions n heads
            (append_int4 f (heads * dim) dim k v)
            (p, replicate (dim / 2) 0)
          ≡ some u)
        × PartsGrown (dim / 2) (int4_num_groups dim) p n 0 u.0
  append_int4_loops p lk lv len =
      let (u, run, done) =
        for_positions_inv (PackedGrown p) (append_int4 f (heads * dim) dim k v) n heads
          (p, replicate (dim / 2) 0)
          (λ pos h s lt lt' g. append_int4_keeps p pos h s lk lv len lt lt' g)
          (λ pos s g. (parts_row_done (dim / 2) (int4_num_groups dim) pos heads p s.0 len g.0, g.1))
          (parts_none_done (dim / 2) (int4_num_groups dim) p, length-replicate (dim / 2) 0) in
      (u, run, done.0)
