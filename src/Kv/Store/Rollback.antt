-- ===== src/Kv/Store/Rollback.antt =====
-- `append_layer_data` and `truncate_to` of crates/backends/backend_common/src/kv_cache.rs against one
-- another.
use native.Mathlib.Nat.{mul-div_cancel}
use herbert_rs.Prelude.{
  ℕ, ◌+◌, ◌*◌, ◌/◌, ◌<◌, ◌≡◌, refl, ap, ap₂, ◌∙◌, subst, some, List, length, arith, checked_div,
  checked_div_pos,
}
use herbert_rs.Floats.{Floats}
use herbert_rs.Kv
use herbert_rs.Kv.{KvLayerData, int4_num_groups, truncate_all}
use herbert_rs.Kv.Store.{append_layer_data}
use herbert_rs.Kv.Store.Growth.{
  GrownBy, GrownBy-ext, GrownBy-length, AllLength, truncate_all-GrownBy, AllLength-GrownBy, grown,
}
use herbert_rs.Kv.Store.Shape.{Heads, Holds}
use herbert_rs.Kv.Store.Append.{append_f32_loops, append_bf16_loops}
use herbert_rs.Kv.Store.Quantized.{append_int8_loops, append_int4_loops}

-- One vector of vectors, `n` positions of `stride` elements after `m` such.
Heads-grown :
    {A : Type 0} (heads stride m n : ℕ) (xs ys : List (List A))
    → Heads heads (m * stride) xs
    → GrownBy (grown stride n 0) xs ys
    → Heads heads ((m + n) * stride) ys
Heads-grown heads stride m n xs ys h g = record {
  heads = GrownBy-length (grown stride n 0) xs ys g ∙ h.heads;
  lengths =
      subst (λ t. AllLength t ys) sum
        (AllLength-GrownBy (n * stride) (m * stride) xs ys h.lengths
          (GrownBy-ext (grown stride n 0) (λ i. n * stride) xs ys (λ i _. ground arith) g));
}
  where
    sum : m * stride + n * stride ≡ (m + n) * stride
    sum = omega arith

Heads-back :
    {A : Type 0} (heads stride m n : ℕ) (xs ys : List (List A))
    → Heads heads (m * stride) xs
    → GrownBy (grown stride n 0) xs ys
    → truncate_all (m * stride) ys ≡ xs
Heads-back heads stride m n xs ys h g =
    truncate_all-GrownBy (grown stride n 0) (m * stride) xs ys h.lengths g

module _ (f : Floats) (heads dim m n : ℕ) (k v : List f.F) where
  open f use {F}

  -- What an append of `n` positions to a layer that holds `m` must do.
  abbrev pub Appends : KvLayerData F → Type 0
  Appends layer =
      (layer' : KvLayerData F) × (append_layer_data f heads dim layer k v ≡ some layer')
      × Holds heads dim (m + n) layer'
      × (Kv.truncate_to layer' m dim ≡ layer)

  positions :
      0 < heads * dim → length k ≡ n * (heads * dim) → checked_div (length k) (heads * dim) ≡ some n
  positions pos len =
      rw (len, checked_div_pos (n * (heads * dim)) (heads * dim) pos)
        (ap some (mul-div_cancel n pos))

  -- In each of the four formats, appending the keys and values of `n` positions to a layer that holds
  -- `m` never panics, gives a layer that holds `m + n`, and truncating that to `m` positions gives
  -- the old layer back.
  pub append-Appends :
      (layer : KvLayerData F)
      → 0 < heads * dim
      → length k ≡ n * (heads * dim)
      → length v ≡ n * (heads * dim)
      → Holds heads dim m layer
      → Appends layer
  unfolding append_layer_data Kv.truncate_to
  append-Appends (KvLayerData.f32 ks vs) pos lk lv (hk, hv) =
      let ((ks', vs'), run, (gk, gv)) =
        append_f32_loops f heads dim n k v ks vs lk lv hk.heads hv.heads in
      (
        KvLayerData.f32 ks' vs',
        rw (positions pos lk, run) refl,
        (Heads-grown heads dim m n ks ks' hk gk, Heads-grown heads dim m n vs vs' hv gv),
        ap₂ KvLayerData.f32 (Heads-back heads dim m n ks ks' hk gk)
            (Heads-back heads dim m n vs vs' hv gv),
      )
  append-Appends (KvLayerData.bf16 ks vs) pos lk lv (hk, hv) =
      let ((ks', vs'), run, (gk, gv)) =
        append_bf16_loops f heads dim n k v ks vs lk lv hk.heads hv.heads in
      (
        KvLayerData.bf16 ks' vs',
        rw (positions pos lk, run) refl,
        (Heads-grown heads dim m n ks ks' hk gk, Heads-grown heads dim m n vs vs' hv gv),
        ap₂ KvLayerData.bf16 (Heads-back heads dim m n ks ks' hk gk)
            (Heads-back heads dim m n vs vs' hv gv),
      )
  append-Appends (KvLayerData.int8 ks vs kss vss) pos lk lv (hk, hv, hks, hvs) =
      let ((ks', vs', kss', vss'), run, (gk, gv, gks, gvs)) =
        append_int8_loops f heads dim n k v (ks, vs, kss, vss) lk lv
          (hk.heads, hv.heads, hks.heads, hvs.heads) in
      (
        KvLayerData.int8 ks' vs' kss' vss',
        rw (positions pos lk, run) refl,
        (
          Heads-grown heads dim m n ks ks' hk gk,
          Heads-grown heads dim m n vs vs' hv gv,
          Heads-grown heads 1 m n kss kss' hks gks,
          Heads-grown heads 1 m n vss vss' hvs gvs,
        ),
        cc (
          Heads-back heads dim m n ks ks' hk gk,
          Heads-back heads dim m n vs vs' hv gv,
          one m kss' ∙ Heads-back heads 1 m n kss kss' hks gks,
          one m vss' ∙ Heads-back heads 1 m n vss vss' hvs gvs,
        ),
      )
    where
      one : (m : ℕ) {A : Type 0} (xs : List (List A)) → truncate_all m xs ≡ truncate_all (m * 1) xs
      one m xs = ap (λ t. truncate_all t xs) (omega arith)
  append-Appends (KvLayerData.int4 ks vs kss vss) pos lk lv (hk, hv, hks, hvs) =
      let groups = int4_num_groups dim in
      let (((ks', vs', kss', vss'), buf), run, (gk, gv, gks, gvs)) =
        append_int4_loops f heads dim n k v (ks, vs, kss, vss) lk lv
          (hk.heads, hv.heads, hks.heads, hvs.heads) in
      (
        KvLayerData.int4 ks' vs' kss' vss',
        rw (positions pos lk, run) refl,
        (
          Heads-grown heads (dim / 2) m n ks ks' hk gk,
          Heads-grown heads (dim / 2) m n vs vs' hv gv,
          Heads-grown heads groups m n kss kss' hks gks,
          Heads-grown heads groups m n vss vss' hvs gvs,
        ),
        cc (
          Heads-back heads (dim / 2) m n ks ks' hk gk,
          Heads-back heads (dim / 2) m n vs vs' hv gv,
          Heads-back heads groups m n kss kss' hks gks,
          Heads-back heads groups m n vss vss' hvs gvs,
        ),
      )
