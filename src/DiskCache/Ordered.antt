-- ===== src/DiskCache/Ordered.antt =====
-- The order of the index of crates/backends/backend_common/src/prefix_cache.rs, through every operation.
use herbert_rs.Prelude.{
  ℕ, ◌≤◌, Bool, true, false, Option, none, some, List, [], ◌∷◌, length, take, All, Bool-cases,
  Option-cases, inl, inr, ltb, leb, max, ◌*◌, ◌/◌, ◌==◌, if◌then◌else◌,
}
use herbert_rs.Prelude.Text.{Text}
use herbert_rs.Prelude.Tokens.{is_empty}
use herbert_rs.Kv.{KvStore}
use herbert_rs.DiskCache.Index.{
  IndexEntry, PrefixCache, Files, exists_file, total_size, evict_if_needed,
}
use herbert_rs.DiskCache.Format.{all_layer_bytes}
use herbert_rs.DiskCache.{lookup_from, lookup, is_cached, save_inner, save, save_system}
use herbert_rs.DiskCache.Longest.{Descends, sort_desc-Descends}

-- A branch: whatever the condition is.
if_either : {A : Type 0} (P : A → Type 0) (b : Bool) (x y : A) → P x → P y → P (if b then x else y)
if_either P true x y hx hy = hx
if_either P false x y hx hy = hy

-- The index of a result, if there is one.
abbrev pub Ordered : Option (PrefixCache × Files) → Type 0
Ordered none = Unit
Ordered (some (c, fs)) = Descends c.index

evict_if_needed-Descends :
    (c : PrefixCache) (fs : Files) → Descends c.index → Descends (evict_if_needed c fs).0.index
unfolding evict_if_needed
evict_if_needed-Descends c fs h =
    if_either (λ (r : PrefixCache × Files). Descends r.0.index)
      (leb (total_size c.index) c.config.max_size_bytes) _ _ h
      (if_either (λ (k : PrefixCache). Descends k.index) _ _ c (sort_desc-Descends _) h)

module _ (hash : List ℕ → ℕ) where
  lookup_from-All :
      (n clock : ℕ) (fs : Files) (tokens : List ℕ) (es : List IndexEntry)
      → All (λ (x : IndexEntry). x.prefix_len ≤ n) es
      → All (λ (x : IndexEntry). x.prefix_len ≤ n) (lookup_from hash clock fs tokens es).0
  unfolding lookup_from
  lookup_from-All n clock fs tokens [] h = tt
  lookup_from-All n clock fs tokens (e ∷ es) h =
      let rest = lookup_from-All n clock fs tokens es h.1 in
      let P = λ (r : List IndexEntry × Option (ℕ × Text)).
        All (λ (x : IndexEntry). x.prefix_len ≤ n) r.0 in
      if_either P (ltb (length tokens) e.prefix_len) _ _ (h.0, rest)
        (if_either P (hash (take e.prefix_len tokens) == e.token_hash) _ _
          (if_either P (exists_file fs e.file_name) _ _ (h.0, h.1) (h.0, rest)) (h.0, rest))

  lookup_from-Descends :
      (clock : ℕ) (fs : Files) (tokens : List ℕ) (es : List IndexEntry)
      → Descends es
      → Descends (lookup_from hash clock fs tokens es).0
  unfolding lookup_from
  lookup_from-Descends clock fs tokens [] d = tt
  lookup_from-Descends clock fs tokens (e ∷ es) d =
      let all = lookup_from-All e.prefix_len clock fs tokens es d.0 in
      let rest = lookup_from-Descends clock fs tokens es d.1 in
      let P = λ (r : List IndexEntry × Option (ℕ × Text)). Descends r.0 in
      if_either P (ltb (length tokens) e.prefix_len) _ _ (all, rest)
        (if_either P (hash (take e.prefix_len tokens) == e.token_hash) _ _
          (if_either P (exists_file fs e.file_name) _ _ (d.0, d.1) (all, rest)) (all, rest))

  module _ (name_of : ℕ → ℕ → Text) where
    save_inner-Ordered :
        {F : Type 0} (c : PrefixCache) (fs : Files) (tokens : List ℕ) (kv : KvStore F)
        → Descends c.index
        → Ordered (save_inner hash name_of c fs tokens kv)
    unfolding save_inner
    save_inner-Ordered c fs tokens kv d =
        elim (Bool-cases (is_cached hash (length tokens) (hash tokens) c.index)) [
          | inl cached ↦ rw cached d
          | inr fresh ↦
              elim (Option-cases
                (all_layer_bytes c.num_layers (length tokens * c.kv_dim) kv.keys kv.values)) [
                  | inl failed ↦ rw (fresh, failed) tt
                  | inr (body, written) ↦
                      rw (fresh, written) (evict_if_needed-Descends _ _ (sort_desc-Descends _))
                ]
        ]

    -- The index stays in descending order of length: through a lookup, which sets the times of entries, and through
    -- both ways of saving, evictions included, where they do not fail.
    pub operations-Ordered :
        {F : Type 0} (c : PrefixCache) (fs : Files) (tokens : List ℕ) (kv : KvStore F)
        → Descends c.index
        → Descends (lookup hash c fs tokens).0.index
          × Ordered (save hash name_of c fs tokens kv)
          × Ordered (save_system hash name_of c fs tokens kv)
    unfolding lookup save save_system
    operations-Ordered c fs tokens kv d =
        let save_len =
          length tokens / max c.config.checkpoint_interval 1 * max c.config.checkpoint_interval 1 in
        (
          if_either (λ (r : PrefixCache × Option (ℕ × Text)). Descends r.0.index) _ _ _ d
              (lookup_from-Descends _ fs tokens c.index d),
          if_either Ordered (ltb save_len c.config.min_prefix_len) (some (c, fs)) _ d
              (save_inner-Ordered c fs (take save_len tokens) kv d),
          if_either Ordered (is_empty tokens) (some (c, fs)) _ d
              (save_inner-Ordered c fs tokens kv d),
        )
