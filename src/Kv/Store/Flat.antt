-- ===== src/Kv/Store/Flat.antt =====
-- `KvStore::append` and `KvStore::truncate_to` of crates/backends/backend_common/src/kv_cache.rs: the
-- layer and the flat bf16 copies together.
use herbert_rs.Prelude.{
  ℕ, zero, suc, ◌*◌, ◌<◌, ◌≡◌, refl, ap, some, List, [], ◌∷◌, ◌++◌, map, length, take, set,
  get_elem?, arith, Bool, true, false, if◌then◌else◌, extend_at, take-append,
}
use herbert_rs.Floats.{Floats}
use herbert_rs.Kv.{KvLayerData, KvStore}
use herbert_rs.Kv.Quant.{f32_to_bf16}
use herbert_rs.Kv.Store.{append, truncate_to, truncate_at, is_bf16}
use herbert_rs.Kv.Store.Shape.{Holds}
use herbert_rs.Kv.Store.Rollback.{append-Appends}

module _ {A : Type 0} where
  below :
      (x : List A) (vs' vs : List (List A)) (i m : ℕ)
      → truncate_at vs' i m ≡ some vs
      → truncate_at (x ∷ vs') (suc i) m ≡ some (x ∷ vs)
  unfolding truncate_at
  below x vs' vs i m h = ground arith

  -- A vector that is extended and truncated to its old length is the old one.
  truncate_at-extend_at :
      (vs : List (List A)) (i m : ℕ) (v e : List A)
      → get_elem? vs i ≡ some v
      → length v ≡ m
      → (vs' : List (List A)) × (extend_at vs i e ≡ some vs') × (truncate_at vs' i m ≡ some vs)
  unfolding extend_at truncate_at
  truncate_at-extend_at [] i m v e at len = cc
  truncate_at-extend_at (x ∷ vs) zero m v e at len =
      ((x ++ e) ∷ vs, refl, ap (λ t. some (t ∷ vs)) (back x e m (ground arith)))
    where
      back : (x e : List A) (m : ℕ) → length x ≡ m → take m (x ++ e) ≡ x
      back x e m len = rw (← len) (take-append x e)
  truncate_at-extend_at (x ∷ vs) (suc i) m v e at len =
      let (vs', run, back) = truncate_at-extend_at vs i m v e at len in
      (x ∷ vs', rw run refl, below x vs' vs i m back)

  set-get_elem? :
      (xs : List A) (i : ℕ) (x y : A) → get_elem? xs i ≡ some x → set (set xs i y) i x ≡ xs
  set-get_elem? [] i x y h = refl
  set-get_elem? (z ∷ xs) zero x y h = ground arith
  set-get_elem? (z ∷ xs) (suc i) x y h = ap (◌∷◌ z) (set-get_elem? xs i x y h)

  get_elem?-set_at :
      (xs : List A) (i : ℕ) (x y : A) → get_elem? xs i ≡ some x → get_elem? (set xs i y) i ≡ some y
  get_elem?-set_at [] i x y h = cc
  get_elem?-set_at (z ∷ xs) zero x y h = refl
  get_elem?-set_at (z ∷ xs) (suc i) x y h = get_elem?-set_at xs i x y h

-- The flat bf16 copies of layer `i` hold `m` positions.
pub record FlatHolds {F : Type 0} (s : KvStore F) (i m : ℕ) : Type 0 where
  pub keys_at : List ℕ
  pub keys_found : get_elem? s.keys i ≡ some keys_at
  pub keys_length : length keys_at ≡ m * s.kv_dim
  pub values_at : List ℕ
  pub values_found : get_elem? s.values i ≡ some values_at
  pub values_length : length values_at ≡ m * s.kv_dim

module _ (f : Floats) where
  open f use {F}

  flat_back :
      (s : KvStore F) (i m : ℕ) (b : Bool) (xs ys : List ℕ)
      → (b ≡ true → FlatHolds s i m)
      → (ks vs : List (List ℕ)) × ((if b then extend_at s.keys i xs else some s.keys) ≡ some ks)
        × ((if b then extend_at s.values i ys else some s.values) ≡ some vs)
        × ((if b then truncate_at ks i (m * s.kv_dim) else some ks) ≡ some s.keys)
        × ((if b then truncate_at vs i (m * s.kv_dim) else some vs) ≡ some s.values)
  flat_back s i m true xs ys flat =
      let h = flat refl in
      let (ks, k_run, k_back) =
        truncate_at-extend_at s.keys i (m * s.kv_dim) h.keys_at xs h.keys_found h.keys_length in
      let (vs, v_run, v_back) =
        truncate_at-extend_at s.values i (m * s.kv_dim) h.values_at ys h.values_found
          h.values_length in
      (ks, vs, k_run, v_run, k_back, v_back)
  flat_back s i m false xs ys flat = (s.keys, s.values, refl, refl, refl, refl)

  -- Rolling back: a store whose layer `i` holds `m` positions (and, in the bf16 format, its flat copies
  -- too), and whose positions are not empty, takes the keys and values of `n` more without a panic, and truncating layer `i` to `m`
  -- positions gives the very same store back.
  pub truncate_to-append :
      (s : KvStore F) (i m n : ℕ) (layer : KvLayerData F) (k v : List F)
      → get_elem? s.layer_data i ≡ some layer
      → Holds s.num_kv_heads s.head_dim m layer
      → (is_bf16 s.kv_quant ≡ true → FlatHolds s i m)
      → 0 < s.num_kv_heads * s.head_dim
      → length k ≡ n * (s.num_kv_heads * s.head_dim)
      → length v ≡ n * (s.num_kv_heads * s.head_dim)
      → (s' : KvStore F) × (append f s i k v ≡ some s') × (truncate_to s' i m ≡ some s)
  unfolding append truncate_to
  truncate_to-append s i m n layer k v at h flat pos lk lv =
      let (ks, vs, k_run, v_run, k_back, v_back) =
        flat_back s i m (is_bf16 s.kv_quant) (map (f32_to_bf16 f) k) (map (f32_to_bf16 f) v) flat in
      let (layer', run, holds, back) =
        append-Appends f s.num_kv_heads s.head_dim m n k v layer pos lk lv h in
      (
        record s { keys = ks; values = vs; layer_data = set s.layer_data i layer' },
        rw (k_run, v_run, at, run) refl,
        rw
            (
              k_back,
              v_back,
              get_elem?-set_at s.layer_data i layer layer' at,
              back,
              set-get_elem? s.layer_data i layer layer' at,
            )
            refl,
      )
