-- ===== src/Kv/Store/Shape.antt =====
-- The shape of a KV layer that holds `n` positions, and the rule for the two loops of
-- `append_layer_data` (crates/backends/backend_common/src/kv_cache.rs).
use native.Mathlib.Nat.{mul-div_cancel}
use herbert_rs.Prelude.{
  ℕ, suc, ◌*◌, ◌/◌, ◌≤◌, ◌<◌, ◌≡◌, refl, Option, some, List, [], ◌∷◌, length, arith, false,
  for_range, for_range_inv, checked_div_pos, ◌==◌,
}
use herbert_rs.Kv
use herbert_rs.Kv.{KvLayerData, int4_num_groups, first_len_div}
use herbert_rs.Kv.Store.{for_positions}
use herbert_rs.Kv.Store.Growth.{AllLength}

-- `vs` has one vector for each head, of `m` elements each.
pub record Heads {A : Type 0} (num_kv_heads m : ℕ) (vs : List (List A)) : Type 0 where
  pub heads : length vs ≡ num_kv_heads
  pub lengths : AllLength m vs

-- The layer holds `n` positions.
abbrev pub Holds : {F : Type 0} → ℕ → ℕ → ℕ → KvLayerData F → Type 0
Holds num_kv_heads head_dim n (KvLayerData.f32 ks vs) =
    Heads num_kv_heads (n * head_dim) ks × Heads num_kv_heads (n * head_dim) vs
Holds num_kv_heads head_dim n (KvLayerData.bf16 ks vs) =
    Heads num_kv_heads (n * head_dim) ks × Heads num_kv_heads (n * head_dim) vs
Holds num_kv_heads head_dim n (KvLayerData.int8 ks vs kss vss) =
    Heads num_kv_heads (n * head_dim) ks
    × Heads num_kv_heads (n * head_dim) vs
    × Heads num_kv_heads (n * 1) kss
    × Heads num_kv_heads (n * 1) vss
Holds num_kv_heads head_dim n (KvLayerData.int4 ks vs kss vss) =
    Heads num_kv_heads (n * (head_dim / 2)) ks
    × Heads num_kv_heads (n * (head_dim / 2)) vs
    × Heads num_kv_heads (n * int4_num_groups head_dim) kss
    × Heads num_kv_heads (n * int4_num_groups head_dim) vss

-- An invariant of both loops, `pos` positions and `h` heads of the next one being done.
pub for_positions_inv {ℓ κ} :
    {S : Type ℓ} (P : ℕ → ℕ → S → Type κ) (body : ℕ → ℕ → S → Option S) (n heads : ℕ) (s : S)
    → ((pos h : ℕ) (t : S)
        → pos < n
        → h < heads
        → P pos h t
        → (u : S) × (body pos h t ≡ some u) × P pos (suc h) u)
    → ((pos : ℕ) (t : S) → P pos heads t → P (suc pos) 0 t)
    → P 0 0 s
    → (u : S) × (for_positions n heads body s ≡ some u) × P n 0 u
unfolding for_positions
for_positions_inv {S} P body n heads s keep row start =
    for_range_inv (λ pos t. P pos 0 t) (λ pos t. for_range heads 0 (body pos) t) n 0 n s
      (omega arith)
      (λ pos t lo hi p.
        let (u, run, done) =
          for_range_inv (P pos) (body pos) heads 0 heads t (omega arith)
            (λ h w lo' hi' q. keep pos h w hi hi' q) p in
        (u, run, row pos u done))
      start

first_len_div-Heads :
    {A : Type 0} (num_kv_heads n d : ℕ) (vs : List (List A))
    → 0 < num_kv_heads
    → 0 < d
    → Heads num_kv_heads (n * d) vs
    → first_len_div vs d ≡ some n
unfolding first_len_div
first_len_div-Heads heads n d [] pos dim h = absurd (omega (arith, h.heads))
first_len_div-Heads heads n d (v ∷ vs) pos dim h =
    rw (checked_div_pos (length v) d dim, h.lengths.0, mul-div_cancel n dim) refl

pub groups-pos : (head_dim : ℕ) → 32 ≤ head_dim → 0 < int4_num_groups head_dim
unfolding int4_num_groups
groups-pos head_dim h = omega arith

-- With at least one head, and a head dimension of at least 32 (a whole group of the 4-bit format), the number of
-- positions is read off a layer that holds them, in every format.
cached_len-Holds :
    {F : Type 0} (num_kv_heads head_dim n : ℕ) (layer : KvLayerData F)
    → 0 < num_kv_heads
    → 32 ≤ head_dim
    → Holds num_kv_heads head_dim n layer
    → Kv.cached_len layer head_dim ≡ some n
unfolding Kv.cached_len
cached_len-Holds heads dim n (KvLayerData.f32 ks vs) pos wide h =
    first_len_div-Heads heads n dim ks pos (omega arith) h.0
cached_len-Holds heads dim n (KvLayerData.bf16 ks vs) pos wide h =
    first_len_div-Heads heads n dim ks pos (omega arith) h.0
cached_len-Holds heads dim n (KvLayerData.int8 ks vs kss vss) pos wide h =
    first_len_div-Heads heads n dim ks pos (omega arith) h.0
cached_len-Holds heads dim n (KvLayerData.int4 ks vs kss vss) pos wide h =
    rw (some_groups)
      (first_len_div-Heads heads n (int4_num_groups dim) kss pos (groups-pos dim wide) h.2)
  where
    some_groups : (int4_num_groups dim == 0) ≡ false
    some_groups = ground (arith, groups-pos dim wide)
