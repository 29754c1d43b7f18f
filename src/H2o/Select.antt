-- ===== src/H2o/Select.antt =====
-- `select_kept` of crates/backends/backend_common/src/h2o.rs: the positions that an eviction keeps.
use mathlib.Core.List.{Perm}
use mathlib.Core.List.Perm
use native.Mathlib.Bridge.{le_prop}
use mathlib.Core.HLevel.{×_prop}
use herbert_rs.Prelude.{
  ℕ, ◌+◌, ◌-◌, ◌^◌, ◌≤◌, ◌<◌, ◌≡◌, refl, ap, ap₂, ◌∙◌, sym, subst, some, List, [], ◌++◌, min, max,
  length, take, arith, ltb, leb, Bool-cases, inl, inr, leb→le, leb-false, ltb→lt, ltb-false,
  length-append, length-take, length-map,
}
use herbert_rs.Prelude.Perms.{All-Perm, Distinct-Perm, length-Perm}
use herbert_rs.H2o.{
  h2o_sink_count, h2o_recent_window, u32_range, sort_by_position, select_middle, select_kept,
}
use herbert_rs.H2o.Rows.{Ascends}
use herbert_rs.H2o.Ranges.{
  range_Ascends, length-range, Ascends-append, Between, Ascends-Between, Ascends-Distinct,
  positions, score_range_lem, sort-Ascends, length-sort, All-take, Distinct-take,
}

kept_size :
    (budget n m sink evict : ℕ)
    → sink ≡ min h2o_sink_count n
    → evict ≡ max (n - h2o_recent_window) sink
    → m ≡ min (budget - sink - min h2o_recent_window (n - (n - h2o_recent_window))) (evict - sink)
    → sink + (m + (n - evict)) ≡ min n (max budget 136)
kept_size budget n m sink evict is_sink is_evict len = elim (Bool-cases (leb n 136)) [
  | inl is_few ↦
      let few = leb→le n 136 is_few in
      let whole : evict ≡ sink = omega (arith, is_sink, is_evict, few) in
      let none_left : m ≡ 0 = no_room whole in omega (arith, whole, none_left, is_sink, few)
  | inr is_many ↦
      let many = leb-false n 136 is_many in
      let sinks : sink ≡ 8 = omega (arith, is_sink, many) in
      let evicts : evict ≡ n - 128 = omega (arith, sinks, is_evict, many) in
      let window : min h2o_recent_window (n - (n - h2o_recent_window)) ≡ 128 =
        omega (arith, many) in
      omega (arith, sinks, evicts, many, replaced sinks evicts window)
]
  where
    no_room : evict ≡ sink → m ≡ 0
    no_room e = omega (arith, len, e)

    replaced :
        sink ≡ 8
        → evict ≡ n - 128
        → min h2o_recent_window (n - (n - h2o_recent_window)) ≡ 128
        → m ≡ min (budget - 8 - 128) (n - 128 - 8)
    replaced a b c = len ∙ ap₂ min (ap₂ ◌-◌ (ap (◌-◌ budget) a) c) (ap₂ ◌-◌ b a)

-- What is kept of `cached_len` positions: the sinks, `middle`, and the recent window.
pub record Kept (budget cached_len : ℕ) (kept middle : List ℕ) : Type 0 where
  -- no position twice, and in ascending order
  pub ascends : Ascends 0 kept cached_len
  pub size : length kept ≡ min cached_len (max budget (h2o_sink_count + h2o_recent_window))
  pub parts :
      kept
      ≡ u32_range 0 (min h2o_sink_count cached_len)
        ++ (middle
            ++ u32_range
                (max (cached_len - h2o_recent_window) (min h2o_sink_count cached_len))
                cached_len)

module _ {F : Type 0} (by_score : List (ℕ × F) → List (ℕ × F))
    (permutes : (xs : List (ℕ × F)) → Perm xs (by_score xs)) where
  -- The middle part, between `start` and `start + n`.
  select_middle_lem :
      (scores : List F) (start n middle_budget : ℕ)
      → start + n ≤ length scores
      → start + n < 2 ^ 32
      → (middle : List ℕ) × (select_middle by_score scores start (start + n) middle_budget
          ≡ some middle)
        × Ascends start middle (start + n)
        × (length middle ≡ min middle_budget n)
  unfolding select_middle
  select_middle_lem scores start n middle_budget room small =
      let (sc, run, same) = score_range_lem scores start n room in
      let asc : Ascends start (positions sc) (start + n) =
        subst (λ t. Ascends start t (start + n)) (sym same) (range_Ascends n start small) in
      let moved = Perm.map (λ (e : ℕ × F). e.0) (permutes sc) in
      let chosen = take middle_budget (by_score sc) in
      (
        positions (sort_by_position chosen),
        rw (count, run) refl,
        sort-Ascends start (start + n) chosen
            (All-take (Between start (start + n)) middle_budget (by_score sc) (
              All-Perm (Between start (start + n)) (λ p. ×_prop le_prop le_prop) moved
                (Ascends-Between start (start + n) (positions sc) asc)))
            (Distinct-take middle_budget (by_score sc)
              (Distinct-Perm moved (Ascends-Distinct start (start + n) (positions sc) asc))),
        length-map (λ (e : ℕ × F). e.0) (sort_by_position chosen)
            ∙ length-sort chosen
            ∙ length-take middle_budget (by_score sc)
            ∙ ap (min middle_budget) (
                sym (length-Perm (permutes sc))
                ∙ sym (length-map (λ (e : ℕ × F). e.0) sc)
                ∙ ap length same
                ∙ length-range n start),
      )
    where
      count : start + n - start ≡ n
      count = omega arith

  -- The three parts make up a selection.
  join_parts :
      (budget n : ℕ) (middle : List ℕ) (sink evict : ℕ)
      → sink ≡ min h2o_sink_count n
      → evict ≡ max (n - h2o_recent_window) sink
      → n < 2 ^ 32
      → Ascends sink middle evict
      → length middle
        ≡ min (budget - sink - min h2o_recent_window (n - (n - h2o_recent_window))) (evict - sink)
      → Kept budget n (u32_range 0 sink ++ (middle ++ u32_range evict n)) middle
  join_parts budget n middle sink evict is_sink is_evict small asc len = record {
    ascends =
        Ascends-append 0 sink n (u32_range 0 sink) (middle ++ u32_range evict n) (omega arith)
          (omega arith) sinks
          (Ascends-append sink evict n middle (u32_range evict n) (omega arith) (omega arith) asc
            recent);
    size =
        length-append (u32_range 0 sink) (middle ++ u32_range evict n)
        ∙ ap₂ ◌+◌ (length-range (sink - 0) 0 ∙ sub-zero) (
            length-append middle (u32_range evict n)
            ∙ ap (◌+◌ (length middle)) (length-range (n - evict) evict))
        ∙ kept_size budget n (length middle) sink evict is_sink is_evict len;
    parts = rw (is_evict, is_sink) refl;
  }
    where
      sub-zero : sink - 0 ≡ sink
      sub-zero = omega arith

      sinks : Ascends 0 (u32_range 0 sink) sink
      sinks =
          subst (λ t. Ascends 0 (u32_range 0 sink) t) same
            (range_Ascends (sink - 0) 0 (omega arith))
        where
          same : 0 + (sink - 0) ≡ sink
          same = omega arith

      recent : Ascends evict (u32_range evict n) n
      recent =
          subst (λ t. Ascends evict (u32_range evict n) t) same
            (range_Ascends (n - evict) evict (omega arith))
        where
          same : evict + (n - evict) ≡ n
          same = omega arith

  -- If the sort by score permutes, and there is a score for each of the fewer than 2^32 cached
  -- positions, the selection does not panic. It keeps the first 8 positions, a part of the middle, and
  -- the last 128: ascending, hence none twice, and as many as the budget says, but never fewer than
  -- 136 or than all.
  pub select_kept-Kept :
      (scores : List F) (budget cached_len : ℕ)
      → cached_len ≤ length scores
      → cached_len < 2 ^ 32
      → (kept middle : List ℕ) × (select_kept by_score scores budget cached_len ≡ some kept)
        × Kept budget cached_len kept middle
  unfolding select_kept
  select_kept-Kept scores budget n room small = elim (Bool-cases (ltb sink evict)) [
    | inl some_middle ↦
        let (middle, run, asc, len) = chosen (ltb→lt sink evict some_middle) in
        (
          u32_range 0 sink ++ (middle ++ u32_range evict n),
          middle,
          rw (some_middle, run, again) refl,
          join_parts budget n middle sink evict refl refl small asc len,
        )
    | inr no_middle ↦ (
      u32_range 0 sink ++ ([] ++ u32_range evict n),
      [],
      rw (no_middle, again) refl,
      join_parts budget n [] sink evict refl refl small tt
          (omega (arith, ltb-false sink evict no_middle)),
    )
  ]
    where
      sink : ℕ
      sink = min h2o_sink_count n

      evict : ℕ
      evict = max (n - h2o_recent_window) sink

      budget_left : ℕ
      budget_left = budget - sink - min h2o_recent_window (n - (n - h2o_recent_window))

      again : max evict sink ≡ evict
      again = omega arith

      chosen :
          sink < evict
          → (middle : List ℕ) × (select_middle by_score scores sink evict budget_left ≡ some middle)
            × Ascends sink middle evict
            × (length middle ≡ min budget_left (evict - sink))
      chosen lt =
          subst
            (λ e.
              (middle : List ℕ) × (select_middle by_score scores sink e budget_left ≡ some middle)
              × Ascends sink middle e
              × (length middle ≡ min budget_left (evict - sink)))
            whole
            (select_middle_lem scores sink (evict - sink) budget_left (omega (arith, room))
              (omega arith))
        where
          whole : sink + (evict - sink) ≡ evict
          whole = omega arith
