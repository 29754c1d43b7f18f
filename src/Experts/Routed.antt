-- ===== src/Experts/Routed.antt =====
-- `top_k_indices` of crates/backends/backend_common/src/generic_moe.rs, and what it selects as the input of
-- `record_and_sort_by_frequency` of expert_pool.rs beside it.
use mathlib.Core.List.{Perm}
use mathlib.Core.List.Perm
use native.Mathlib.Bridge.{le_prop}
use herbert_rs.Prelude.{
  ℕ, suc, ◌+◌, ◌-◌, ◌%◌, ◌^◌, ◌≤◌, ◌<◌, ◌≡◌, refl, sym, ap, subst, ◌∙◌, inl, inr, ◌≢◌, min, some,
  List, [], ◌∷◌, ◌++◌, length, take, get_or, length-take, length-append, take-append, drop-append,
  All, le→ltb, ◌==◌, arith, Bool-cases,
}
use herbert_rs.Prelude.Perms.{All-Perm, Distinct, Distinct-Perm, length-Perm}
use herbert_rs.H2o.Ranges.{positions, All-take, Distinct-take}
use herbert_rs.Experts.{indexed_from, top_k_indices, record_and_sort_by_frequency}
use herbert_rs.Experts.Recorded.{selections, Descends, record_and_sort-Recorded}

module _ {F : Type 0} where
  indexed-range :
      (i n : ℕ) (vs : List F)
      → i + length vs ≤ n
      → All (λ e. (i ≤ e) × (e < n)) (positions (indexed_from i vs))
  unfolding indexed_from
  indexed-range i n [] h = tt
  indexed-range i n (v ∷ vs) h = (
    (omega arith, omega arith),
    widen (positions (indexed_from (suc i) vs)) (indexed-range (suc i) n vs (omega arith)),
  )
    where
      widen : (es : List ℕ) → All (λ e. (suc i ≤ e) × (e < n)) es → All (λ e. (i ≤ e) × (e < n)) es
      widen [] k = tt
      widen (e ∷ es) k = ((omega (arith, k.0.0), k.0.1), widen es k.1)

  indexed-Distinct : (i : ℕ) (vs : List F) → Distinct (positions (indexed_from i vs))
  unfolding indexed_from
  indexed-Distinct i [] = tt
  indexed-Distinct i (v ∷ vs) = (
    apart (suc i + length vs) (positions (indexed_from (suc i) vs))
        (indexed-range (suc i) (suc i + length vs) vs (omega arith)),
    indexed-Distinct (suc i) vs,
  )
    where
      apart : (n : ℕ) (es : List ℕ) → All (λ e. (suc i ≤ e) × (e < n)) es → All (λ e. e ≢ i) es
      apart n [] k = tt
      apart n (e ∷ es) k = ((λ q. absurd (omega (arith, k.0.0, q))), apart n es k.1)

  length-indexed : (i : ℕ) (vs : List F) → length (indexed_from i vs) ≡ length vs
  unfolding indexed_from
  length-indexed i [] = refl
  length-indexed i (v ∷ vs) = ap suc (length-indexed (suc i) vs)

  -- A selection of experts below `n`, none twice.
  pub record Selects (n k : ℕ) (out : List (ℕ × F)) : Type 0 where
    pub many : length out ≡ min k n
    pub below : All (λ e. e < n) (positions out)
    pub apart : Distinct (positions out)

  module _ (select_nth : ℕ → List (ℕ × F) → List (ℕ × F)) (sort_desc : List (ℕ × F) → List (ℕ × F))
      (selects : (i : ℕ) (xs : List (ℕ × F)) → Perm (select_nth i xs) xs)
      (sorts : (xs : List (ℕ × F)) → Perm (sort_desc xs) xs) where
    chosen-Selects :
        (values : List F) (i k : ℕ)
        → Selects
            (length values)
            k
            (sort_desc (take (min k (length values)) (select_nth i (indexed_from 0 values))))
    chosen-Selects values i k = record {
      many =
          length-Perm (sorts _)
          ∙ length-take (min k (length values)) (select_nth i (indexed_from 0 values))
          ∙ omega (arith, length-Perm (selects i (indexed_from 0 values)), length-indexed 0 values);
      below =
          All-Perm (λ e. e < length values) (λ e. le_prop)
            (Perm.map (λ s. s.0) (Perm.symm (sorts _)))
            (All-take (λ e. e < length values) (min k (length values))
              (select_nth i (indexed_from 0 values))
              (All-Perm (λ e. e < length values) (λ e. le_prop)
                (Perm.map (λ s. s.0) (Perm.symm (selects i (indexed_from 0 values))))
                (only_below (length values) (positions (indexed_from 0 values))
                  (indexed-range 0 (length values) values (omega arith)))));
      apart = Distinct-Perm (Perm.map (λ s. s.0) (Perm.symm (sorts _))) (
          Distinct-take (min k (length values)) (select_nth i (indexed_from 0 values)) (
            Distinct-Perm (Perm.map (λ s. s.0) (Perm.symm (selects i (indexed_from 0 values))))
              (indexed-Distinct 0 values)));
    }
      where
        only_below : (n : ℕ) (es : List ℕ) → All (λ e. (0 ≤ e) × (e < n)) es → All (λ e. e < n) es
        only_below n [] h = tt
        only_below n (e ∷ es) h = (h.0.1, only_below n es h.1)

    top_k-Selects :
        (room : ℕ) (values : List F) (k : ℕ)
        → length values ≤ 256
        → min k (length values) ≤ room
        → (out : List (ℕ × F)) × (top_k_indices select_nth sort_desc room values k ≡ some out)
          × Selects (length values) k out
    unfolding top_k_indices
    top_k-Selects room [] k few fits = elim (Bool-cases (k == 0)) [
      | inl e ↦ ([], rw e refl, record { many = omega arith; below = tt; apart = tt })
      | inr e ↦ ([], rw e refl, record { many = omega arith; below = tt; apart = tt })
    ]
    top_k-Selects room (v ∷ vs) k few fits = elim (Bool-cases (k == 0)) [
      | inl e ↦ ([], rw e refl, record { many = ground arith; below = tt; apart = tt })
      | inr e ↦ (
        _,
        rw (e, le→ltb 256 (length (v ∷ vs)) few, le→ltb room (min k (length (v ∷ vs))) fits) refl,
        chosen-Selects (v ∷ vs) (min k (length (v ∷ vs)) - 1) k,
      )
    ]

    -- A routed token is recorded without a panic: with at most 256 experts, a buffer with room for those
    -- selected, sorts that permute, and a usage count for each expert, the experts that `top_k_indices`
    -- puts into the buffer are `k`, or all there are, none twice; each count grows by the selections of its
    -- expert modulo 2 ^ 32, and the rest of the buffer stays; and they are permuted so that none comes after one now used less.
    pub routed-Recorded :
        (room : ℕ) (values : List F) (rest : List (ℕ × F)) (k : ℕ) (counts : List ℕ)
        → length values ≤ 256
        → min k (length values) ≤ room
        → length counts ≡ length values
        → (out first : List (ℕ × F)) × (counts' : List ℕ) × (top_k_indices select_nth sort_desc room
              values k
            ≡ some out)
          × Selects (length values) k out
          × (record_and_sort_by_frequency (length out) (out ++ rest) counts
              ≡ some (counts', first ++ rest))
          × ((e : ℕ)
              → get_or counts' e 0 % 2 ^ 32 ≡ (get_or counts e 0 + selections e out) % 2 ^ 32)
          × Perm first out
          × Descends counts' first
    routed-Recorded room values rest k counts few fits same =
        let (out, run, s) = top_k-Selects room values k few fits in
        let (counts', first, recorded, sums, moved, sorted) =
          record_and_sort-Recorded (length out) (out ++ rest) counts
            (omega (arith, length-append out rest))
            (subst (All (λ e. e.0 < length counts)) (sym (take-append out rest)) (
              subst (λ n. All (λ e. e.0 < n) out) (sym same)
                (of_positions (length values) out s.below))) in
        (
          out,
          first,
          counts',
          run,
          s,
          subst
              (λ d.
                record_and_sort_by_frequency (length out) (out ++ rest) counts
                ≡ some (counts', first ++ d))
              (drop-append out rest) recorded,
          λ e.
              subst
                (λ t. get_or counts' e 0 % 2 ^ 32 ≡ (get_or counts e 0 + selections e t) % 2 ^ 32)
                (take-append out rest) (sums e),
          subst (Perm first) (take-append out rest) moved,
          sorted,
        )
      where
        of_positions :
            (n : ℕ) (es : List (ℕ × F)) → All (λ e. e < n) (positions es) → All (λ e. e.0 < n) es
        of_positions n [] h = tt
        of_positions n (e ∷ es) h = (h.0, of_positions n es h.1)
