-- ===== src/Experts.antt =====
-- crates/backends/backend_common/src/expert_pool.rs: the usage counts of the experts of a layer, and the
-- order in which the experts that a token selects are run; and `top_k_indices` of generic_moe.rs beside
-- it, which selects them. The experts themselves are left out. A panic is `none`.
pub mod Recorded
pub mod Routed
mod Tests
use herbert_rs.Prelude.{
  ℕ, zero, suc, ◌+◌, ◌-◌, ◌%◌, ◌^◌, min, Bool, true, false, ◌||◌, Option, none, some, List, [], ◌∷◌,
  ◌++◌, length, take, drop, set, get_elem?, get_or, replicate, ltb, leb, ◌==◌, if◌then◌else◌, ◌>>=◌,
}
use herbert_rs.Prelude.Tokens.{is_empty}

-- `vec![0u32; n]` of `new_all_loaded`
unfoldable pub new_counts : ℕ → List ℕ
new_counts n = replicate n 0

-- `self.usage_counts[eid] = self.usage_counts[eid].wrapping_add(1)`
unfoldable pub record_use : ℕ → List ℕ → Option (List ℕ)
record_use eid counts = get_elem? counts eid >>= λ c. some (set counts eid ((c + 1) % 2 ^ 32))

module _ {F : Type 0} where
  -- The loop over the first `n` of those selected.
  unfoldable pub record_uses : ℕ → List (ℕ × F) → List ℕ → Option (List ℕ)
  record_uses zero selected counts = some counts
  record_uses (suc n) [] counts = none
  record_uses (suc n) (s ∷ selected) counts = record_use s.0 counts >>= record_uses n selected

  -- `sort_by`, by descending count; it keeps the order of equal counts.
  unfoldable pub insert_by_count : List ℕ → ℕ × F → List (ℕ × F) → List (ℕ × F)
  insert_by_count counts s [] = s ∷ []
  insert_by_count counts s (t ∷ ts) =
      if leb (get_or counts t.0 0) (get_or counts s.0 0)
      then s ∷ (t ∷ ts)
      else t ∷ insert_by_count counts s ts

  unfoldable pub sort_by_count : List ℕ → List (ℕ × F) → List (ℕ × F)
  sort_by_count counts [] = []
  sort_by_count counts (s ∷ ss) = insert_by_count counts s (sort_by_count counts ss)

  -- The counts, and what becomes of `selected`.
  unfoldable pub record_and_sort_by_frequency :
      ℕ → List (ℕ × F) → List ℕ → Option (List ℕ × List (ℕ × F))
  record_and_sort_by_frequency n_sel selected counts = do
    counts' ← record_uses n_sel selected counts
    some (counts', sort_by_count counts' (take n_sel selected) ++ drop n_sel selected)

  -- `enumerate`, from index `i` on
  unfoldable pub indexed_from : ℕ → List F → List (ℕ × F)
  indexed_from i [] = []
  indexed_from i (v ∷ vs) = (i, v) ∷ indexed_from (suc i) vs

  module _ (select_nth : ℕ → List (ℕ × F) → List (ℕ × F))
      (sort_desc : List (ℕ × F) → List (ℕ × F)) where
    -- What is written to `out`, and the count that is returned, of which `out` has `room` for.
    unfoldable pub top_k_indices : ℕ → List F → ℕ → Option (List (ℕ × F))
    top_k_indices room values k =
        if k == 0 || is_empty values
        then some []
        else if ltb 256 (length values) || ltb room (min k (length values))
        then none
        else some (
            sort_desc (
              take (min k (length values))
                (select_nth (min k (length values) - 1) (indexed_from 0 values))))
