-- ===== src/Experts/Tests.antt =====
-- Four experts, of which a token selects the two with the greatest weights.
use mathlib.Core.List.{Perm}
use mathlib.Core.List.Perm
use herbert_rs.Prelude.{
  ℕ, ◌+◌, ◌%◌, ◌^◌, ◌≡◌, refl, some, List, [], ◌∷◌, ◌++◌, length, get_or, arith,
}
use herbert_rs.Experts.{
  new_counts, record_use, record_uses, insert_by_count, sort_by_count, record_and_sort_by_frequency,
  indexed_from, top_k_indices,
}
use herbert_rs.Experts.Recorded.{selections, Descends}
use herbert_rs.Experts.Routed.{Selects, routed-Recorded}

program : Unit {0}
unfolding new_counts record_use record_uses insert_by_count sort_by_count
    record_and_sort_by_frequency indexed_from top_k_indices
program = tt

-- The weights fall, so that nothing has to move to select the first.
abbrev nth : ℕ → List (ℕ × ℕ) → List (ℕ × ℕ)
nth i xs = xs

abbrev desc : List (ℕ × ℕ) → List (ℕ × ℕ)
desc xs = xs

abbrev weights : List ℕ
weights = 40 ∷ 30 ∷ 20 ∷ 10 ∷ []

used_more_first :
    record_and_sort_by_frequency {F = ℕ} 2 ((0, 40) ∷ (1, 30) ∷ (9, 0) ∷ []) (5 ∷ 7 ∷ 0 ∷ 0 ∷ [])
    ≡ some (6 ∷ 8 ∷ 0 ∷ 0 ∷ [], (1, 30) ∷ (0, 40) ∷ (9, 0) ∷ [])
unfolding program
used_more_first = refl

routed-Recorded_example :
    (out first : List (ℕ × ℕ)) × (counts : List ℕ) × (top_k_indices nth desc 8 weights 2 ≡ some out)
    × Selects 4 2 out
    × (record_and_sort_by_frequency (length out) (out ++ ((9, 0) ∷ [])) (new_counts 4)
        ≡ some (counts, first ++ ((9, 0) ∷ [])))
    × ((e : ℕ)
        → get_or counts e 0 % 2 ^ 32 ≡ (get_or (new_counts 4) e 0 + selections e out) % 2 ^ 32)
    × Perm first out
    × Descends counts first
unfolding program
routed-Recorded_example =
    routed-Recorded nth desc (λ i xs. Perm.refl xs) (λ xs. Perm.refl xs) 8 weights ((9, 0) ∷ []) 2
      (new_counts 4) (omega arith) (omega arith) refl
