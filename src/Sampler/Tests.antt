-- ===== src/Sampler/Tests.antt =====
-- Runs of the sampler and of the think budget, and their theorems at them.
use mathlib.Core.List.{Perm}
use mathlib.Core.List.Perm
use Prim.Native.Nat.{Ordering}
use herbert_rs.Prelude.{
  ℕ, ◌+◌, ◌<◌, ◌≤◌, ◌≡◌, refl, true, false, inl, inr, Bool-cases, ltb, ◌==◌, ◌&&◌, ◌||◌, not,
  Option, none, some, ◌>>=◌, List, [], ◌∷◌, All, arith,
}
use herbert_rs.Floats.{Floats}
use herbert_rs.Floats.Bits.{bit_floats}
use herbert_rs.Sampler.{
  SamplerConfig, ThinkBudget, xorshift64, next_f32, argmax_from, argmax, scaled_from, sum_second,
  scale_second, softmax_work, cutoff_from, pick, partial_cmp, compare_desc, cut_top_p, draw,
  top_k_filter, top_p_filter, sample, is_greedy, force_from, force_single_token, track,
  apply_to_logits, choose,
}
use herbert_rs.Sampler.Think.{choose_all, choose_forced, choose_all_within, Asymmetric, IsSetUp}
use herbert_rs.Sampler.Range.{IsComparable, sample-lt}

program : Unit {0}
unfolding xorshift64 next_f32 argmax_from argmax scaled_from sum_second scale_second softmax_work
    cutoff_from pick partial_cmp compare_desc cut_top_p draw top_k_filter top_p_filter sample
    is_greedy force_from force_single_token track apply_to_logits choose
program = tt

-- Stand-ins for the standard library, which put the entries into the order of the comparison.
abbrev placed : {A : Type 0} → (A → A → Option Ordering) → A → List A → Option (List A)
placed cmp x [] = some (x ∷ [])
placed cmp x (y ∷ ys) = do
  order ← cmp x y
  elim order [ Ordering.gt ↦ (do rest ← placed cmp x ys; some (y ∷ rest)) | _ ↦ some (x ∷ y ∷ ys) ]

abbrev sorting : {A : Type 0} → (A → A → Option Ordering) → List A → Option (List A)
sorting cmp [] = some []
sorting cmp (x ∷ xs) = do rest ← sorting cmp xs; placed cmp x rest

abbrev selecting : {A : Type 0} → (A → A → Option Ordering) → ℕ → List A → Option (List A)
selecting cmp k xs = sorting cmp xs

-- On numbers, of which none is NaN, the sort ends and permutes.
compare_some : (a b : ℕ × ℕ) → (order : Ordering) × (compare_desc bit_floats a b ≡ some order)
unfolding program
compare_some a b = elim (Bool-cases (ltb b.1 a.1)) [
  | inl e ↦ (Ordering.lt, rw e refl)
  | inr e ↦ elim (Bool-cases (b.1 == a.1)) [
    | inl same ↦ (Ordering.eq, rw (e, same) refl)
    | inr other ↦ (Ordering.gt, rw (e, other, greater e other) refl)
  ]
]
  where
    greater : ltb b.1 a.1 ≡ false → (b.1 == a.1) ≡ false → ltb a.1 b.1 ≡ true
    greater e other = ground arith

comparable : (work : List (ℕ × ℕ)) → IsComparable bit_floats work
comparable work =
    all_of
      (λ x. all_of (λ y. λ (e : compare_desc bit_floats x y ≡ none). cc (compare_some x y).1) work)
      work
  where
    all_of : {P : ℕ × ℕ → Type 0} → ((x : ℕ × ℕ) → P x) → (xs : List (ℕ × ℕ)) → All P xs
    all_of h [] = tt
    all_of h (x ∷ xs) = (h x, all_of h xs)

placed-Perm :
    (x : ℕ × ℕ) (xs : List (ℕ × ℕ))
    → (ys : List (ℕ × ℕ)) × (placed (compare_desc bit_floats) x xs ≡ some ys) × Perm (x ∷ xs) ys
placed-Perm x [] = (_, refl, Perm.refl _)
placed-Perm x (y ∷ xs) =
    let (rest, run, same) = placed-Perm x xs in
    let (order, at) = compare_some x y in by_order rest run same order at
  where
    by_order :
        (rest : List (ℕ × ℕ))
        → placed (compare_desc bit_floats) x xs ≡ some rest
        → Perm (x ∷ xs) rest
        → (order : Ordering) → compare_desc bit_floats x y ≡ some order
        → (ys : List (ℕ × ℕ)) × (placed (compare_desc bit_floats) x (y ∷ xs) ≡ some ys)
          × Perm (x ∷ y ∷ xs) ys
    by_order rest run same Ordering.lt at = (_, rw at refl, Perm.refl _)
    by_order rest run same Ordering.eq at = (_, rw at refl, Perm.refl _)
    by_order rest run same Ordering.gt at =
        (y ∷ rest, rw (at, run) refl, Perm.trans (Perm.swap y x xs) (Perm.cons y same))

sorting-Perm :
    (xs : List (ℕ × ℕ))
    → (ys : List (ℕ × ℕ)) × (sorting (compare_desc bit_floats) xs ≡ some ys) × Perm xs ys
sorting-Perm [] = ([], refl, Perm.refl _)
sorting-Perm (x ∷ xs) =
    let (rest, run, same) = sorting-Perm xs in
    let (ys, run', same') = placed-Perm x rest in
    (ys, rw (run, run') refl, Perm.trans (Perm.cons x same) same')

-- With 9 for NaN, the comparison panics on it, and so does sampling.
abbrev nan_floats : Floats
nan_floats = record bit_floats {
  lt = λ a b. ltb a b && not (a == 9 || b == 9);
  feq = λ a b. a == b && not (a == 9);
}

nan_panics :
    sample nan_floats selecting sorting
      (record { temperature = 1; top_k = 2; top_p = 1 })
      8
      (4 ∷ 5 ∷ 6 ∷ 9 ∷ [])
    ≡ none
unfolding program
nan_panics = refl

abbrev budget : ThinkBudget
budget = record {
  max_tokens = 3;
  think_open_id = 0;
  think_close_id = 1;
  newline_id = 2;
  in_think = true;
  think_count = 2;
}

abbrev greedy : SamplerConfig bit_floats
greedy = record { temperature = 0; top_k = 0; top_p = 1 }

abbrev logits : List ℕ
logits = 4 ∷ 5 ∷ 6 ∷ 9 ∷ []

-- The model would go on with token 3, but a newline is forced.
forced : choose bit_floats selecting sorting greedy budget 8 logits ≡ some (2, 8)
unfolding program
forced = refl

ltb_asymmetric : Asymmetric bit_floats
ltb_asymmetric a b h = ground arith

greedy-is_greedy : is_greedy bit_floats greedy ≡ true
unfolding program
greedy-is_greedy = refl

budget-IsSetUp : IsSetUp bit_floats budget
budget-IsSetUp = record {
  active = omega arith;
  close_small = omega arith;
  newline_small = omega arith;
  newline_opens = omega arith;
  newline_closes = omega arith;
  close_opens = omega arith;
}

choose_forced_example :
    (budget.think_count + 1 < budget.max_tokens
      → choose bit_floats selecting sorting greedy budget 8 logits
        ≡ some (argmax bit_floats logits, 8))
    × (budget.think_count + 1 ≡ budget.max_tokens
        → choose bit_floats selecting sorting greedy budget 8 logits ≡ some (2, 8))
    × (budget.max_tokens ≤ budget.think_count
        → choose bit_floats selecting sorting greedy budget 8 logits ≡ some (1, 8))
choose_forced_example =
    choose_forced bit_floats selecting sorting greedy ltb_asymmetric greedy-is_greedy budget 8
      logits budget-IsSetUp
      (
        record { logit = 6; found = refl; above = refl },
        record { logit = 5; found = refl; above = refl },
      )
      refl

choose_all_within_example :
    (b' : ThinkBudget) × (choose_all bit_floats selecting sorting greedy budget 8 (logits ∷ [])
      ≡ some b')
    × (b'.think_count ≤ b'.max_tokens)
choose_all_within_example =
    choose_all_within bit_floats selecting sorting greedy ltb_asymmetric greedy-is_greedy budget 8
      (logits ∷ []) budget-IsSetUp
      (
        (
          record { logit = 6; found = refl; above = refl },
          record { logit = 5; found = refl; above = refl },
        ),
        tt,
      )
      (omega arith)

sample-lt_example :
    (token rng' : ℕ) × (sample bit_floats selecting sorting
        (record { temperature = 1; top_k = 2; top_p = 0 })
        8
        logits
      ≡ some (token, rng'))
    × (token < 4)
sample-lt_example =
    sample-lt bit_floats selecting sorting (λ k xs few numbers. sorting-Perm xs)
      (λ xs numbers. sorting-Perm xs) (record { temperature = 1; top_k = 2; top_p = 0 }) 8 logits
      (omega arith) (λ sampled pos few. comparable _) (λ sampled cut work run. comparable _)
