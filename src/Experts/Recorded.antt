-- ===== src/Experts/Recorded.antt =====
-- `record_and_sort_by_frequency` of crates/backends/backend_common/src/expert_pool.rs: what it counts, and
-- the order that it gives.
use mathlib.Core.List.{Perm}
use mathlib.Core.List.Perm
use herbert_rs.Prelude.{
  ℕ, zero, suc, ◌+◌, ◌%◌, ◌^◌, ◌≤◌, ◌<◌, ◌≡◌, refl, sym, ap, subst, ◌∙◌, inl, inr, true, some, List,
  [], ◌∷◌, ◌++◌, length, take, drop, set, get_elem?, get_or, length-set, All, All_imp, leb, leb→le,
  leb-false, ◌==◌, if◌then◌else◌, arith, Bool-cases,
}
use herbert_rs.Experts.{
  record_use, record_uses, insert_by_count, sort_by_count, record_and_sort_by_frequency,
}

record_use-some :
    (eid : ℕ) (counts : List ℕ)
    → eid < length counts
    → record_use eid counts ≡ some (set counts eid ((get_or counts eid 0 + 1) % 2 ^ 32))
unfolding record_use
record_use-some eid counts lt = rw (found counts eid lt) refl
  where
    found : (xs : List ℕ) (i : ℕ) → i < length xs → get_elem? xs i ≡ some (get_or xs i 0)
    found [] i h = absurd (omega arith)
    found (x ∷ xs) zero h = refl
    found (x ∷ xs) (suc i) h = found xs i (omega arith)

get_or-set :
    (xs : List ℕ) (i v j : ℕ)
    → i < length xs
    → get_or (set xs i v) j 0 ≡ (if i == j then v else get_or xs j 0)
get_or-set [] i v j h = absurd (omega arith)
get_or-set (x ∷ xs) zero v zero h = ground arith
get_or-set (x ∷ xs) zero v (suc j) h = ground arith
get_or-set (x ∷ xs) (suc i) v zero h = ground arith
get_or-set (x ∷ xs) (suc i) v (suc j) h = get_or-set xs i v j (omega arith) ∙ ground arith

module _ {F : Type 0} where
  -- How often the expert is selected.
  abbrev pub selections : ℕ → List (ℕ × F) → ℕ
  selections e [] = 0
  selections e (s ∷ ss) = (if s.0 == e then 1 else 0) + selections e ss

  -- Each has been used at least as often as all that follow.
  abbrev pub Descends : List ℕ → List (ℕ × F) → Type 0
  Descends counts [] = Unit {0}
  Descends counts (s ∷ ss) =
      All (λ t. get_or counts t.0 0 ≤ get_or counts s.0 0) ss × Descends counts ss

  insert_by_count-Perm :
      (counts : List ℕ) (s : ℕ × F) (ts : List (ℕ × F))
      → Perm (insert_by_count counts s ts) (s ∷ ts)
  unfolding insert_by_count
  insert_by_count-Perm counts s [] = Perm.refl _
  insert_by_count-Perm counts s (t ∷ ts) =
      elim (Bool-cases (leb (get_or counts t.0 0) (get_or counts s.0 0))) [
        | inl e ↦ rw e (Perm.refl _)
        | inr e ↦
            rw e (Perm.trans (Perm.cons t (insert_by_count-Perm counts s ts)) (Perm.swap s t ts))
      ]

  sort_by_count-Perm : (counts : List ℕ) (ss : List (ℕ × F)) → Perm (sort_by_count counts ss) ss
  unfolding sort_by_count
  sort_by_count-Perm counts [] = Perm.refl _
  sort_by_count-Perm counts (s ∷ ss) =
      Perm.trans (insert_by_count-Perm counts s (sort_by_count counts ss))
        (Perm.cons s (sort_by_count-Perm counts ss))

  All-insert :
      (P : ℕ × F → Type 0) (counts : List ℕ) (s : ℕ × F) (ts : List (ℕ × F))
      → P s
      → All P ts
      → All P (insert_by_count counts s ts)
  unfolding insert_by_count
  All-insert P counts s [] h all = (h, tt)
  All-insert P counts s (t ∷ ts) h all =
      elim (Bool-cases (leb (get_or counts t.0 0) (get_or counts s.0 0))) [
        | inl e ↦ rw e (h, all)
        | inr e ↦ rw e (all.0, All-insert P counts s ts h all.1)
      ]

  insert_by_count-Descends :
      (counts : List ℕ) (s : ℕ × F) (ts : List (ℕ × F))
      → Descends counts ts
      → Descends counts (insert_by_count counts s ts)
  unfolding insert_by_count
  insert_by_count-Descends counts s [] h = (tt, tt)
  insert_by_count-Descends counts s (t ∷ ts) h =
      elim (Bool-cases (leb (get_or counts t.0 0) (get_or counts s.0 0))) [
        | inl e ↦
            rw e ((leb→le _ _ e, All_imp _ _ ts (λ x le. omega (arith, leb→le _ _ e, le)) h.0), h)
        | inr e ↦ rw e (
          All-insert _ counts s ts (omega (arith, leb-false _ _ e)) h.0,
          insert_by_count-Descends counts s ts h.1,
        )
      ]

  sort_by_count-Descends :
      (counts : List ℕ) (ss : List (ℕ × F)) → Descends counts (sort_by_count counts ss)
  unfolding sort_by_count
  sort_by_count-Descends counts [] = tt
  sort_by_count-Descends counts (s ∷ ss) =
      insert_by_count-Descends counts s (sort_by_count counts ss) (sort_by_count-Descends counts ss)

  record_uses-some :
      (n : ℕ) (selected : List (ℕ × F)) (counts : List ℕ)
      → n ≤ length selected
      → All (λ s. s.0 < length counts) (take n selected)
      → (counts' : List ℕ) × (record_uses n selected counts ≡ some counts')
        × ((e : ℕ)
            → get_or counts' e 0 % 2 ^ 32
              ≡ (get_or counts e 0 + selections e (take n selected)) % 2 ^ 32)
  unfolding record_uses
  record_uses-some zero selected counts h all = (counts, refl, λ e. omega arith)
  record_uses-some (suc n) [] counts h all = absurd (omega arith)
  record_uses-some (suc n) (s ∷ selected) counts h all =
      let next = set counts s.0 ((get_or counts s.0 0 + 1) % 2 ^ 32) in
      let (counts', run, sums) =
        record_uses-some n selected next (omega arith) (
          subst (λ k. All (λ t. t.0 < k) (take n selected)) (sym (length-set counts s.0 _))
            all.1) in
      (
        counts',
        rw (record_use-some s.0 counts all.0) run,
        λ e. sums e ∙ one_more s.0 e counts (selections e (take n selected)) all.0,
      )
    where
      same : (i e : ℕ) → (i == e) ≡ true → i ≡ e
      same i e q = ground arith

      one_more :
          (i e : ℕ) (xs : List ℕ) (k : ℕ)
          → i < length xs
          → (get_or (set xs i ((get_or xs i 0 + 1) % 2 ^ 32)) e 0 + k) % 2 ^ 32
            ≡ (get_or xs e 0 + ((if i == e then 1 else 0) + k)) % 2 ^ 32
      one_more i e xs k lt =
          rw (get_or-set xs i ((get_or xs i 0 + 1) % 2 ^ 32) e lt) (elim (Bool-cases (i == e)) [
            | inl q ↦ rw q (omega (arith, ap (λ j. get_or xs j 0) (same i e q)))
            | inr q ↦ rw q (omega arith)
          ])

  -- The experts in use are counted and put first: with experts that exist among the first `n_sel` of
  -- those selected, nothing panics; each count grows by the number of times that its expert is selected,
  -- modulo 2 ^ 32; the first `n_sel` are permuted so that none comes after one that is now used less; the
  -- others stay.
  pub record_and_sort-Recorded :
      (n_sel : ℕ) (selected : List (ℕ × F)) (counts : List ℕ)
      → n_sel ≤ length selected
      → All (λ s. s.0 < length counts) (take n_sel selected)
      → (counts' : List ℕ) × (first : List (ℕ × F)) × (record_and_sort_by_frequency n_sel selected
            counts
          ≡ some (counts', first ++ drop n_sel selected))
        × ((e : ℕ)
            → get_or counts' e 0 % 2 ^ 32
              ≡ (get_or counts e 0 + selections e (take n_sel selected)) % 2 ^ 32)
        × Perm first (take n_sel selected)
        × Descends counts' first
  unfolding record_and_sort_by_frequency
  record_and_sort-Recorded n_sel selected counts h all =
      let (counts', run, sums) = record_uses-some n_sel selected counts h all in
      (
        counts',
        sort_by_count counts' (take n_sel selected),
        rw run refl,
        sums,
        sort_by_count-Perm counts' (take n_sel selected),
        sort_by_count-Descends counts' (take n_sel selected),
      )
