-- ===== src/Sampler/Range.antt =====
-- The tokens that the sampler (crates/core/src/sampler.rs) returns.
use herbert_rs.Prelude.{
  ℕ, zero, suc, ◌+◌, ◌%◌, ◌^◌, ◌≤◌, ◌<◌, ◌≡◌, ◌≢◌, refl, true, false, ◌&&◌, none, some, List, [],
  ◌∷◌, map, take, length, All, arith, ltb, Bool-cases, inl, inr,
}
use mathlib.Core.List.{Perm}
use herbert_rs.Prelude.Perms.{All-Perm}
use native.Mathlib.Bridge.{le_prop}
use herbert_rs.Floats.{Floats}
use herbert_rs.Sampler.{
  SamplerConfig, argmax_from, argmax, scaled_from, scale_second, softmax_work, pick, compare_desc,
  cut_top_p, draw, SelectNth, SortBy, top_k_filter, top_p_filter, sample, next_f32,
}

module _ (f : Floats) where
  open f use {F, lit, lt, feq, neg_infinity}

  argmax_from-lt :
      (n i best_idx : ℕ) (best_val : F) (vs : List F)
      → i + length vs ≤ n
      → best_idx < n
      → argmax_from f i best_idx best_val vs < n
  unfolding argmax_from
  argmax_from-lt n i best_idx best_val [] room h = h
  argmax_from-lt n i best_idx best_val (v ∷ vs) room h = elim (Bool-cases (lt best_val v)) [
    | inl better ↦
        rw better (argmax_from-lt n (suc i) (i % 2 ^ 32) v vs (omega arith) (omega arith))
    | inr worse ↦ rw worse (argmax_from-lt n (suc i) best_idx best_val vs (omega arith) h)
  ]

  -- The entries of the work buffer have indices below `n`.
  abbrev Below : ℕ → List (ℕ × F) → Type 0
  Below n = All (λ (x : ℕ × F). x.0 < n)

  scaled_from-Below :
      (n i : ℕ) (t : F) (vs : List F) → i + length vs ≤ n → Below n (scaled_from f i t vs)
  unfolding scaled_from
  scaled_from-Below n i t [] room = tt
  scaled_from-Below n i t (v ∷ vs) room =
      (omega arith, scaled_from-Below n (suc i) t vs (omega arith))

  map_second-Below :
      (n : ℕ) (g : F → F) (work : List (ℕ × F))
      → Below n work
      → Below n (map (λ (x : ℕ × F). (x.0, g x.1)) work)
  map_second-Below n g [] h = tt
  map_second-Below n g (x ∷ work) h = (h.0, map_second-Below n g work h.1)

  scale_second-Below :
      (n : ℕ) (c : F) (work : List (ℕ × F)) → Below n work → Below n (scale_second f c work)
  unfolding scale_second
  scale_second-Below n c work h = map_second-Below n (λ x. f.mul x c) work h

  softmax_work-Below : (n : ℕ) (work : List (ℕ × F)) → Below n work → Below n (softmax_work f work)
  unfolding softmax_work
  softmax_work-Below n work h =
      scale_second-Below n _ _ (map_second-Below n (λ x. f.exp (f.sub x _)) work h)

  take-Below : (n k : ℕ) (work : List (ℕ × F)) → Below n work → Below n (take k work)
  take-Below n zero work h = tt
  take-Below n (suc k) [] h = tt
  take-Below n (suc k) (x ∷ work) h = (h.0, take-Below n k work h.1)

  pick-lt :
      (n : ℕ) (r cumsum : F) (work : List (ℕ × F)) (last : ℕ)
      → Below n work
      → last < n
      → pick f r cumsum work last < n
  unfolding pick
  pick-lt n r cumsum [] last h k = k
  pick-lt n r cumsum ((idx, prob) ∷ work) last h k = elim (Bool-cases (lt r (f.add cumsum prob))) [
    | inl here ↦ rw here h.0
    | inr later ↦ rw later (pick-lt n r (f.add cumsum prob) work idx h.1 h.0)
  ]

  length-scaled_from : (i : ℕ) (t : F) (vs : List F) → length (scaled_from f i t vs) ≡ length vs
  unfolding scaled_from
  length-scaled_from i t [] = refl
  length-scaled_from i t (v ∷ vs) = omega (arith, length-scaled_from (suc i) t vs)

  cut_top_p-Below :
      (n : ℕ) (p : F) (work : List (ℕ × F)) → Below n work → Below n (cut_top_p f p work)
  unfolding cut_top_p
  cut_top_p-Below n p work h = scale_second-Below n _ _ (take-Below n _ work h)

  draw-lt : (n rng : ℕ) (work : List (ℕ × F)) → Below n work → 0 < n → (draw f rng work).0 < n
  unfolding draw
  draw-lt n rng work h pos = pick-lt n (next_f32 f rng).0 (lit 0) work 0 h pos

  -- No comparison of two of the entries panics.
  abbrev pub IsComparable : List (ℕ × F) → Type 0
  IsComparable work = All (λ x. All (λ y. compare_desc f x y ≢ none) work) work

  module _ (select_nth : SelectNth f) (sort_by : SortBy f)
      (selects : (k : ℕ) (xs : List (ℕ × F))
        → k < length xs
        → IsComparable xs
        → (ys : List (ℕ × F)) × (select_nth (compare_desc f) k xs ≡ some ys) × Perm xs ys)
      (sorts : (xs : List (ℕ × F))
        → IsComparable xs
        → (ys : List (ℕ × F)) × (sort_by (compare_desc f) xs ≡ some ys) × Perm xs ys) where
    top_k_filter-Below :
        (n k : ℕ) (work : List (ℕ × F))
        → (0 < k → k < length work → IsComparable work)
        → Below n work
        → (kept : List (ℕ × F)) × (top_k_filter f select_nth sort_by k work ≡ some kept)
          × Below n kept
    unfolding top_k_filter
    top_k_filter-Below n k work numbers h = elim (Bool-cases (ltb 0 k && ltb k (length work))) [
      | inl cut ↦
          let few : k < length work = ground arith in
          let (ys, run, same) = selects k work few (numbers (ground arith) few) in
          (
            take k ys,
            rw (cut, run) refl,
            take-Below n k ys (All-Perm (λ (x : ℕ × F). x.0 < n) (λ x. le_prop) same h),
          )
      | inr whole ↦ (work, rw whole refl, h)
    ]

    top_p_filter-Below :
        (n : ℕ) (p : F) (work : List (ℕ × F))
        → (lt p (lit 1) ≡ true → IsComparable work)
        → Below n work
        → (kept : List (ℕ × F)) × (top_p_filter f select_nth sort_by p work ≡ some kept)
          × Below n kept
    unfolding top_p_filter
    top_p_filter-Below n p work numbers h = elim (Bool-cases (lt p (lit 1))) [
      | inl cut ↦
          let (ys, run, same) = sorts work (numbers cut) in
          (
            cut_top_p f p ys,
            rw (cut, run) refl,
            cut_top_p-Below n p ys (All-Perm (λ (x : ℕ × F). x.0 < n) (λ x. le_prop) same h),
          )
      | inr whole ↦ (work, rw whole refl, h)
    ]

    -- With a selection and a sort that permute what they can compare, whatever the temperature, top-k, top-p
    -- and the state of the generator are, sampling does not panic, and the token is the index of one of the
    -- logits, of which there is at least one. Unless the choice is greedy, the scaled logits must be
    -- comparable, that is none of them NaN, where top-k selects among them, and the probabilities where top-p
    -- sorts them.
    pub sample-lt :
        (config : SamplerConfig f) (rng : ℕ) (logits : List F)
        → 0 < length logits
        → (feq config.temperature (lit 0) ≡ false
            → 0 < config.top_k
            → config.top_k < length logits
            → IsComparable (scaled_from f 0 config.temperature logits))
        → (feq config.temperature (lit 0) ≡ false
            → lt config.top_p (lit 1) ≡ true
            → (work : List (ℕ × F))
            → top_k_filter f select_nth sort_by config.top_k
                (scaled_from f 0 config.temperature logits)
              ≡ some work
            → IsComparable (softmax_work f work))
        → (token rng' : ℕ) × (sample f select_nth sort_by config rng logits ≡ some (token, rng'))
          × (token < length logits)
    unfolding sample argmax
    sample-lt config rng [] some_logit logits_ok probs_ok = absurd (omega arith)
    sample-lt config rng (l ∷ ls) some_logit logits_ok probs_ok =
        elim (Bool-cases (feq config.temperature (lit 0))) [
          | inl greedy ↦ (
            argmax f (l ∷ ls),
            rng,
            rw greedy refl,
            argmax_from-lt (length (l ∷ ls)) 0 0 neg_infinity (l ∷ ls) (omega arith) (omega arith),
          )
          | inr sampled ↦
              let n = length (l ∷ ls) in
              let scaled = scaled_from f 0 config.temperature (l ∷ ls) in
              let (work, run, below) =
                top_k_filter-Below n config.top_k scaled
                  (λ pos few.
                    logits_ok sampled pos
                      (omega (arith, few, length-scaled_from 0 config.temperature (l ∷ ls))))
                  (scaled_from-Below n 0 config.temperature (l ∷ ls) (omega arith)) in
              let (kept, run', below') =
                top_p_filter-Below n config.top_p (softmax_work f work)
                  (λ cut. probs_ok sampled cut work run) (softmax_work-Below n work below) in
              (
                (draw f rng kept).0,
                (draw f rng kept).1,
                rw (sampled, run, run') refl,
                draw-lt n rng kept below' (omega arith),
              )
        ]
