-- ===== src/Sampler/Think.antt =====
-- The budget of a think block (crates/core/src/sampler.rs) under greedy decoding.
use mathlib.Core.Option.{some-injective}
use herbert_rs.Prelude.{
  ℕ, zero, suc, ◌+◌, ◌%◌, ◌^◌, ◌≤◌, ◌<◌, ◌≡◌, ◌≢◌, refl, ap, sym, subst, ◌∙◌, ◌⊎◌, true, false,
  Option, some, List, [], ◌∷◌, get_elem?, All, arith, ltb, ◌==◌, ==_iff, Bool-cases, inl, inr,
  ltb→lt, ◌>>=◌, ltb-false,
}
use herbert_rs.Floats.{Floats}
use herbert_rs.Sampler.{
  SelectNth, SortBy, SamplerConfig, ThinkBudget, argmax_from, argmax, force_from,
  force_single_token, is_greedy, track, apply_to_logits, choose,
}

module _ (f : Floats) where
  open f use {F, neg_infinity, lt}

  -- `<` is asymmetric, as it is on floats.
  abbrev pub Asymmetric : Type 0
  Asymmetric = (a b : F) → lt a b ≡ true → lt b a ≡ false

  below_itself : Asymmetric → (a : F) → lt a a ≡ false
  below_itself asym a = elim (Bool-cases (lt a a)) [
    | inl lower ↦ asym a a lower
    | inr not_lower ↦ not_lower
  ]

  -- Behind the forced token nothing is better than what was found.
  argmax-past :
      Asymmetric
      → (i t best_idx : ℕ) (best_val : F) (vs : List F) → t < i
      → lt best_val neg_infinity ≡ false
      → argmax_from f i best_idx best_val (force_from f i t vs) ≡ best_idx
  unfolding argmax_from force_from
  argmax-past asym i t best_idx best_val [] past low = refl
  argmax-past asym i t best_idx best_val (v ∷ vs) past low =
      rw (other, low) (argmax-past asym (suc i) t best_idx best_val vs (omega arith) low)
    where
      other : (i == t) ≡ false
      other = ground arith

  argmax-force_from :
      Asymmetric
      → (i d t best_idx : ℕ) (vs : List F) (v : F) → t ≡ i + d
      → get_elem? vs d ≡ some v
      → lt neg_infinity v ≡ true
      → argmax_from f i best_idx neg_infinity (force_from f i t vs) ≡ t % 2 ^ 32
  unfolding argmax_from force_from
  argmax-force_from asym i d t best_idx [] v e at above = cc
  argmax-force_from asym i zero t best_idx (w ∷ vs) v e at above =
      let this : i ≡ t = omega arith in
      rw (here this, the_value)
        (argmax-past asym (suc i) t (i % 2 ^ 32) w vs (omega (arith, this))
            (asym neg_infinity w the_value)
          ∙ ap (λ n. n % 2 ^ 32) this)
    where
      here : i ≡ t → (i == t) ≡ true
      here h = (==_iff i t).1 h

      the_value : lt neg_infinity w ≡ true
      the_value = subst (λ x. lt neg_infinity x ≡ true) (sym (some-injective w v at)) above
  argmax-force_from asym i (suc d) t best_idx (w ∷ vs) v e at above =
      rw (other, below_itself asym neg_infinity)
        (argmax-force_from asym (suc i) d t best_idx vs v (omega arith) at above)
    where
      other : (i == t) ≡ false
      other = ground arith

  -- The logit at `id` is above negative infinity.
  pub record Finite (logits : List F) (id : ℕ) : Type 0 where
    pub logit : F
    pub found : get_elem? logits id ≡ some logit
    pub above : lt neg_infinity logit ≡ true

  -- Of forced logits the greedy choice is the forced token, where its own logit is above negative infinity.
  argmax-force_single_token :
      Asymmetric
      → (logits : List F) (id : ℕ) → id < 2 ^ 32
      → Finite logits id
      → argmax f (force_single_token f logits id) ≡ id
  unfolding argmax force_single_token
  argmax-force_single_token asym logits id small h =
      argmax-force_from asym 0 id id 0 logits h.logit (omega arith) h.found h.above ∙ fits
    where
      fits : id % 2 ^ 32 ≡ id
      fits = omega arith

  -- What the ids of a budget must satisfy: `u32`s, a newline that opens and closes nothing.
  pub record IsSetUp (b : ThinkBudget) : Type 0 where
    pub active : 0 < b.max_tokens
    pub close_small : b.think_close_id < 2 ^ 32
    pub newline_small : b.newline_id < 2 ^ 32
    pub newline_opens : b.newline_id ≢ b.think_open_id
    pub newline_closes : b.newline_id ≢ b.think_close_id
    pub close_opens : b.think_close_id ≢ b.think_open_id

  -- The two logits that can be forced are above negative infinity.
  abbrev pub Forceable : ThinkBudget → List F → Type 0
  Forceable b logits = Finite logits b.newline_id × Finite logits b.think_close_id

  module _ (select_nth : SelectNth f) (sort_by : SortBy f) (config : SamplerConfig f) where
    -- A run of the loop over the logits that the model gives.
    abbrev pub choose_all : ThinkBudget → ℕ → List (List F) → Option ThinkBudget
    choose_all b rng [] = some b
    choose_all b rng (logits ∷ rest) = do
      (token, rng') ← choose f select_nth sort_by config b rng logits
      choose_all (track b token) rng' rest

    -- In a think block, with an active budget whose ids are apart and logits of the newline and of the closing token
    -- above negative infinity, the greedy choice is free while more than one token is left of the budget, the newline at
    -- the last one, and the closing token from then on.
    pub choose_forced :
        Asymmetric
        → is_greedy f config ≡ true
        → (b : ThinkBudget) (rng : ℕ) (logits : List F) → IsSetUp b
        → Forceable b logits
        → b.in_think ≡ true
        → (b.think_count + 1 < b.max_tokens
            → choose f select_nth sort_by config b rng logits ≡ some (argmax f logits, rng))
          × (b.think_count + 1 ≡ b.max_tokens
              → choose f select_nth sort_by config b rng logits ≡ some (b.newline_id, rng))
          × (b.max_tokens ≤ b.think_count
              → choose f select_nth sort_by config b rng logits ≡ some (b.think_close_id, rng))
    unfolding choose apply_to_logits
    choose_forced asym greedy b rng logits set_up fin inside = (
      (λ h. rw (greedy, inside, limited, no_newline h, no_close h) refl),
      (λ h.
          rw (greedy, inside, limited, newline h)
            (ap (λ t. some (t, rng))
              (argmax-force_single_token asym logits b.newline_id set_up.newline_small fin.0))),
      (λ h.
          rw (greedy, inside, limited, later h, close h)
            (ap (λ t. some (t, rng))
              (argmax-force_single_token asym logits b.think_close_id set_up.close_small fin.1))),
    )
      where
        limited : (b.max_tokens == 0) ≡ false
        limited = ground (arith, set_up.active)

        no_newline : b.think_count + 1 < b.max_tokens → (b.think_count + 1 == b.max_tokens) ≡ false
        no_newline h = ground arith

        no_close : b.think_count + 1 < b.max_tokens → ltb b.max_tokens (b.think_count + 1) ≡ false
        no_close h = ground arith

        newline : b.think_count + 1 ≡ b.max_tokens → (b.think_count + 1 == b.max_tokens) ≡ true
        newline h = ground arith

        later : b.max_tokens ≤ b.think_count → (b.think_count + 1 == b.max_tokens) ≡ false
        later h = ground arith

        close : b.max_tokens ≤ b.think_count → ltb b.max_tokens (b.think_count + 1) ≡ true
        close h = ground arith

  -- `track` changes the two state fields only.
  track_frame :
      (b : ThinkBudget) (t : ℕ)
      → (P : ℕ → ℕ → ℕ → ℕ → Type 0) → P b.max_tokens b.think_open_id b.think_close_id b.newline_id
      → (let c = track b t in P c.max_tokens c.think_open_id c.think_close_id c.newline_id)
  unfolding track
  track_frame b t P h = elim (Bool-cases (t == b.think_open_id)) [
    | inl opens ↦ rw opens h
    | inr other ↦ elim (Bool-cases (t == b.think_close_id)) [
      | inl closes ↦ rw (other, closes) h
      | inr inner ↦ elim (Bool-cases b.in_think) [
        | inl inside ↦ rw (other, inner, inside) h
        | inr outside ↦ rw (other, inner, outside) h
      ]
    ]
  ]

  track-IsSetUp : (b : ThinkBudget) (t : ℕ) → IsSetUp b → IsSetUp (track b t)
  track-IsSetUp b t h =
      let all =
        track_frame b t
          (λ m o c n. (0 < m) × (c < 2 ^ 32) × (n < 2 ^ 32) × (n ≢ o) × (n ≢ c) × (c ≢ o))
          (
            h.active, h.close_small, h.newline_small, h.newline_opens, h.newline_closes,
            h.close_opens,
          ) in
      record {
        active = all.0;
        close_small = all.1;
        newline_small = all.2;
        newline_opens = all.3;
        newline_closes = all.4;
        close_opens = all.5;
      }

  track-Forceable :
      (b : ThinkBudget) (t : ℕ) (rest : List (List F))
      → All (Forceable b) rest
      → All (Forceable (track b t)) rest
  track-Forceable b t [] h = tt
  track-Forceable b t (logits ∷ rest) h = (
    track_frame b t (λ m o c n. Finite logits n × Finite logits c) h.0,
    track-Forceable b t rest h.1,
  )

  -- Tracking counts up by one at most, and only in a block; the closing token ends the block.
  track_count :
      (b : ThinkBudget) (t : ℕ)
      → (b.in_think ≡ true → b.think_count < b.max_tokens ⊎ (t ≡ b.think_close_id))
      → b.think_close_id ≢ b.think_open_id
      → b.think_count ≤ b.max_tokens
      → (track b t).think_count ≤ (track b t).max_tokens
  unfolding track
  track_count b t room apart h = elim (Bool-cases (t == b.think_open_id)) [
    | inl opens ↦ rw opens (omega arith)
    | inr other ↦ elim (Bool-cases (t == b.think_close_id)) [
      | inl closes ↦ rw (other, closes) (omega arith)
      | inr inner ↦ elim (Bool-cases b.in_think) [
        | inl inside ↦ rw (other, inner, inside) (below (room inside) inner)
        | inr outside ↦ rw (other, inner, outside) h
      ]
    ]
  ]
    where
      below :
          (b.think_count < b.max_tokens ⊎ (t ≡ b.think_close_id))
          → (t == b.think_close_id) ≡ false
          → b.think_count + 1 ≤ b.max_tokens
      below (inl lt) inner = omega (arith, lt)
      below (inr closing) inner =
          absurd (false-true (sym inner ∙ (==_iff t b.think_close_id).1 closing))
        where
          false-true : false ≡ true → ⊥
          false-true e = cc

  module _ (select_nth : SelectNth f) (sort_by : SortBy f) (config : SamplerConfig f) where
    -- Greedy decoding with an active budget whose ids are apart, from a count within it, does not panic and
    -- never counts more tokens in a think block than the budget has, whatever logits the model gives, as long as those of the newline and of the
    -- closing token are above negative infinity.
    pub choose_all_within :
        Asymmetric
        → is_greedy f config ≡ true
        → (b : ThinkBudget) (rng : ℕ) (rest : List (List F)) → IsSetUp b
        → All (Forceable b) rest
        → b.think_count ≤ b.max_tokens
        → (b' : ThinkBudget) × (choose_all select_nth sort_by config b rng rest ≡ some b')
          × (b'.think_count ≤ b'.max_tokens)
    unfolding choose
    choose_all_within asym greedy b rng [] set_up fin h = (b, refl, h)
    choose_all_within asym greedy b rng (logits ∷ rest) set_up fin h =
        let token = argmax f (apply_to_logits f b logits) in
        let (b', run, within) =
          choose_all_within asym greedy (track b token) rng rest (track-IsSetUp b token set_up)
            (track-Forceable b token rest fin.1)
            (track_count b token
              (λ inside. closing inside (Bool-cases (ltb b.think_count b.max_tokens)))
              set_up.close_opens h) in
        (b', rw greedy run, within)
      where
        chosen :
            choose f select_nth sort_by config b rng logits
            ≡ some (argmax f (apply_to_logits f b logits), rng)
        chosen = rw greedy refl

        closing :
            b.in_think ≡ true
            → (ltb b.think_count b.max_tokens ≡ true) ⊎ (ltb b.think_count b.max_tokens ≡ false)
            → b.think_count < b.max_tokens
              ⊎ (argmax f (apply_to_logits f b logits) ≡ b.think_close_id)
        closing inside (inl less) = inl (ltb→lt b.think_count b.max_tokens less)
        closing inside (inr full) = inr (
            ap (λ (c : ℕ × ℕ). c.0)
              (some-injective _ _ (
                sym chosen
                ∙ (choose_forced select_nth sort_by config asym greedy b rng logits set_up fin.0
                      inside).2
                    (ltb-false b.think_count b.max_tokens full))))
