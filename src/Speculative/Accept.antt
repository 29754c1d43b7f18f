-- ===== src/Speculative/Accept.antt =====
-- The accept/reject loop of crates/backends/backend_common/src/speculative.rs.
use mathlib.Core.Option.{some-injective}
use herbert_rs.Prelude.{
  ℕ, zero, suc, ◌+◌, ◌%◌, ◌^◌, ◌≤◌, ◌<◌, ◌≡◌, refl, ap, subst, ◌∙◌, Bool, true, false, Option, none,
  some, List, [], ◌∷◌, ◌++◌, length, take, map, get_elem?, get_elem?-lt, arith, ◌==◌, ==_iff,
  if◌then◌else◌, ◌>>=◌, ◌⊎◌, Bool-cases, inl, inr, length-append, All,
}
use herbert_rs.Floats.{Floats}
use herbert_rs.Sampler.{next_f32}
use herbert_rs.Speculative.{
  softmax, or_last, pick_from, sample_from_probs, residual, resample_from_residual, accept_prob,
  accept_loop, bonus,
}

-- With the bonus token: one token more than were accepted, the accepted ones in front.
pub record Produced (drafts : List ℕ) (accepted : ℕ) (final_tokens : List ℕ) : Type 0 where
  pub within : accepted ≤ length drafts
  pub one_more : length final_tokens ≡ accepted + 1
  pub same_prefix : take accepted final_tokens ≡ take accepted drafts

module _ (f : Floats) where
  open f use {F, lit, lt, feq}

  or_last-some : (o : Option ℕ) (n : ℕ) → 0 < n → (i : ℕ) × (or_last f o n ≡ some i)
  unfolding or_last
  or_last-some (some i) n h = (i, refl)
  or_last-some none zero h = absurd (omega arith)
  or_last-some none (suc n) h = (n % 2 ^ 32, refl)

  sample_from_probs-some :
      (probs : List F) (rng : ℕ)
      → 0 < length probs
      → (o : ℕ × ℕ) × (sample_from_probs f probs rng ≡ some o)
  unfolding sample_from_probs
  sample_from_probs-some probs rng h =
      let (i, run) =
        or_last-some (pick_from f 0 (next_f32 f rng).0 (lit 0) (λ p. p) probs) (length probs) h in
      ((i, (next_f32 f rng).1), rw run refl)

  length-softmax : (logits : List F) → length (softmax f logits) ≡ length logits
  unfolding softmax
  length-softmax logits = split _ _ _
    where
      length-each : (g : F → F) (xs : List F) → length (map g xs) ≡ length xs
      length-each g [] = refl
      length-each g (x ∷ xs) = ap suc (length-each g xs)

      split :
          (b : Bool) (g h : F → F)
          → length (if b then map g (map h logits) else map h logits) ≡ length logits
      split true g h = length-each g (map h logits) ∙ length-each h logits
      split false g h = length-each h logits

  residual_pos : (p q : List F) → 0 < length p → 0 < length q → 0 < length (residual f p q)
  unfolding residual
  residual_pos [] q hp hq = absurd (omega arith)
  residual_pos (x ∷ p) [] hp hq = absurd (omega arith)
  residual_pos (x ∷ p) (y ∷ q) hp hq = omega arith

  resample_some :
      (p q : List F) (rng : ℕ)
      → 0 < length p
      → 0 < length q
      → (o : ℕ × ℕ) × (resample_from_residual f p q rng ≡ some o)
  unfolding resample_from_residual
  resample_some p q rng hp hq =
      go _ (or_last-some _ (length (residual f p q)) (residual_pos p q hp hq))
    where
      go :
          (b : Bool) {r : Option ℕ}
          → (i : ℕ) × (r ≡ some i)
          → (o : ℕ × ℕ) × ((if b
                then sample_from_probs f p rng
                else (r >>= λ i. some (i, (next_f32 f rng).1)))
              ≡ some o)
      go true found = sample_from_probs-some p rng hp
      go false {r} found = ((found.0, (next_f32 f rng).1), rw found.1 refl)

  -- The outcome of the loop over the draft tokens: a prefix of them is accepted, and one more token follows
  -- unless that prefix is all of them.
  abbrev pub Accepted : List ℕ → ℕ → List ℕ → Type 0
  Accepted drafts accepted final_tokens =
      (accepted ≤ length drafts)
      × (take accepted final_tokens ≡ take accepted drafts)
      × ((accepted ≡ length drafts) × (length final_tokens ≡ accepted)
          ⊎ (accepted < length drafts) × (length final_tokens ≡ accepted + 1))

  NonEmpty : List F → Type 0
  NonEmpty l = 0 < length l

  accept_loop-Accepted :
      (tiny : F) (xs : List ℕ) (targets drafts : List (List F)) (rng : ℕ)
      → length xs ≤ length targets
      → length xs ≤ length drafts
      → All (λ (l : List F). 0 < length l) targets
      → All (λ (l : List F). 0 < length l) drafts
      → (accepted : ℕ) × (final_tokens : List ℕ) × (rng' : ℕ) × (accept_loop f tiny xs targets
            drafts rng
          ≡ some (accepted, final_tokens, rng'))
        × Accepted xs accepted final_tokens
  unfolding accept_loop
  accept_loop-Accepted tiny [] targets drafts rng ht hd pt pd =
      (0, [], rng, refl, (omega arith, refl, inl (refl, refl)))
  accept_loop-Accepted tiny (x ∷ xs) [] drafts rng ht hd pt pd = absurd (omega arith)
  accept_loop-Accepted tiny (x ∷ xs) (t ∷ targets) [] rng ht hd pt pd = absurd (omega arith)
  accept_loop-Accepted tiny (x ∷ xs) (t ∷ targets) (d ∷ drafts) rng ht hd pt pd =
      elim (Bool-cases (lt (next_f32 f rng).0 (accept_prob f tiny (softmax f t) (softmax f d) x))) [
        | inl accept ↦
            let (accepted, final_tokens, rng', run, acc) =
              accept_loop-Accepted tiny xs targets drafts (next_f32 f rng).1 (omega arith)
                (omega arith) pt.1 pd.1 in
            (
              suc accepted,
              x ∷ final_tokens,
              rng',
              rw (accept, run) refl,
              (omega (arith, acc.0), ap (◌∷◌ x) acc.1, one_more acc.2),
            )
        | inr reject ↦
            let (o, run) =
              resample_some (softmax f t) (softmax f d) (next_f32 f rng).1
                (omega (arith, length-softmax t, pt.0)) (omega (arith, length-softmax d, pd.0)) in
            (0, o.0 ∷ [], o.1, rw (reject, run) refl, (omega arith, refl, inr (omega arith, refl)))
      ]
    where
      one_more :
          {accepted n : ℕ}
          → (accepted ≡ length xs) × (n ≡ accepted) ⊎ (accepted < length xs) × (n ≡ accepted + 1)
          → (suc accepted ≡ length (x ∷ xs)) × (suc n ≡ suc accepted)
            ⊎ (suc accepted < length (x ∷ xs)) × (suc n ≡ suc accepted + 1)
      one_more (inl all) = inl (omega (arith, all.0), omega (arith, all.1))
      one_more (inr part) = inr (omega (arith, part.0), omega (arith, part.1))

  take-append_le : (n : ℕ) (xs ys : List ℕ) → n ≤ length xs → take n (xs ++ ys) ≡ take n xs
  take-append_le zero xs ys h = refl
  take-append_le (suc n) [] ys h = absurd (omega arith)
  take-append_le (suc n) (x ∷ xs) ys h = ap (◌∷◌ x) (take-append_le n xs ys (omega arith))

  get_elem?-All :
      (P : List F → Type 0) (xs : List (List F)) (i : ℕ) (x : List F)
      → All P xs
      → get_elem? xs i ≡ some x
      → P x
  get_elem?-All P [] i x h at = cc
  get_elem?-All P (y ∷ xs) zero x h at = subst P (some-injective y x at) h.0
  get_elem?-All P (y ∷ xs) (suc i) x h at = get_elem?-All P xs i x h.1 at

  pub bonus-Produced :
      (targets : List (List F)) (xs final_tokens : List ℕ) (accepted rng : ℕ)
      → length xs < length targets
      → All (λ (l : List F). 0 < length l) targets
      → Accepted xs accepted final_tokens
      → (final_tokens' : List ℕ) × (rng' : ℕ) × (bonus f
            (length xs)
            targets
            (accepted, final_tokens, rng)
          ≡ some (accepted, final_tokens', rng'))
        × Produced xs accepted final_tokens'
  unfolding bonus
  bonus-Produced targets xs final_tokens accepted rng room pt (le, same, inl (all, count)) =
      let (t, at) = get_elem?-lt targets (length xs) room in
      let nonempty = get_elem?-All (λ (l : List F). 0 < length l) targets (length xs) t pt at in
      let (o, run) =
        sample_from_probs-some (softmax f t) rng (omega (arith, length-softmax t, nonempty)) in
      (
        final_tokens ++ (o.0 ∷ []),
        o.1,
        rw ((==_iff accepted (length xs)).1 all, at, run) refl,
        record {
          within = le;
          one_more = length-append final_tokens (o.0 ∷ []) ∙ ap (λ n. n + 1) count;
          same_prefix =
              take-append_le accepted final_tokens (o.0 ∷ []) (omega (arith, count)) ∙ same;
        },
      )
  bonus-Produced targets xs final_tokens accepted rng room pt (le, same, inr (part, count)) = (
    final_tokens,
    rng,
    rw (not_all part) refl,
    record { within = le; one_more = count; same_prefix = same },
  )
    where
      not_all : accepted < length xs → (accepted == length xs) ≡ false
      not_all h = ground arith

  -- The loop, and then the bonus.
  pub accept_run :
      (tiny : F) (xs : List ℕ) (targets drafts : List (List F)) (rng : ℕ)
      → length xs < length targets
      → length xs ≤ length drafts
      → All (λ (l : List F). 0 < length l) targets
      → All (λ (l : List F). 0 < length l) drafts
      → (looped : ℕ × List ℕ × ℕ) × (accept_loop f tiny xs targets drafts rng ≡ some looped)
        × (accepted : ℕ) × (final_tokens : List ℕ) × (rng' : ℕ) × (bonus f
              (length xs)
              targets
              looped
            ≡ some (accepted, final_tokens, rng'))
        × Produced xs accepted final_tokens
  accept_run tiny xs targets drafts rng ht hd pt pd =
      let (accepted, final_tokens, rng', run, acc) =
        accept_loop-Accepted tiny xs targets drafts rng (omega arith) hd pt pd in
      let (final_tokens', rng'', run', produced) =
        bonus-Produced targets xs final_tokens accepted rng' ht pt acc in
      ((accepted, final_tokens, rng'), run, accepted, final_tokens', rng'', run', produced)

  -- With logits for each draft token from both models, and one more from the target, none of them empty, the loop
  -- and the bonus do not panic, and produce one token more than they accept, the accepted draft tokens first.
  pub accept-Produced :
      (tiny : F) (xs : List ℕ) (targets drafts : List (List F)) (rng : ℕ)
      → length xs < length targets
      → length xs ≤ length drafts
      → All (λ (l : List F). 0 < length l) targets
      → All (λ (l : List F). 0 < length l) drafts
      → (accepted : ℕ) × (final_tokens : List ℕ) × (rng' : ℕ) × ((accept_loop f tiny xs targets
              drafts rng
            >>= bonus f (length xs) targets)
          ≡ some (accepted, final_tokens, rng'))
        × Produced xs accepted final_tokens
  accept-Produced tiny xs targets drafts rng ht hd pt pd =
      let (looped, run, accepted, final_tokens, rng', run', produced) =
        accept_run tiny xs targets drafts rng ht hd pt pd in
      (accepted, final_tokens, rng', rw run run', produced)
