-- ===== src/Sampler.antt =====
-- crates/core/src/sampler.rs: the sampler and the budget of a think block, and how the decode loops use both.
--
-- The state of the generator is a `u64`. `select_nth` and `sort_by` stand for the standard library's
-- `select_nth_unstable_by` and `sort_unstable_by`, given the comparison; `none` is a panic, of the
-- comparison on NaN or of theirs.
pub mod Think
pub mod Range
mod Tests
use Prim.Native.Nat.{bit_xor, Ordering}
use mathlib.Core.List.{foldl}
use herbert_rs.Prelude.{
  ℕ, zero, suc, ◌+◌, ◌*◌, ◌/◌, ◌%◌, ◌^◌, Bool, true, false, ◌&&◌, ◌||◌, not, Option, none, some,
  List, [], ◌∷◌, map, length, take, ltb, ◌==◌, if◌then◌else◌, ◌>>=◌,
}
use herbert_rs.Floats.{Floats}

-- `x ^= x << 13; x ^= x >> 7; x ^= x << 17` on `u64`
unfoldable pub xorshift64 : ℕ → ℕ
xorshift64 x0 =
    let x1 = bit_xor x0 (x0 * 2 ^ 13 % 2 ^ 64) in
    let x2 = bit_xor x1 (x1 / 2 ^ 7) in bit_xor x2 (x2 * 2 ^ 17 % 2 ^ 64)

module _ (f : Floats) where
  open f use {F, lit, of_int, neg_infinity, add, sub, mul, div, exp, fmax, lt, feq}

  -- `(x >> 40) as f32 / (1u64 << 24) as f32`
  unfoldable pub next_f32 : ℕ → F × ℕ
  next_f32 rng = let x = xorshift64 rng in (div (lit (x / 2 ^ 40)) (lit (2 ^ 24)), x)

  pub record SamplerConfig : Type 0 where
    pub temperature : F
    pub top_k : ℕ
    pub top_p : F

  -- The loop of `argmax` from index `i` on; an index is cast to `u32`.
  unfoldable pub argmax_from : ℕ → ℕ → F → List F → ℕ
  argmax_from i best_idx best_val [] = best_idx
  argmax_from i best_idx best_val (v ∷ vs) =
      if lt best_val v
      then argmax_from (suc i) (i % 2 ^ 32) v vs
      else argmax_from (suc i) best_idx best_val vs

  unfoldable pub argmax : List F → ℕ
  argmax logits = argmax_from 0 0 neg_infinity logits

  -- `logits.iter().enumerate().map(|(i, &v)| (i as u32, v / temperature))`
  unfoldable pub scaled_from : ℕ → F → List F → List (ℕ × F)
  scaled_from i temperature [] = []
  scaled_from i temperature (v ∷ vs) =
      (i % 2 ^ 32, div v temperature) ∷ scaled_from (suc i) temperature vs

  unfoldable pub sum_second : List (ℕ × F) → F
  sum_second = foldl (λ s (x : ℕ × F). add s x.1) (lit 0)

  unfoldable pub scale_second : F → List (ℕ × F) → List (ℕ × F)
  scale_second c = map (λ (x : ℕ × F). (x.0, mul x.1 c))

  -- The softmax over the work buffer.
  unfoldable pub softmax_work : List (ℕ × F) → List (ℕ × F)
  softmax_work work =
      let max_val = foldl (λ m (x : ℕ × F). fmax m x.1) neg_infinity work in
      let exps = map (λ (x : ℕ × F). (x.0, exp (sub x.1 max_val))) work in
      scale_second (div (lit 1) (sum_second exps)) exps

  -- The place behind the first `cumsum >= top_p`, counted from `i`; `>=` is not `<` on numbers.
  unfoldable pub cutoff_from : ℕ → F → F → List (ℕ × F) → ℕ → ℕ
  cutoff_from i cumsum top_p [] whole = whole
  cutoff_from i cumsum top_p ((idx, p) ∷ work) whole =
      let cumsum' = add cumsum p in
      if lt top_p cumsum' || feq cumsum' top_p
      then i + 1
      else cutoff_from (suc i) cumsum' top_p work whole

  -- The CDF loop, with the last index of the list as the fallback.
  unfoldable pub pick : F → F → List (ℕ × F) → ℕ → ℕ
  pick r cumsum [] last = last
  pick r cumsum ((idx, prob) ∷ work) last =
      let cumsum' = add cumsum prob in if lt r cumsum' then idx else pick r cumsum' work idx

  -- `x.partial_cmp(&y)`, which is `none` when one is NaN.
  unfoldable pub partial_cmp : F → F → Option Ordering
  partial_cmp x y =
      if lt x y
      then some Ordering.lt
      else if feq x y
      then some Ordering.eq
      else if lt y x
      then some Ordering.gt
      else none

  -- `|a, b| b.1.partial_cmp(&a.1).unwrap()`
  unfoldable pub compare_desc : ℕ × F → ℕ × F → Option Ordering
  compare_desc a b = partial_cmp b.1 a.1

  -- What the code does with the sorted buffer.
  unfoldable pub cut_top_p : F → List (ℕ × F) → List (ℕ × F)
  cut_top_p top_p work =
      let cut = take (cutoff_from 0 (lit 0) top_p work (length work)) work in
      scale_second (div (lit 1) (sum_second cut)) cut

  -- The CDF, with the token and the new state of the generator.
  unfoldable pub draw : ℕ → List (ℕ × F) → ℕ × ℕ
  draw rng work = let (r, rng') = next_f32 rng in (pick r (lit 0) work 0, rng')

  -- `select_nth_unstable_by` and `sort_unstable_by`, given the comparison.
  abbrev pub SelectNth : Type 0
  SelectNth = (ℕ × F → ℕ × F → Option Ordering) → ℕ → List (ℕ × F) → Option (List (ℕ × F))

  abbrev pub SortBy : Type 0
  SortBy = (ℕ × F → ℕ × F → Option Ordering) → List (ℕ × F) → Option (List (ℕ × F))

  module _ (select_nth : SelectNth) (sort_by : SortBy) where
    unfoldable pub top_k_filter : ℕ → List (ℕ × F) → Option (List (ℕ × F))
    top_k_filter top_k work =
        if ltb 0 top_k && ltb top_k (length work)
        then (do work' ← select_nth compare_desc top_k work; some (take top_k work'))
        else some work

    unfoldable pub top_p_filter : F → List (ℕ × F) → Option (List (ℕ × F))
    top_p_filter top_p work =
        if lt top_p (lit 1)
        then (do sorted ← sort_by compare_desc work; some (cut_top_p top_p sorted))
        else some work

    -- The token, and the new state of the generator.
    unfoldable pub sample : SamplerConfig → ℕ → List F → Option (ℕ × ℕ)
    sample config rng [] = some (0, rng)
    sample config rng (l ∷ ls) =
        if feq config.temperature (lit 0) then some (argmax (l ∷ ls), rng) else (do
          work ← top_k_filter config.top_k (scaled_from 0 config.temperature (l ∷ ls))
          work' ← top_p_filter config.top_p (softmax_work work)
          some (draw rng work'))

  unfoldable pub is_greedy : SamplerConfig → Bool
  is_greedy config = feq config.temperature (lit 0)

  -- `force_single_token`, from index `i` on
  unfoldable pub force_from : ℕ → ℕ → List F → List F
  force_from i token_id [] = []
  force_from i token_id (v ∷ vs) =
      (if i == token_id then v else neg_infinity) ∷ force_from (suc i) token_id vs

  unfoldable pub force_single_token : List F → ℕ → List F
  force_single_token logits token_id = force_from 0 token_id logits

pub record ThinkBudget : Type 0 where
  pub max_tokens : ℕ
  pub think_open_id : ℕ
  pub think_close_id : ℕ
  pub newline_id : ℕ
  pub in_think : Bool
  pub think_count : ℕ

unfoldable pub set_in_think : ThinkBudget → ThinkBudget
set_in_think b = record b { in_think = true; think_count = 0 }

unfoldable pub reset : ThinkBudget → ThinkBudget
reset b = record b { in_think = false; think_count = 0 }

unfoldable pub is_active : ThinkBudget → Bool
is_active b = ltb 0 b.max_tokens

unfoldable pub track : ThinkBudget → ℕ → ThinkBudget
track b token =
    if token == b.think_open_id
    then record b { in_think = true; think_count = 0 }
    else if token == b.think_close_id
    then record b { in_think = false; think_count = 0 }
    else if b.in_think
    then record b { think_count = b.think_count + 1 }
    else b

unfoldable pub apply_to_logits : (f : Floats) → ThinkBudget → List f.F → List f.F
apply_to_logits f b logits =
    if not b.in_think || b.max_tokens == 0
    then logits
    else if b.think_count + 1 == b.max_tokens
    then force_single_token f logits b.newline_id
    else if ltb b.max_tokens (b.think_count + 1)
    then force_single_token f logits b.think_close_id
    else logits

-- How the decode loops choose the next token from the logits, with the generator's next state.
unfoldable pub choose :
    (f : Floats)
    → SelectNth f
    → SortBy f
    → SamplerConfig f
    → ThinkBudget
    → ℕ
    → List f.F
    → Option (ℕ × ℕ)
choose f select_nth sort_by config b rng logits =
    if not (is_greedy f config)
    then sample f select_nth sort_by config rng (apply_to_logits f b logits)
    else some (argmax f (apply_to_logits f b logits), rng)
