-- ===== src/Speculative.antt =====
-- crates/backends/backend_common/src/speculative.rs: one step of speculative decoding. The two backends
-- are operations on a state of their own, `none` being their error; a panic is `none` too. The state of the
-- generator is a `u64`, stepped as that of the sampler.
pub mod Accept
pub mod Rollback
mod Tests
use mathlib.Core.List.{foldl}
use herbert_rs.Prelude.{
  ℕ, zero, suc, ◌+◌, ◌-◌, ◌*◌, ◌/◌, ◌%◌, ◌^◌, Bool, true, false, ◌||◌, Option, none, some, List, [],
  ◌∷◌, ◌++◌, map, length, get_elem?, get_or, min, ltb, ◌==◌, if◌then◌else◌, ◌>>=◌,
}
use herbert_rs.Floats.{Floats}
use herbert_rs.Sampler.{next_f32}

pub record SpecStepStats : Type 0 where
  pub accepted : ℕ
  pub produced : ℕ
  pub draft_tokens : List ℕ
  pub final_tokens : List ℕ

pub record SpeculativeDecoder : Type 0 where
  pub draft_k : ℕ
  pub rng_state : ℕ
  pub total_accepted : ℕ
  pub total_steps : ℕ
  pub total_produced : ℕ

-- What the step calls of a backend, on a backend with its KV cache as one state.
pub record Backend (F : Type 0) : Type 1 where
  pub State : Type 0
  pub kv_seq_len : State → Option ℕ
  -- the next token and, if they are returned, its logits
  pub decode_next : State → ℕ → Option (State × ℕ × Option (List F))
  pub verify_draft : State → List ℕ → Option (State × List (List F))
  pub truncate_kv : State → ℕ → Option State

module _ (f : Floats) where
  open f use {F, lit, neg_infinity, add, sub, mul, div, exp, fmax, lt, feq}

  unfoldable pub softmax : List F → List F
  softmax logits =
      let max_val = foldl fmax neg_infinity logits in
      let probs = map (λ v. exp (sub v max_val)) logits in
      let sum = foldl add (lit 0) probs in
      if lt (lit 0) sum then map (λ p. mul p (div (lit 1) sum)) probs else probs

  -- The CDF loop from index `i` on, `scale` being applied to each entry.
  unfoldable pub pick_from : ℕ → F → F → (F → F) → List F → Option ℕ
  pick_from i r cumsum scale [] = none
  pick_from i r cumsum scale (p ∷ probs) =
      let cumsum' = add cumsum (scale p) in
      if lt r cumsum' then some (i % 2 ^ 32) else pick_from (suc i) r cumsum' scale probs

  -- `(n - 1) as u32`, where the subtraction overflows on an empty list: a panic in a debug build.
  unfoldable pub or_last : Option ℕ → ℕ → Option ℕ
  or_last (some i) n = some i
  or_last none zero = none
  or_last none (suc n) = some (n % 2 ^ 32)

  unfoldable pub sample_from_probs : List F → ℕ → Option (ℕ × ℕ)
  sample_from_probs probs rng =
      let (r, rng') = next_f32 f rng in
      or_last (pick_from 0 r (lit 0) (λ p. p) probs) (length probs) >>= λ i. some (i, rng')

  -- `(p[i] - q[i]).max(0.0)` over the shorter of the two
  unfoldable pub residual : List F → List F → List F
  residual [] q = []
  residual (x ∷ p) [] = []
  residual (x ∷ p) (y ∷ q) = fmax (sub x y) (lit 0) ∷ residual p q

  unfoldable pub resample_from_residual : List F → List F → ℕ → Option (ℕ × ℕ)
  resample_from_residual p q rng =
      let rs = residual p q in
      let sum = foldl add (lit 0) rs in
      if lt sum (lit 0) || feq sum (lit 0)
      then sample_from_probs p rng
      else (let (r, rng') = next_f32 f rng in
          or_last (pick_from 0 r (lit 0) (λ v. mul v (div (lit 1) sum)) rs) (length rs) >>= λ i.
          some (i, rng'))

  -- `accept_prob` of a draft token; `tiny` is `1e-10`, and `fmin(x, 1.0)` is written with `<`.
  unfoldable pub accept_prob : F → List F → List F → ℕ → F
  accept_prob tiny p q x =
      let ratio = div (get_or p x (lit 0)) (get_or q x tiny) in
      if lt ratio (lit 1) then ratio else lit 1

  -- The accept/reject loop over the draft tokens with the logits of both models: the number of accepted
  -- tokens, the final tokens, and the generator's state.
  unfoldable pub accept_loop :
      F → List ℕ → List (List F) → List (List F) → ℕ → Option (ℕ × List ℕ × ℕ)
  accept_loop tiny [] targets drafts rng = some (0, [], rng)
  accept_loop tiny (x ∷ xs) [] drafts rng = none
  accept_loop tiny (x ∷ xs) (t ∷ targets) [] rng = none
  accept_loop tiny (x ∷ xs) (t ∷ targets) (d ∷ drafts) rng =
      let p = softmax t in
      let q = softmax d in
      let (r, rng') = next_f32 f rng in
      let rest = accept_loop tiny xs targets drafts rng' in
      if lt r (accept_prob tiny p q x)
      then (rest >>= λ o. some (suc o.0, x ∷ o.1, o.2))
      else (resample_from_residual p q rng' >>= λ o. some (0, o.0 ∷ [], o.1))

  -- The bonus token, if all were accepted.
  unfoldable pub bonus : ℕ → List (List F) → ℕ × List ℕ × ℕ → Option (ℕ × List ℕ × ℕ)
  bonus k targets (accepted, final_tokens, rng) =
      if accepted == k
      then (do
        t ← get_elem? targets k
        o ← sample_from_probs (softmax t) rng
        some (accepted, final_tokens ++ (o.0 ∷ []), o.1))
      else some (accepted, final_tokens, rng)

  module _ (draft : Backend F) (target : Backend F) where
    -- Phase 1: `k` calls of `decode_next`, each with the token of the one before.
    unfoldable pub draft_loop : ℕ → draft.State → ℕ → Option (draft.State × List ℕ × List (List F))
    draft_loop zero s tok = some (s, [], [])
    draft_loop (suc k) s tok = do
      (s', tok', o) ← draft.decode_next s tok
      logits ← o
      (s'', toks, ls) ← draft_loop k s' tok'
      some (s'', tok' ∷ toks, logits ∷ ls)

    unfoldable pub step :
        F
        → SpeculativeDecoder
        → draft.State
        → target.State
        → ℕ
        → Option (SpeculativeDecoder × draft.State × target.State × SpecStepStats)
    step tiny self d t current_token = do
      let k = self.draft_k
      draft_start_pos ← draft.kv_seq_len d
      target_start_pos ← target.kv_seq_len t
      (d', draft_tokens, draft_logits) ← draft_loop k d current_token
      (t', target_logits) ← target.verify_draft t (current_token ∷ draft_tokens)
      checked ← if ltb (length target_logits) (k + 1) then none else some target_logits
      looped ← accept_loop tiny draft_tokens checked draft_logits self.rng_state
      (accepted, final_tokens, rng) ← bonus k checked looped
      d'' ← draft.truncate_kv d' (draft_start_pos + 1 + accepted)
      t'' ← target.truncate_kv t' (target_start_pos + 1 + accepted)
      some (
        record self {
          rng_state = rng;
          total_accepted = self.total_accepted + accepted;
          total_steps = self.total_steps + 1;
          total_produced = self.total_produced + length final_tokens;
        },
        d'',
        t'',
        record {
          accepted = accepted;
          produced = length final_tokens;
          draft_tokens = draft_tokens;
          final_tokens = final_tokens;
        },
      )
