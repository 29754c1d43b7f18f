-- ===== src/Stream/Count.antt =====
-- The tokens that `run_inference` (crates/server/src/handlers.rs) counts.
use herbert_rs.Prelude.{
  ℕ, zero, suc, ◌+◌, ◌-◌, ◌≤◌, ◌≡◌, refl, ap, sym, ◌∙◌, Bool, true, false, ◌&&◌, Option, none, some,
  [], ◌∷◌, length, length-append, max, arith, ◌==◌, if◌then◌else◌, Option-cases, inl, inr,
}
use herbert_rs.Prelude.Tokens.{is_empty}
use herbert_rs.Prelude.Text.{Text}
use herbert_rs.Repetition.{detect_repetition_loop}
use herbert_rs.Stream.{
  Stream, Request, Services, Flow, continues, breaks, disconnects, panics, Outcome, finished,
  disconnected, failed, go_on, is_id, fresh, open_text, close_text, emit_text, emit_call,
  text_token, thinking_token, first_token, close_call, close_call_with, end_checks, end_checks_with,
  find_stop_sequence, on_token, counted, step, decode_loop, decode_all,
}
use herbert_rs.Stream.Run.{Ends}

-- The streams have counted the same tokens.
abbrev Same : Stream → Stream → Type 0
Same s t = (t.all_tokens ≡ s.all_tokens) × (t.output_tokens ≡ s.output_tokens)

-- A branch of the body: whatever the condition is.
if-Same : (s : Stream) (b : Bool) (x y : Stream) → Same s x → Same s y → Same s (if b then x else y)
if-Same s true x y hx hy = hx
if-Same s false x y hx hy = hy

open_text-Same : (s : Stream) → Same s (open_text s)
unfolding open_text
open_text-Same s = if-Same s s.text_block_started _ _ (refl, refl) (refl, refl)

close_text-Same : (s : Stream) → Same s (close_text s)
unfolding close_text
close_text-Same s = if-Same s s.text_block_started _ _ (refl, refl) (refl, refl)

emit_text-Same : (s r : Stream) (t : Text) → Same s r → Same s (emit_text r t)
unfolding emit_text
emit_text-Same s r t h = h

emit_call-Same : (s : Stream) (call : Text × Text) → Same s (emit_call s call)
unfolding emit_call
emit_call-Same s (name, arguments) = (refl, refl)

-- The flow goes on with the same tokens.
abbrev FlowSame : Stream → Flow → Type 0
FlowSame s (continues t) = Same s t
FlowSame s (breaks t reason) = Same s t
FlowSame s (disconnects t) = Same s t
FlowSame s panics = Unit

if_flow :
    (s : Stream) (b : Bool) (x y : Flow)
    → FlowSame s x
    → FlowSame s y
    → FlowSame s (if b then x else y)
if_flow s true x y hx hy = hx
if_flow s false x y hx hy = hy

module _ (services : Services) (request : Request) where
  open services use {decode, trim, parse_call, wrap_call, is_closed}
  open request use {
    think_open_id, think_close_id, eos_token_id, im_end_id, tool_call_open_id, tool_call_close_id,
    stop_sequences, max_tokens,
  }

  text_token-Same : (s : Stream) (token : ℕ) → Same s (text_token services request s token)
  unfolding text_token
  text_token-Same s token =
      if-Same s (is_empty (decode (token ∷ []))) _ _ (open_text-Same s)
        (emit_text-Same s (open_text s) (decode (token ∷ [])) (open_text-Same s))

  thinking_token-Same : (s : Stream) (token : ℕ) → Same s (thinking_token services request s token)
  unfolding thinking_token
  thinking_token-Same s token =
      if-Same s (is_empty (decode (token ∷ []))) _ _ (refl, refl) (refl, refl)

  close_call-Same : (s : Stream) → Same s (close_call services request s)
  unfolding close_call
  close_call-Same s = all_ways (parse_call (trim (decode s.tool_call_tokens)))
    where
      s' : Stream
      s' = record s { in_tool_call = false }

      all_ways :
          (o : Option (Text × Text))
          → Same s (close_call_with services request s' (trim (decode s.tool_call_tokens)) o)
      all_ways none =
          emit_text-Same s' (open_text s') (wrap_call (trim (decode s.tool_call_tokens)))
            (open_text-Same s')
      all_ways (some call) = emit_call-Same s' call

  end_checks-Same : (s t : Stream) → Same s t → FlowSame s (end_checks services request t)
  unfolding end_checks
  end_checks-Same s t h =
      all_ways
        (if is_empty stop_sequences
          then some false
          else find_stop_sequence t.generated_text stop_sequences)
        (detect_repetition_loop t.all_tokens)
    where
      all_ways :
          (stop : Option Bool) (repetition : Option ℕ)
          → FlowSame s (end_checks_with services request t stop repetition)
      all_ways none repetition = tt
      all_ways (some true) repetition = h
      all_ways (some false) (some pat_len) = h
      all_ways (some false) none = if_flow s (is_closed t.output_tokens) _ _ h h

  on_token-Same : (s : Stream) (token : ℕ) → FlowSame s (on_token services request s token)
  unfolding on_token
  on_token-Same s token = if_flow s (is_id tool_call_open_id token) _ _ (close_text-Same s) (
      if_flow s (s.in_tool_call && is_id tool_call_close_id token) _ _ (close_call-Same s) (
        if_flow s s.in_tool_call _ _ (refl, refl)
          (if_flow s (token == think_open_id) _ _
            (if-Same s s.in_think _ _ (refl, refl) (refl, refl))
            (if_flow s (token == think_close_id) _ _
              (if-Same s s.in_think _ _ (refl, refl) (refl, refl))
              (end_checks-Same s _ (
                if-Same s s.in_think _ _ (thinking_token-Same s token)
                  (text_token-Same s token)))))))

  -- `n` tokens are counted, and they are all there.
  abbrev Counts : ℕ → Stream → Type 0
  Counts n s = (s.output_tokens ≡ n) × (length s.all_tokens ≡ n)

  abbrev FlowCounts : ℕ → Flow → Type 0
  FlowCounts n (continues s) = Counts n s
  FlowCounts n (breaks s reason) = Counts n s
  FlowCounts n (disconnects s) = Counts n s
  FlowCounts n panics = Unit

  Same-Counts :
      (n : ℕ) (s : Stream) (flow : Flow) → FlowSame s flow → Counts n s → FlowCounts n flow
  Same-Counts n s (continues t) h k = (h.1 ∙ k.0, ap length h.0 ∙ k.1)
  Same-Counts n s (breaks t reason) h k = (h.1 ∙ k.0, ap length h.0 ∙ k.1)
  Same-Counts n s (disconnects t) h k = (h.1 ∙ k.0, ap length h.0 ∙ k.1)
  Same-Counts n s panics h k = tt

  counted-Counts : (n : ℕ) (s : Stream) (token : ℕ) → Counts n s → Counts (suc n) (counted s token)
  unfolding counted
  counted-Counts n s token h =
      (omega (arith, h.0), omega (arith, length-append s.all_tokens (token ∷ []), h.1))

  if_counts :
      (n : ℕ) (b : Bool) (x y : Flow)
      → FlowCounts n x
      → FlowCounts n y
      → FlowCounts n (if b then x else y)
  if_counts n true x y hx hy = hx
  if_counts n false x y hx hy = hy

  step-Counts :
      (n : ℕ) (s : Stream) (token : ℕ)
      → Counts n s
      → FlowCounts (suc n) (step services request s token)
  unfolding step
  step-Counts n s token h =
      let after = counted-Counts n s token h in
      if_counts (suc n) (token == eos_token_id) _ _ after (
        if_counts (suc n) (token == im_end_id) _ _ after
          (Same-Counts (suc n) (counted s token) _ (on_token-Same (counted s token) token) after))

  first_token-Counts : (token : ℕ) → FlowCounts 1 (first_token services request token)
  unfolding first_token
  first_token-Counts token =
      if_counts 1 (token == think_open_id) _ _ (refl, refl)
        (if_counts 1 (is_id tool_call_open_id token) _ _ (refl, refl)
          (if_counts 1 (token == eos_token_id) _ _ (refl, refl)
            (if_counts 1 (token == im_end_id) _ _ (refl, refl)
              (Same-Counts 1 (fresh token)
                (continues (text_token services request (fresh token) token))
                (text_token-Same (fresh token) token) (refl, refl)))))

  -- Every token is counted once, and there are no more than the limit.
  abbrev pub Within : ℕ → Stream → Type 0
  Within limit s = (s.output_tokens ≡ length s.all_tokens) × (s.output_tokens ≤ limit)

  module _ {G : Type 0} (next : G → ℕ → Option (G × ℕ)) where
    decode_loop-Within :
        (n m : ℕ) (g : G) (current : ℕ) (s : Stream)
        → Counts m s
        → Ends (Within (m + n)) (decode_loop services request next n g current s)
    unfolding decode_loop
    decode_loop-Within zero m g current s h = (h.0 ∙ sym h.1, omega (arith, h.0))
    decode_loop-Within (suc n) m g current s h = elim (Option-cases (next g current)) [
      | inl error ↦ rw error tt
      | inr ((g', token), got) ↦ rw got (
          ends (step services request s token) (step-Counts m s token h)
            (decode_loop services request next n g' token)
            (λ t k.
              shift (decode_loop services request next n g' token t)
                (decode_loop-Within n (suc m) g' token t k)))
    ]
      where
        shift : (o : Outcome) → Ends (Within (suc m + n)) o → Ends (Within (m + suc n)) o
        shift (finished t reason) k = (k.0, omega (arith, k.1))
        shift (disconnected t) k = (k.0, omega (arith, k.1))
        shift failed k = tt

        ends :
            (flow : Flow)
            → FlowCounts (suc m) flow
            → (rest : Stream → Outcome)
            → ((t : Stream) → Counts (suc m) t → Ends (Within (m + suc n)) (rest t))
            → Ends (Within (m + suc n)) (go_on flow rest)
        ends (continues t) k rest again = again t k
        ends (breaks t reason) k rest again = (k.0 ∙ sym k.1, omega (arith, k.0))
        ends (disconnects t) k rest again = (k.0 ∙ sym k.1, omega (arith, k.0))
        ends panics k rest again = tt

    -- However the decoding ends, unless with an error, it has counted every token once, and no more tokens than
    -- `max_tokens`, or than the one that the prefill gives.
    pub decode_all-Within :
        (g : G) (token : ℕ)
        → Ends (Within (max 1 max_tokens)) (decode_all services request next g token)
    unfolding decode_all
    decode_all-Within g token = ends (first_token services request token) (first_token-Counts token)
      where
        limit : 1 + (max_tokens - 1) ≡ max 1 max_tokens
        limit = omega arith

        ends :
            (flow : Flow)
            → FlowCounts 1 flow
            → Ends
                (Within (max 1 max_tokens))
                (go_on flow (decode_loop services request next (max_tokens - 1) g token))
        ends (continues t) k = rw (← limit) (decode_loop-Within (max_tokens - 1) 1 g token t k)
        ends (breaks t reason) k = (k.0 ∙ sym k.1, omega (arith, k.0))
        ends (disconnects t) k = (k.0 ∙ sym k.1, omega (arith, k.0))
        ends panics k = tt
