-- ===== src/Stream/Tests.antt =====
-- Runs of the stream, and its theorems at them.
use mathlib.Core.Option.{some-injective}
use herbert_rs.Prelude.{
  ℕ, zero, suc, ◌<◌, ◌≡◌, refl, ap, true, false, Option, none, some, List, [], ◌∷◌, ◌==◌, ==_iff,
  arith, if◌then◌else◌,
}
use herbert_rs.Prelude.Tokens.{is_empty, tokens_eq}
use herbert_rs.Prelude.Text.{starts_with, find_from, find, contains, str_from}
use herbert_rs.Repetition.{block, blocks_repeat, repeats, detect_from, detect_repetition_loop}
use herbert_rs.Stream.{
  SsePayload, content_block_start, tool_use_start, text_delta, input_json_delta, content_block_stop,
  message_delta, message_stop, BlockType, Request, Services, Stream, Outcome, finished, is_id,
  max_length, any_contained, find_stop_sequence, open_text, close_text, emit_text, emit_call,
  text_token, thinking_token, first_token, close_call, end_checks, on_token, counted, step,
  decode_loop, decode_all,
}
use herbert_rs.Stream.Finish.{
  next_call, close_blocks, end_message, unclosed_call, text_calls, text_fallback, finish,
  run_decode,
}
use herbert_rs.Stream.Protocol.{Phase, accept_all}
use herbert_rs.Stream.Run.{OrderlyRun, Ends}
use herbert_rs.Stream.Count.{Within, decode_all-Within}
use herbert_rs.Stream.Whole.{Kept, run_decode-Kept}

program : Unit {0}
unfolding tokens_eq starts_with find_from find contains str_from block blocks_repeat repeats
    detect_from detect_repetition_loop is_id max_length any_contained find_stop_sequence open_text
    close_text emit_text emit_call text_token thinking_token first_token close_call end_checks
    on_token counted step decode_loop decode_all next_call close_blocks end_message unclosed_call
    text_calls text_fallback finish run_decode
program = tt

abbrev services : Services
services = record {
  decode = λ tokens. tokens;
  trim = λ t. t;
  parse_call = λ t. if is_empty t then none else some (t, []);
  wrap_call = λ t. t;
  is_closed = λ n. false;
}

abbrev request : Option ℕ → Request
request tool_open = record {
  think_open_id = 1;
  think_close_id = 2;
  eos_token_id = 3;
  im_end_id = 4;
  tool_call_open_id = tool_open;
  tool_call_close_id = some 6;
  stop_sequences = [];
  max_tokens = 3;
}

-- The model's tokens, one after the other.
abbrev scripted : List ℕ → ℕ → Option (List ℕ × ℕ)
scripted [] current = none
scripted (t ∷ ts) current = some (ts, t)

abbrev events_of : Outcome → List SsePayload
events_of (finished s reason) = s.events
events_of o = []

-- A think block, closed, and text behind it.
thinks_first :
    events_of (run_decode services (request none) scripted (2 ∷ 50 ∷ []) 1)
    ≡ content_block_start 0 BlockType.thinking
      ∷ content_block_stop 0
      ∷ content_block_start 1 BlockType.text
      ∷ text_delta 1 (50 ∷ [])
      ∷ content_block_stop 1
      ∷ message_delta 2 3
      ∷ message_stop
      ∷ []
unfolding program
thinks_first = refl

-- A tool call behind text.
calls :
    events_of (run_decode services (request (some 5)) scripted (5 ∷ 60 ∷ []) 50)
    ≡ content_block_start 0 BlockType.text
      ∷ text_delta 0 (50 ∷ [])
      ∷ content_block_stop 0
      ∷ tool_use_start 1 (60 ∷ [])
      ∷ input_json_delta 1 []
      ∷ content_block_stop 1
      ∷ message_delta 0 3
      ∷ message_stop
      ∷ []
unfolding program
calls = refl

-- A think block behind text is opened inside the open text block, with its number: the protocol refuses it.
nested :
    accept_all
      (0, Phase.idle)
      (events_of (run_decode services (request none) scripted (1 ∷ 60 ∷ []) 50))
    ≡ none
unfolding program
nested = refl

-- A tool call inside a think block is refused too.
nested_call :
    accept_all
      (0, Phase.idle)
      (events_of (run_decode services (request (some 5)) scripted (5 ∷ 60 ∷ []) 1))
    ≡ none
unfolding program
nested_call = refl

-- Counting tokens, of which none opens a think block.
abbrev counting : ℕ → ℕ → Option (ℕ × ℕ)
counting g current = some (suc g, g)

not_one : (t : ℕ) → 1 < t → (t == 1) ≡ true → ⊥
not_one t h e = omega (arith, (==_iff t 1).0 e)

counting-OrderlyRun :
    (n g current : ℕ) (s : Stream)
    → 1 < g
    → OrderlyRun services (request none) counting n g current s
unfolding is_id
counting-OrderlyRun zero g current s h = tt
counting-OrderlyRun (suc n) g current s h = λ g' token e.
    let pair = some-injective (suc g, g) (g', token) e in
    let this : g ≡ token = ap (λ (p : ℕ × ℕ). p.1) pair in
    let next : suc g ≡ g' = ap (λ (p : ℕ × ℕ). p.0) pair in
    (
      record {
        call_outside = λ k. absurd (impossible k);
        think_outside = λ k called. absurd (not_one token (omega (arith, this, h)) k);
      },
      λ s' k. counting-OrderlyRun n g' token s' (omega (arith, next, h)),
    )
  where
    impossible : false ≡ true → ⊥
    impossible k = cc

run_decode-Kept_example : Kept services (run_decode services (request none) counting 7 1)
unfolding program
run_decode-Kept_example =
    run_decode-Kept services (request none) counting 7 1
      (λ s h. counting-OrderlyRun 2 7 1 s (omega arith)) (λ inside. refl)

decode_all-Within_example :
    Ends (Within services (request none) 3) (decode_all services (request none) counting 7 1)
decode_all-Within_example = decode_all-Within services (request none) counting 7 1
