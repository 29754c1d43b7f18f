-- ===== src/Stream/Whole.antt =====
-- The end of the message in `run_inference` (crates/server/src/handlers.rs) against the protocol of the
-- events: the fallbacks, the closing of the blocks, and a whole message.
use herbert_rs.Prelude.{
  ℕ, zero, suc, ◌+◌, ◌≡◌, refl, ap, sym, ◌∙◌, Bool, true, false, not, ◌&&◌, ◌⊎◌, Option, none, some,
  length, if◌then◌else◌, Bool-cases, Option-cases, inl, inr,
}
use herbert_rs.Prelude.Tokens.{is_empty}
use herbert_rs.Prelude.Text.{Text, contains}
use herbert_rs.Repetition.{StopReason}
use herbert_rs.Stream.{
  Stream, Request, Services, Outcome, finished, disconnected, failed, close_text, emit_call,
  decode_all,
}
use herbert_rs.Stream.Finish.{
  start_tag, next_call, close_blocks, end_message, unclosed_with, unclosed_call, text_call_with,
  text_calls, text_fallback, finish, finish_with, run_decode,
}
use herbert_rs.Stream.Protocol.{Phase, accept_all, at-itself}
use herbert_rs.Stream.Blocks.{
  Status, Runs, Tracks, send_lem, close_text_lem, emit_call_lem, called_idle, emitted, clash,
}
use herbert_rs.Stream.Run.{Ends, OrderlyAll, decode_all-Tracks}

emit_call_think : (s : Stream) (call : Text × Text) → (emit_call s call).in_think ≡ s.in_think
unfolding emit_call
emit_call_think s (name, arguments) = refl

-- All blocks are closed: the run of the automaton ends idle.
Closed : Stream → Type 0
Closed s = (n : ℕ) × (accept_all (0, Phase.idle) s.events ≡ some (n, Phase.idle))

close_blocks_lem :
    (s : Stream) (phase : Phase) → Status s phase → Runs s phase → Closed (close_blocks s)
unfolding Closed close_blocks
close_blocks_lem s phase (Status.text is_open outside not_called) runs =
    rw (is_open, outside)
      (
        s.current_block_index + 1,
        send_lem s.events _ s.current_block_index _ Phase.text Phase.idle runs
            (rw (at-itself s.current_block_index) refl),
      )
close_blocks_lem s phase (Status.thinking no_text inside not_called) runs =
    rw (no_text, inside)
      (
        s.current_block_index + 1,
        send_lem s.events _ s.current_block_index _ Phase.thinking Phase.idle runs
            (rw (at-itself s.current_block_index) refl),
      )
close_blocks_lem s phase (Status.idle no_text outside) runs =
    elim (Bool-cases s.tool_calls_emitted) [
      | inl calls ↦ rw (no_text, outside, calls) (s.current_block_index, runs)
      | inr no_calls ↦
          rw (no_text, outside, no_calls)
            (
              s.current_block_index + 1,
              send_lem s.events _ s.current_block_index _ Phase.idle Phase.idle runs
                  (rw (at-itself s.current_block_index, at-itself s.current_block_index) refl),
            )
    ]

-- The message has ended.
abbrev pub Ended : Stream → Type 0
Ended s = (n : ℕ) × (accept_all (0, Phase.idle) s.events ≡ some (n, Phase.ended))

end_message_lem : (s : Stream) (reason : StopReason) → Closed s → Ended (end_message s reason)
unfolding Closed end_message
end_message_lem s reason (n, runs) = (n, send_lem s.events _ n n Phase.idle Phase.ended runs refl)

-- Outside of a think block, and tracked.
record Outside (s : Stream) : Type 0 where
  tracked : Tracks s
  no_think : s.in_think ≡ false

if_stream :
    (P : Stream → Type 0) (b : Bool) (x y : Stream)
    → (b ≡ true → P x)
    → (b ≡ false → P y)
    → P (if b then x else y)
if_stream P true x y hx hy = hx refl
if_stream P false x y hx hy = hy refl

-- What the first fallback may do with a stream.
abbrev Unclosed : Stream → Stream → Type 0
Unclosed s t = Tracks t × (t.in_think ≡ s.in_think) × (s.in_think ≡ true → t ≡ s)

module _ (services : Services) where
  open services use {decode, trim, parse_call}

  unclosed_call_lem : (s : Stream) → Tracks s → Unclosed s (unclosed_call services s)
  unfolding unclosed_call
  unclosed_call_lem s tracks =
      if_stream (Unclosed s)
        (s.in_tool_call && not (is_empty s.tool_call_tokens) && not s.tool_calls_emitted) _ _
        (λ called.
          with_call (both s.in_tool_call _ (both _ (not s.tool_calls_emitted) called))
            (parse_call (trim (decode s.tool_call_tokens))))
        (λ h. (tracks, refl, (λ inside. refl)))
    where
      both : (a b : Bool) → (a && b) ≡ true → a ≡ true
      both true b h = refl
      both false b h = h

      with_call :
          s.in_tool_call ≡ true
          → (o : Option (Text × Text)) → Unclosed s (unclosed_with services s o)
      with_call called none = (tracks, refl, (λ inside. refl))
      with_call called (some call) =
          let (no_text, no_think, runs) =
            called_idle s tracks.phase tracks.status tracks.runs called in
          (
            record {
              phase = Phase.idle;
              status = idle_again (emitted s call no_text no_think);
              runs = emit_call_lem s call runs;
            },
            emit_call_think s call,
            (λ inside. absurd (clash (sym inside ∙ no_think))),
          )
        where
          idle_again :
              {t : Stream}
              → Status t Phase.idle
              → Status (record t { in_tool_call = false }) Phase.idle
          idle_again (Status.idle a b) = Status.idle a b

  text_call_lem :
      (s : Stream) (o : Option (Text × Text)) → Outside s → Outside (text_call_with services s o)
  text_call_lem s none h = h
  text_call_lem s (some call) h =
      let (no_text, no_think, runs) =
        close_text_lem s h.tracked.phase h.tracked.status h.tracked.runs h.no_think in
      record {
        tracked = record {
          phase = Phase.idle;
          status = emitted (close_text s) call no_text no_think;
          runs = emit_call_lem (close_text s) call runs;
        };
        no_think = emit_call_think (close_text s) call ∙ no_think;
      }

  text_calls_lem :
      (fuel : ℕ) (s : Stream) (rest : Text) → Outside s → Outside (text_calls services fuel s rest)
  unfolding text_calls
  text_calls_lem zero s rest h = h
  text_calls_lem (suc fuel) s rest h = elim (Option-cases (next_call rest)) [
    | inl over ↦ rw over h
    | inr ((body, rest'), found) ↦ rw found (
        text_calls_lem fuel (text_call_with services s (parse_call (trim body))) rest'
          (text_call_lem s (parse_call (trim body)) h))
  ]

  -- Outside of a think block the second fallback keeps to the protocol; in one it must find nothing.
  text_fallback_lem :
      (s : Stream)
      → Tracks s
      → (s.in_think ≡ true → contains start_tag s.generated_text ≡ false)
      → Tracks (text_fallback services s)
  unfolding text_fallback
  text_fallback_lem s tracks calm =
      if_stream Tracks (not s.tool_calls_emitted && contains start_tag s.generated_text) _ _
        (λ tagged.
          (text_calls_lem (length s.generated_text) s s.generated_text (record {
            tracked = tracks;
            no_think = outside (Bool-cases s.in_think) (second (not s.tool_calls_emitted) _ tagged);
          })).tracked)
        (λ h. tracks)
    where
      second : (a b : Bool) → (a && b) ≡ true → b ≡ true
      second true b h = h
      second false b h = absurd (clash (sym h))

      outside :
          (s.in_think ≡ true) ⊎ (s.in_think ≡ false)
          → contains start_tag s.generated_text ≡ true
          → s.in_think ≡ false
      outside (inl inside) tagged = absurd (clash (sym tagged ∙ calm inside))
      outside (inr not_inside) tagged = not_inside

  finish_lem :
      (s : Stream) (reason : StopReason)
      → Tracks s
      → (s.in_think ≡ true → contains start_tag s.generated_text ≡ false)
      → Ended (finish services s reason)
  unfolding finish
  finish_lem s reason tracks calm =
      let (tracks', think, same) = unclosed_call_lem s tracks in
      let fallen = text_fallback_lem (unclosed_call services s) tracks' (λ inside.
        ap (λ (t : Stream). contains start_tag t.generated_text) (same (sym think ∙ inside))
        ∙ calm (sym think ∙ inside)) in
      end_message_lem (close_blocks (text_fallback services (unclosed_call services s))) reason (
        close_blocks_lem (text_fallback services (unclosed_call services s)) fallen.phase
          fallen.status fallen.runs)

  -- How the outcome of a whole request keeps to the protocol: a message that is finished is ended, and one that the
  -- client left is a prefix that the protocol accepts.
  abbrev pub Kept : Outcome → Type 0
  Kept (finished s reason) = Ended s
  Kept (disconnected s) = Tracks s
  Kept failed = Unit

  -- Let the model open no tool call in a think block and no think block behind an open text block, and not end in a
  -- think block with a tool-call tag in its text before. Then the events of a whole message, whatever the tokens,
  -- the parser and the texts are, keep to the protocol: blocks are opened, filled and closed one after the other,
  -- with the numbers 0, 1, 2, …, and the message is ended behind the last one.
  pub run_decode-Kept :
      (request : Request) {G : Type 0} (next : G → ℕ → Option (G × ℕ)) (g : G) (token : ℕ)
      → OrderlyAll services request next g token
      → Ends
          (λ s. s.in_think ≡ true → contains start_tag s.generated_text ≡ false)
          (decode_all services request next g token)
      → Kept (run_decode services request next g token)
  unfolding run_decode
  run_decode-Kept request next g token orderly calm =
      whole (decode_all services request next g token)
        (decode_all-Tracks services request next g token orderly) calm
    where
      whole :
          (o : Outcome)
          → Ends Tracks o
          → Ends (λ s. s.in_think ≡ true → contains start_tag s.generated_text ≡ false) o
          → Kept (finish_with services o)
      whole (finished s reason) tracks calm = finish_lem s reason tracks calm
      whole (disconnected s) tracks calm = tracks
      whole failed tracks calm = tt
