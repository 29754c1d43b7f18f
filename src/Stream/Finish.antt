-- ===== src/Stream/Finish.antt =====
-- The part of `run_inference` (crates/server/src/handlers.rs) behind the decode loop: the two fallbacks
-- for tool calls, the closing of the blocks, the end of the message.
use herbert_rs.Prelude.{
  ℕ, zero, suc, ◌+◌, false, not, ◌&&◌, Option, none, some, [], ◌∷◌, ◌++◌, length, take, drop,
  if◌then◌else◌,
}
use herbert_rs.Prelude.Tokens.{is_empty}
use herbert_rs.Prelude.Text.{Text, find, contains}
use herbert_rs.Repetition.{StopReason}
use herbert_rs.Stream.{
  content_block_start, content_block_stop, message_delta, message_stop, BlockType, Stream, Services,
  Request, send, close_text, emit_call, tool_use, end_turn, max_tokens_reached, Outcome, finished,
  disconnected, failed, decode_all,
}

-- "<tool_call>" and "</tool_call>"
abbrev pub start_tag : Text
start_tag = 60 ∷ 116 ∷ 111 ∷ 111 ∷ 108 ∷ 95 ∷ 99 ∷ 97 ∷ 108 ∷ 108 ∷ 62 ∷ []

abbrev pub end_tag : Text
end_tag = 60 ∷ 47 ∷ 116 ∷ 111 ∷ 111 ∷ 108 ∷ 95 ∷ 99 ∷ 97 ∷ 108 ∷ 108 ∷ 62 ∷ []

-- The text between the next pair of tags, and what is behind it.
abbrev between_with : Text → Option ℕ → Option (Text × Text)
between_with after none = none
between_with after (some q) = some (take q after, drop (q + length end_tag) after)

abbrev next_call_with : Text → Option ℕ → Option (Text × Text)
next_call_with rest none = none
next_call_with rest (some p) =
    let after = drop (p + length start_tag) rest in between_with after (find end_tag after)

unfoldable pub next_call : Text → Option (Text × Text)
next_call rest = next_call_with rest (find start_tag rest)

abbrev pub stop_code : StopReason → ℕ
stop_code StopReason.eos = end_turn
stop_code StopReason.im_end = end_turn
stop_code StopReason.repetition_loop = end_turn
stop_code StopReason.max_tokens = max_tokens_reached

-- Close open content blocks.
unfoldable pub close_blocks : Stream → Stream
close_blocks s =
    let t =
      (if s.in_think
        then record s {
          events = s.events ++ (content_block_stop s.current_block_index ∷ []);
          current_block_index = s.current_block_index + 1;
        }
        else s) in
    if s.text_block_started
    then send t (content_block_stop t.current_block_index)
    else if not s.in_think && not s.tool_calls_emitted
    then record t {
      events =
          t.events
          ++ (content_block_start t.current_block_index BlockType.text
              ∷ content_block_stop t.current_block_index
              ∷ []);
    }
    else t

unfoldable pub end_message : Stream → StopReason → Stream
end_message s reason = record s {
  events =
      s.events
      ++ (message_delta (if s.tool_calls_emitted then tool_use else stop_code reason)
            s.output_tokens
          ∷ message_stop
          ∷ []);
}

module _ (services : Services) where
  open services use {decode, trim, parse_call}

  abbrev pub unclosed_with : Stream → Option (Text × Text) → Stream
  unclosed_with s none = s
  unclosed_with s (some call) = record (emit_call s call) { in_tool_call = false }

  -- Fallback 1: a tool call without its closing token.
  unfoldable pub unclosed_call : Stream → Stream
  unclosed_call s =
      if s.in_tool_call && not (is_empty s.tool_call_tokens) && not s.tool_calls_emitted
      then unclosed_with s (parse_call (trim (decode s.tool_call_tokens)))
      else s

  abbrev pub text_call_with : Stream → Option (Text × Text) → Stream
  text_call_with s none = s
  text_call_with s (some call) = emit_call (close_text s) call

  abbrev pub text_calls_with : (Stream → Text → Stream) → Stream → Option (Text × Text) → Stream
  text_calls_with again s none = s
  text_calls_with again s (some (body, rest)) =
      again (text_call_with s (parse_call (trim body))) rest

  -- The loop of fallback 2, over the text from `search_from` on, for so many rounds at most.
  unfoldable pub text_calls : ℕ → Stream → Text → Stream
  text_calls zero s rest = s
  text_calls (suc fuel) s rest = text_calls_with (text_calls fuel) s (next_call rest)

  -- Fallback 2: tool calls written as text. A round takes a pair of tags off the text.
  unfoldable pub text_fallback : Stream → Stream
  text_fallback s =
      if not s.tool_calls_emitted && contains start_tag s.generated_text
      then text_calls (length s.generated_text) s s.generated_text
      else s

  unfoldable pub finish : Stream → StopReason → Stream
  finish s reason = end_message (close_blocks (text_fallback (unclosed_call s))) reason

  -- The loop and what follows it.
  abbrev pub finish_with : Outcome → Outcome
  finish_with (finished s reason) = finished (finish s reason) reason
  finish_with (disconnected s) = disconnected s
  finish_with failed = failed

  unfoldable pub run_decode : {G : Type 0} → Request → (G → ℕ → Option (G × ℕ)) → G → ℕ → Outcome
  run_decode request next g token = finish_with (decode_all services request next g token)
