-- ===== src/Stream.antt =====
-- The decode loop of `run_inference` in crates/server/src/handlers.rs, from the first token to the end
-- of the message, with the events of crates/server/src/sse.rs and `find_stop_sequence` of
-- crates/server/src/prompt.rs.
--
-- The channel is the list of the events sent: the results of `blocking_send` are ignored by the
-- code. Logging is left out, and so is the random id of a tool call. `next` is `decode_next` with the choice
-- of the token from its logits (`Sampler.choose`) and the tracking of the think budget, on a state of any
-- type, and `none` is its error. The tokenizer, `trim`, serde's parser with the accessors behind it, and
-- the state of the client's connection after so many tokens are parameters.
pub mod Finish
pub mod Protocol
pub mod Blocks
pub mod Step
pub mod Run
pub mod Whole
pub mod Count
mod Tests
use herbert_rs.Prelude.{
  ℕ, zero, suc, ◌+◌, ◌-◌, Bool, true, false, not, ◌&&◌, Option, none, some, List, [], ◌∷◌, ◌++◌,
  length, max, ◌==◌, ltb, if◌then◌else◌, ◌>>=◌,
}
use herbert_rs.Prelude.Tokens.{is_empty}
use herbert_rs.Prelude.Text.{Text, contains, str_from}
use herbert_rs.Repetition.{StopReason, detect_repetition_loop}

pub data BlockType : Type 0 where
  text thinking : BlockType

pub data SsePayload : Type 0 where
  content_block_start : ℕ → BlockType → SsePayload
  tool_use_start : ℕ → Text → SsePayload
  thinking_delta : ℕ → Text → SsePayload
  text_delta : ℕ → Text → SsePayload
  input_json_delta : ℕ → Text → SsePayload
  content_block_stop : ℕ → SsePayload
  -- whether the stop reason is "tool_use", "end_turn" or "max_tokens", and the number of tokens
  message_delta : ℕ → ℕ → SsePayload
  message_stop : SsePayload

abbrev pub tool_use : ℕ
tool_use = 0

abbrev pub end_turn : ℕ
end_turn = 1

abbrev pub max_tokens_reached : ℕ
max_tokens_reached = 2

-- The local variables of the loop.
pub record Stream : Type 0 where
  pub events : List SsePayload
  pub all_tokens : List ℕ
  pub output_tokens : ℕ
  pub in_think : Bool
  pub text_block_started : Bool
  pub current_block_index : ℕ
  pub in_tool_call : Bool
  pub tool_call_tokens : List ℕ
  pub tool_calls_emitted : Bool
  pub generated_text : Text
  pub thinking_text : Text

pub record Request : Type 0 where
  pub think_open_id : ℕ
  pub think_close_id : ℕ
  pub eos_token_id : ℕ
  pub im_end_id : ℕ
  pub tool_call_open_id : Option ℕ
  pub tool_call_close_id : Option ℕ
  pub stop_sequences : List Text
  pub max_tokens : ℕ

pub record Services : Type 0 where
  -- `tokenizer.decode(tokens, true).unwrap_or_default()`
  pub decode : List ℕ → Text
  pub trim : Text → Text
  -- the name ("unknown" if there is none) and the printed arguments ("{}" if there are none)
  pub parse_call : Text → Option (Text × Text)
  -- `format!("<tool_call>\n{}\n</tool_call>", json)`
  pub wrap_call : Text → Text
  pub is_closed : ℕ → Bool

-- `id == Some(token)`
unfoldable pub is_id : Option ℕ → ℕ → Bool
is_id none token = false
is_id (some id) token = id == token

unfoldable pub max_length : List Text → ℕ
max_length [] = 0
max_length (s ∷ ss) = max (length s) (max_length ss)

unfoldable pub any_contained : Text → List Text → Bool
any_contained t [] = false
any_contained t (s ∷ ss) = let rest = any_contained t ss in if contains s t then true else rest

-- Whether a sequence is found in the end of the text; `none` is the panic of a slice inside a character.
unfoldable pub find_stop_sequence : Text → List Text → Option Bool
find_stop_sequence t stop_sequences = do
  search_text ← str_from t (length t - (max_length stop_sequences + 64))
  some (any_contained search_text stop_sequences)

abbrev pub send : Stream → SsePayload → Stream
send s e = record s { events = s.events ++ (e ∷ []) }

-- The parts of the loop's body that occur more than once.
unfoldable pub open_text : Stream → Stream
open_text s = if s.text_block_started then s else record s {
  events = s.events ++ (content_block_start s.current_block_index BlockType.text ∷ []);
  text_block_started = true;
}

unfoldable pub close_text : Stream → Stream
close_text s =
    if s.text_block_started
    then record s {
      events = s.events ++ (content_block_stop s.current_block_index ∷ []);
      current_block_index = s.current_block_index + 1;
      text_block_started = false;
    }
    else s

unfoldable pub emit_text : Stream → Text → Stream
emit_text s t = record s {
  events = s.events ++ (text_delta s.current_block_index t ∷ []);
  generated_text = s.generated_text ++ t;
}

unfoldable pub emit_call : Stream → Text × Text → Stream
emit_call s (name, arguments) = record s {
  events =
      s.events
      ++ (tool_use_start s.current_block_index name
          ∷ input_json_delta s.current_block_index arguments
          ∷ content_block_stop s.current_block_index
          ∷ []);
  current_block_index = s.current_block_index + 1;
  tool_calls_emitted = true;
}

abbrev pub fresh : ℕ → Stream
fresh token = record {
  events = [];
  all_tokens = token ∷ [];
  output_tokens = 1;
  in_think = false;
  text_block_started = false;
  current_block_index = 0;
  in_tool_call = false;
  tool_call_tokens = [];
  tool_calls_emitted = false;
  generated_text = [];
  thinking_text = [];
}

unfoldable pub counted : Stream → ℕ → Stream
counted s token = record s {
  all_tokens = s.all_tokens ++ (token ∷ []);
  output_tokens = s.output_tokens + 1;
}

-- How a part of the loop's body ends.
pub data Flow : Type 0 where
  continues : Stream → Flow
  breaks : Stream → StopReason → Flow
  disconnects : Stream → Flow
  panics : Flow

pub data Outcome : Type 0 where
  finished : Stream → StopReason → Outcome
  disconnected : Stream → Outcome
  failed : Outcome

-- What the loop does after a body that ended as it did.
abbrev pub go_on : Flow → (Stream → Outcome) → Outcome
go_on (continues s) rest = rest s
go_on (breaks s reason) rest = finished s reason
go_on (disconnects s) rest = disconnected s
go_on panics rest = failed

abbrev pub with_next : {G : Type 0} → Option (G × ℕ) → (G → ℕ → Outcome) → Outcome
with_next none rest = failed
with_next (some (g, token)) rest = rest g token

module _ (services : Services) (request : Request) where
  open services use {decode, trim, parse_call, wrap_call, is_closed}
  open request use {
    think_open_id, think_close_id, eos_token_id, im_end_id, tool_call_open_id, tool_call_close_id,
    stop_sequences, max_tokens,
  }

  -- The text of one token, outside of thinking.
  unfoldable pub text_token : Stream → ℕ → Stream
  text_token s token =
      let t = decode (token ∷ []) in if is_empty t then open_text s else emit_text (open_text s) t

  unfoldable pub thinking_token : Stream → ℕ → Stream
  thinking_token s token =
      let t = decode (token ∷ []) in
      if is_empty t then s else record s {
        events = s.events ++ (thinking_delta s.current_block_index t ∷ []);
        thinking_text = s.thinking_text ++ t;
      }

  -- The block "Process first token".
  unfoldable pub first_token : ℕ → Flow
  first_token token =
      let s = fresh token in
      if token == think_open_id
      then continues
          (record s { in_think = true; events = content_block_start 0 BlockType.thinking ∷ [] })
      else if is_id tool_call_open_id token
      then continues (record s { in_tool_call = true; tool_call_tokens = [] })
      else if token == eos_token_id
      then breaks s StopReason.eos
      else if token == im_end_id
      then breaks s StopReason.im_end
      else continues (text_token s token)

  -- The branch of `tool_call_close_id`.
  abbrev pub close_call_with : Stream → Text → Option (Text × Text) → Stream
  close_call_with s json (some call) = emit_call s call
  close_call_with s json none = emit_text (open_text s) (wrap_call json)

  unfoldable pub close_call : Stream → Stream
  close_call s =
      let json = trim (decode s.tool_call_tokens) in
      close_call_with (record s { in_tool_call = false }) json (parse_call json)

  -- The checks at the end of the body.
  abbrev pub end_checks_with : Stream → Option Bool → Option ℕ → Flow
  end_checks_with s none repetition = panics
  end_checks_with s (some true) repetition = breaks s StopReason.eos
  end_checks_with s (some false) (some pat_len) = breaks s StopReason.repetition_loop
  end_checks_with s (some false) none =
      if is_closed s.output_tokens then disconnects s else continues s

  unfoldable pub end_checks : Stream → Flow
  end_checks s =
      end_checks_with s
        (if is_empty stop_sequences
          then some false
          else find_stop_sequence s.generated_text stop_sequences)
        (detect_repetition_loop s.all_tokens)

  -- The rest of the body, for a token that does not end the message.
  unfoldable pub on_token : Stream → ℕ → Flow
  on_token s token =
      if is_id tool_call_open_id token
      then continues (record (close_text s) { in_tool_call = true; tool_call_tokens = [] })
      else if s.in_tool_call && is_id tool_call_close_id token
      then continues (close_call s)
      else if s.in_tool_call
      then continues (record s { tool_call_tokens = s.tool_call_tokens ++ (token ∷ []) })
      else if token == think_open_id
      then continues (
          if s.in_think then s else record s {
            in_think = true;
            events =
                s.events ++ (content_block_start s.current_block_index BlockType.thinking ∷ []);
          })
      else if token == think_close_id
      then continues (
          if s.in_think
          then record s {
            events = s.events ++ (content_block_stop s.current_block_index ∷ []);
            current_block_index = s.current_block_index + 1;
            in_think = false;
          }
          else s)
      else end_checks (if s.in_think then thinking_token s token else text_token s token)

  unfoldable pub step : Stream → ℕ → Flow
  step s token =
      if token == eos_token_id
      then breaks (counted s token) StopReason.eos
      else if token == im_end_id
      then breaks (counted s token) StopReason.im_end
      else on_token (counted s token) token

  module _ {G : Type 0} (next : G → ℕ → Option (G × ℕ)) where
    -- `n` more rounds of `for _step in 1..max_tokens`
    unfoldable pub decode_loop : ℕ → G → ℕ → Stream → Outcome
    decode_loop zero g current s = finished s StopReason.max_tokens
    decode_loop (suc n) g current s =
        with_next (next g current) (λ g' token. go_on (step s token) (decode_loop n g' token))

    unfoldable pub decode_all : G → ℕ → Outcome
    decode_all g token = go_on (first_token token) (decode_loop (max_tokens - 1) g token)
