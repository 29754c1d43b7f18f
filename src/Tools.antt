-- ===== src/Tools.antt =====
-- crates/cli/src/tools/parsing.rs: the tool calls in the output of a model, from its tokens or from its text. The
-- tokenizer, `trim` and serde's parser with the accessors behind it are parameters; the loops are on fuel, a round
-- being at least one token or byte long, and they work on what is left from their position on.
pub mod Spans
mod Tests
use herbert_rs.Prelude.{
  ℕ, zero, suc, ◌+◌, ◌-◌, Bool, true, false, Option, none, some, List, [], ◌∷◌, ◌++◌, length, take,
  drop, ◌==◌, if◌then◌else◌,
}
use herbert_rs.Prelude.Tokens.{is_empty}
use herbert_rs.Prelude.Text.{Text, find}
use herbert_rs.Stream.Finish.{next_call}

pub record ToolCall : Type 0 where
  pub name : Text
  pub arguments : Text

pub record Parsers : Type 0 where
  -- `tokenizer.decode(tokens, true)`, an error as `none`
  pub decode : List ℕ → Option Text
  pub trim : Text → Text
  -- the name ("" if there is none) and the arguments ("{}" if there are none) of a JSON value
  pub parse_call : Text → Option ToolCall
  -- `KNOWN_TOOLS.contains(name)`
  pub is_known : Text → Bool

-- `tokens.iter().position(|&t| t == id)`, counted from `i`
unfoldable pub position_of : ℕ → ℕ → List ℕ → Option ℕ
position_of i id [] = none
position_of i id (t ∷ ts) = let rest = position_of (suc i) id ts in if t == id then some i else rest

module _ (parsers : Parsers) where
  open parsers use {decode, trim, parse_call, is_known}

  abbrev named : Option ToolCall → List ToolCall
  named none = []
  named (some call) = if is_empty call.name then [] else call ∷ []

  abbrev pub from_body : Option Text → List ToolCall
  from_body none = []
  from_body (some body) = named (parse_call (trim body))

  -- One span, and the rest behind its closing token, which the loop goes on with.
  abbrev pub with_close : List ℕ → (List ℕ → List ToolCall) → Option ℕ → List ToolCall
  with_close ts again none = []
  with_close ts again (some k) = from_body (decode (take k ts)) ++ again (drop (suc k) ts)

  unfoldable pub extract_from : ℕ → ℕ → ℕ → List ℕ → List ToolCall
  extract_from zero open_id close_id tokens = []
  extract_from (suc fuel) open_id close_id [] = []
  extract_from (suc fuel) open_id close_id (t ∷ ts) =
      let rest = extract_from fuel open_id close_id ts in
      if t == open_id
      then with_close ts (extract_from fuel open_id close_id) (position_of 0 close_id ts)
      else rest

  unfoldable pub extract_tool_calls_from_tokens : List ℕ → ℕ → ℕ → List ToolCall
  extract_tool_calls_from_tokens tokens open_id close_id =
      extract_from (length tokens) open_id close_id tokens

  abbrev with_next_call : (Text → List ToolCall) → Option (Text × Text) → List ToolCall
  with_next_call again none = []
  with_next_call again (some (body, rest)) = from_body (some body) ++ again rest

  unfoldable pub parse_from : ℕ → Text → List ToolCall
  parse_from zero rest = []
  parse_from (suc fuel) rest = with_next_call (parse_from fuel) (next_call rest)

  unfoldable pub parse_tool_calls : Text → List ToolCall
  parse_tool_calls t = parse_from (length t) t

  -- The loop over the bytes from a `{` on: the number of bytes up to the `}` that closes it, or none.
  unfoldable pub close_brace : ℕ → ℕ → Text → Option ℕ
  close_brace i depth [] = none
  close_brace i depth (b ∷ bs) =
      if b == 123
      then close_brace (suc i) (suc depth) bs
      else if b == 125
      then (if depth == 1 then some (suc i) else close_brace (suc i) (depth - 1) bs)
      else close_brace (suc i) depth bs

  abbrev known : Option ToolCall → List ToolCall
  known none = []
  known (some call) = if is_known call.name then call ∷ [] else []

  abbrev with_brace : Text → (Text → List ToolCall) → Option ℕ → List ToolCall
  with_brace candidate again none = []
  with_brace candidate again (some n) =
      known (parse_call (take n candidate)) ++ again (drop n candidate)

  abbrev from_brace : Text → (Text → List ToolCall) → Option ℕ → List ToolCall
  from_brace t again none = []
  from_brace t again (some start) = with_brace (drop start t) again (close_brace 0 0 (drop start t))

  unfoldable pub raw_from : ℕ → Text → List ToolCall
  raw_from zero t = []
  raw_from (suc fuel) t = from_brace t (raw_from fuel) (find (123 ∷ []) t)

  unfoldable pub parse_raw_tool_call : Text → List ToolCall
  parse_raw_tool_call t = raw_from (length (trim t)) (trim t)
