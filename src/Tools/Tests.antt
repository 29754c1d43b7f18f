-- ===== src/Tools/Tests.antt =====
-- Runs of the extractors, and the theorem at them.
use herbert_rs.Prelude.{ℕ, ◌≡◌, refl, true, none, some, List, [], ◌∷◌, ◌++◌, arith, if◌then◌else◌}
use herbert_rs.Prelude.Tokens.{is_empty}
use herbert_rs.Prelude.Text.{starts_with, find_from, find}
use herbert_rs.Stream.Finish.{start_tag, end_tag, next_call}
use herbert_rs.Tools.{
  ToolCall, Parsers, position_of, extract_from, extract_tool_calls_from_tokens, parse_from,
  parse_tool_calls, close_brace, raw_from, parse_raw_tool_call,
}
use herbert_rs.Tools.Spans.{Span, render, all_bodies, extract_tool_calls_from_tokens-render}

program : Unit {0}
unfolding starts_with find_from find next_call position_of extract_from
    extract_tool_calls_from_tokens parse_from parse_tool_calls close_brace raw_from
    parse_raw_tool_call
program = tt

-- A text that is not empty is a call of that name.
abbrev parsers : Parsers
parsers = record {
  decode = λ tokens. some tokens;
  trim = λ t. t;
  parse_call = λ t. if is_empty t then none else some (record { name = t; arguments = [] });
  is_known = λ name. true;
}

abbrev call : List ℕ → ToolCall
call body = record { name = body; arguments = [] }

abbrev spans : List Span
spans = (50 ∷ [], 60 ∷ 61 ∷ []) ∷ ([], 62 ∷ []) ∷ []

extracted :
    extract_tool_calls_from_tokens parsers (50 ∷ 5 ∷ 60 ∷ 61 ∷ 6 ∷ 5 ∷ 62 ∷ 6 ∷ 51 ∷ []) 5 6
    ≡ call (60 ∷ 61 ∷ []) ∷ call (62 ∷ []) ∷ []
unfolding program
extracted = refl

from_text : parse_tool_calls parsers (start_tag ++ (65 ∷ end_tag)) ≡ call (65 ∷ []) ∷ []
unfolding program
from_text = refl

-- "{{}}" is one candidate, braces and all.
from_braces :
    parse_raw_tool_call parsers (32 ∷ 123 ∷ 123 ∷ 125 ∷ 125 ∷ [])
    ≡ call (123 ∷ 123 ∷ 125 ∷ 125 ∷ []) ∷ []
unfolding program
from_braces = refl

extract_tool_calls_from_tokens-render_example :
    extract_tool_calls_from_tokens parsers (render 5 6 spans (51 ∷ [])) 5 6
    ≡ all_bodies parsers spans
extract_tool_calls_from_tokens-render_example =
    extract_tool_calls_from_tokens-render parsers 5 6 spans (51 ∷ []) (
      (omega arith, tt),
      (omega arith, (omega arith, tt)),
      (tt, (omega arith, tt), (omega arith, tt)),
    )
