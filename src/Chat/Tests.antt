-- ===== src/Chat/Tests.antt =====
-- An answer whose second token is half a character until the third one comes.
use herbert_rs.Prelude.{
  ℕ, suc, ◌+◌, ◌≤◌, ◌≡◌, refl, ap, Bool, true, false, Option, none, some, List, [], ◌∷◌, ◌++◌,
  length, take, drop, max, ◌==◌, if◌then◌else◌, arith,
}
use herbert_rs.Prelude.Tokens.{tokens_eq}
use herbert_rs.Prelude.Text.{Text, continues, str_from}
use herbert_rs.Repetition.{
  StopReason, block, blocks_repeat, repeats, detect_from, detect_repetition_loop,
}
use herbert_rs.Chat.{
  ChatConfig, DecodeResult, all_fffd, safe_len, is_char_boundary, str_slice, same_start, common,
  walk_back, print_from, show_new, show_text, flush, opens_call, result, stops, rounds, first_shown,
  first_stop, run_decode_loop,
}
use herbert_rs.Chat.Settled.{Streams}
use herbert_rs.Chat.Printed.{Shown, run_decode_loop-Shown}

program : Unit {0}
unfolding tokens_eq str_from block blocks_repeat repeats detect_from detect_repetition_loop all_fffd
    safe_len is_char_boundary str_slice same_start common walk_back print_from show_new show_text
    flush opens_call result stops rounds first_shown first_stop run_decode_loop
program = tt

abbrev letter : ℕ → ℕ
letter t = if t == 1 then 66 else 65

-- Token 1 is half a character, which whatever follows completes.
abbrev text : List ℕ → Text
text [] = []
text (t ∷ []) = if t == 1 then 0xef ∷ 0xbf ∷ 0xbd ∷ [] else 65 ∷ []
text (t ∷ (u ∷ us)) = letter t ∷ text (u ∷ us)

abbrev decode : List ℕ → Bool → Option Text
decode tokens skip = some (text tokens)

letter_settles : (t : ℕ) (rest : Text) → safe_len (letter t ∷ rest) ≡ suc (safe_len rest)
unfolding program
letter_settles t [] = ground arith
letter_settles t (a ∷ []) = ground arith
letter_settles t (a ∷ (b ∷ rest)) = ground arith

-- One more token leaves what is settled.
abbrev Grows : List ℕ → ℕ → Type 0
Grows tokens t =
    (safe_len (text tokens) ≤ length (text (tokens ++ (t ∷ []))))
    × (take (safe_len (text tokens)) (text (tokens ++ (t ∷ [])))
        ≡ take (safe_len (text tokens)) (text tokens))
    × (continues (drop (safe_len (text tokens)) (text (tokens ++ (t ∷ [])))) ≡ false)

text-Grows : (tokens : List ℕ) (t : ℕ) → Grows tokens t
unfolding program
text-Grows [] t = (omega arith, refl, ground arith)
text-Grows (x ∷ []) t = (ground arith, ground arith, ground arith)
text-Grows (x ∷ (u ∷ us)) t =
    let (longer, settled, whole) = text-Grows (u ∷ us) t in
    rw (letter_settles x (text (u ∷ us)))
      (omega (arith, longer), ap (◌∷◌ (letter x)) settled, whole)

abbrev streams : Streams decode true
streams = record {
  text = text;
  total = λ tokens. refl;
  longer = λ tokens t. (text-Grows tokens t).0;
  settled = λ tokens t. (text-Grows tokens t).1;
  whole = λ tokens t. (text-Grows tokens t).2;
}

abbrev cfg : ChatConfig
cfg = record {
  max_tokens = 5;
  eos_token_id = 9;
  im_end_id = 8;
  skip_special_tokens = true;
  tools_enabled = false;
  tool_call_open_id = some 7;
  mistral_tool_calls_id = none;
  no_repeat_check = false;
}

-- The state counts the tokens, and the fourth one ends the answer.
abbrev next_token : ℕ → ℕ → Option (ℕ × ℕ)
next_token g current = some (g + 1, if g == 2 then 9 else 1)

quiet : (t : ℕ) → opens_call cfg t ≡ false
unfolding program
quiet t = refl

printed_whole :
    run_decode_loop cfg decode next_token 0 5
    ≡ some (record {
      generated_count = 4;
      stop_reason = StopReason.eos;
      generated_text = 65 ∷ 66 ∷ 66 ∷ 65 ∷ [];
      all_tokens = 5 ∷ 1 ∷ 1 ∷ 9 ∷ [];
      printed = 65 ∷ 66 ∷ 66 ∷ 65 ∷ [];
    })
unfolding program
printed_whole = refl

run_decode_loop-Shown_example :
    (r : DecodeResult) × (run_decode_loop cfg decode next_token 0 5 ≡ some r)
    × Shown cfg decode streams quiet next_token (λ g t. (_, refl)) 5 r
    × (r.generated_count ≡ length r.all_tokens)
    × (length r.all_tokens ≤ max 1 5)
unfolding program
run_decode_loop-Shown_example =
    run_decode_loop-Shown cfg decode streams quiet next_token (λ g t. (_, refl)) 0 5
