-- ===== src/Chat.antt =====
-- `run_decode_loop` of crates/cli/src/chat.rs: the tokens of one answer, and what is printed of it.
--
-- Standard output is the text written to it; the messages to standard error and the time are left out.
-- `next` is `decode_next` with the choice of the token from its logits (`Sampler.choose`) and the
-- tracking of the think budget, on a state of any type. An error that `?` returns, a panic and an error of
-- `next` are `none`. A string is the list of the bytes of its UTF-8 encoding.

pub mod Safe
pub mod Settled
pub mod Printed
mod Tests
use herbert_rs.Prelude.{
  ℕ, zero, suc, ◌+◌, ◌-◌, ◌≤◌, min, Bool, true, false, not, ◌&&◌, ◌||◌, Option, none, some, List,
  [], ◌∷◌, ◌++◌, length, take, drop, ltb, leb, ◌==◌, if◌then◌else◌, ◌>>=◌,
}
use herbert_rs.Prelude.Tokens.{tokens_eq}
use herbert_rs.Prelude.Text.{Text, continues, str_from}
use herbert_rs.Repetition.{
  StopReason, eos, im_end, max_tokens, repetition_loop, detect_repetition_loop,
}

pub record ChatConfig : Type 0 where
  pub max_tokens : ℕ
  pub eos_token_id : ℕ
  pub im_end_id : ℕ
  pub skip_special_tokens : Bool
  pub tools_enabled : Bool
  pub tool_call_open_id : Option ℕ
  pub mistral_tool_calls_id : Option ℕ
  pub no_repeat_check : Bool

pub record DecodeResult : Type 0 where
  pub generated_count : ℕ
  pub stop_reason : StopReason
  pub generated_text : Text
  pub all_tokens : List ℕ
  pub printed : Text

-- Nothing but U+FFFD, whose bytes are ef bf bd.
unfoldable pub all_fffd : Text → Bool
all_fffd [] = true
all_fffd (a ∷ []) = false
all_fffd (a ∷ (b ∷ [])) = false
all_fffd (a ∷ (b ∷ (c ∷ rest))) = a == 0xef && b == 0xbf && c == 0xbd && all_fffd rest

-- `s.trim_end_matches('\u{FFFD}').len()`
unfoldable pub safe_len : Text → ℕ
safe_len [] = 0
safe_len (c ∷ cs) = let rest = safe_len cs in if all_fffd (c ∷ cs) then 0 else suc rest

-- `str::is_char_boundary`
unfoldable pub is_char_boundary : Text → ℕ → Bool
is_char_boundary s i = i == 0 || (leb i (length s) && not (continues (drop i s)))

-- `&s[a..b]`
unfoldable pub str_slice : Text → ℕ → ℕ → Option Text
str_slice s a b =
    if leb a b && (is_char_boundary s a && is_char_boundary s b)
    then some (take (b - a) (drop a s))
    else none

-- `x.as_bytes().get(..n) == y.as_bytes().get(..n)`
unfoldable pub same_start : Text → Text → ℕ → Bool
same_start x y n =
    if leb n (length x)
    then leb n (length y) && tokens_eq (take n x) (take n y)
    else ltb (length y) n

-- The number of bytes in which both begin alike.
unfoldable pub common : Text → Text → ℕ
common [] ys = 0
common (x ∷ xs) [] = 0
common (x ∷ xs) (y ∷ ys) = let rest = common xs ys in if x == y then suc rest else 0

-- `while start > 0 && !s.is_char_boundary(start) { start -= 1 }`
unfoldable pub walk_back : Text → ℕ → ℕ
walk_back s zero = 0
walk_back s (suc start) =
    let back = walk_back s start in if is_char_boundary s (suc start) then suc start else back

-- The local variables that concern printing.
pub record Printer : Type 0 where
  pub stdout : Text
  pub muted : Bool
  pub printed_len : ℕ
  pub prev_full : Text

abbrev pub print : Printer → Text → Printer
print p t = record p { stdout = p.stdout ++ t }

unfoldable pub print_from : Printer → Text → ℕ
print_from p full =
    if is_char_boundary full p.printed_len && same_start full p.prev_full p.printed_len
    then p.printed_len
    else walk_back full (min (common p.prev_full full) p.printed_len)

-- The new text is printed, up to what may yet change.
unfoldable pub show_new : Printer → Text → Option Printer
show_new p full =
    if ltb (print_from p full) (safe_len full)
    then (str_slice full (print_from p full) (safe_len full) >>= λ t.
        some (record p { stdout = p.stdout ++ t; printed_len = safe_len full }))
    else some (record p { printed_len = safe_len full })

unfoldable pub show_text : Printer → Text → Option Printer
show_text p full =
    (if p.muted then some p else show_new p full) >>= λ q. some (record q { prev_full = full })

-- What was held back is printed at the end.
unfoldable pub flush : Printer → Option Printer
flush p =
    if not p.muted && ltb p.printed_len (length p.prev_full)
    then (str_from p.prev_full p.printed_len >>= λ t. some (print p t))
    else some p

abbrev pub is_id : Option ℕ → ℕ → Bool
is_id none token = false
is_id (some id) token = id == token

unfoldable pub opens_call : ChatConfig → ℕ → Bool
opens_call cfg token =
    cfg.tools_enabled
    && (is_id cfg.tool_call_open_id token || is_id cfg.mistral_tool_calls_id token)

abbrev pub text_or_empty : Option Text → Text
text_or_empty none = []
text_or_empty (some t) = t

abbrev pub is_found : Option ℕ → Bool
is_found none = false
is_found (some n) = true

module _ (cfg : ChatConfig) (decode : List ℕ → Bool → Option Text) where
  unfoldable pub result : Printer → List ℕ → StopReason → DecodeResult
  result p all_tokens reason = record {
    generated_count = length all_tokens;
    stop_reason = reason;
    generated_text = text_or_empty (decode all_tokens false);
    all_tokens = all_tokens;
    printed = p.stdout;
  }

  -- The tests behind a token.
  unfoldable pub stops : ℕ → List ℕ → Option StopReason
  stops token all_tokens =
      if token == cfg.eos_token_id
      then some eos
      else if token == cfg.im_end_id
      then some im_end
      else if not cfg.no_repeat_check && is_found (detect_repetition_loop all_tokens)
      then some repetition_loop
      else none

  abbrev pub end_with : Printer → List ℕ → StopReason → Option DecodeResult
  end_with p all_tokens reason = flush p >>= λ q. some (result q all_tokens reason)

  -- The answer ends, or the loop goes on.
  abbrev pub end_or :
      Option StopReason → Printer → List ℕ → Option DecodeResult → Option DecodeResult
  end_or none p all_tokens rest = rest
  end_or (some reason) p all_tokens rest = end_with p all_tokens reason

  module _ {G : Type 0} (next : G → ℕ → Option (G × ℕ)) where
    -- The loop, by the rounds that are left.
    unfoldable pub rounds : ℕ → G → ℕ → List ℕ → Printer → Option DecodeResult
    rounds zero g current all_tokens p = end_with p all_tokens max_tokens
    rounds (suc n) g current all_tokens p = do
      (g', token) ← next g current
      full ← decode (all_tokens ++ (token ∷ [])) cfg.skip_special_tokens
      q ← show_text (record p { muted = p.muted || opens_call cfg token }) full
      end_or (stops token (all_tokens ++ (token ∷ []))) q (all_tokens ++ (token ∷ []))
          (rounds n g' token (all_tokens ++ (token ∷ [])) q)

    -- The first token.
    unfoldable pub first_shown : ℕ → Text → Option Printer
    first_shown first full =
        if opens_call cfg first
        then some (record { stdout = []; muted = true; printed_len = 0; prev_full = full })
        else (str_slice full 0 (safe_len full) >>= λ t.
            some
              (record { stdout = t; muted = false; printed_len = safe_len full; prev_full = full }))

    unfoldable pub first_stop : ℕ → Option StopReason
    first_stop first =
        if first == cfg.eos_token_id
        then some eos
        else if first == cfg.im_end_id
        then some im_end
        else none

    abbrev pub begin :
        Option StopReason → Printer → List ℕ → Option DecodeResult → Option DecodeResult
    begin none p all_tokens rest = rest
    begin (some reason) p all_tokens rest = some (result p all_tokens reason)

    unfoldable pub run_decode_loop : G → ℕ → Option DecodeResult
    run_decode_loop g first = do
      full ← decode (first ∷ []) cfg.skip_special_tokens
      p ← first_shown first full
      begin (first_stop first) p (first ∷ []) (rounds (cfg.max_tokens - 1) g first (first ∷ []) p)
