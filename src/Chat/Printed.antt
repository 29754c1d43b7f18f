-- ===== src/Chat/Printed.antt =====
-- `run_decode_loop` of crates/cli/src/chat.rs: what the user has seen by the end of an answer.
use herbert_rs.Prelude.{
  ℕ, zero, suc, ◌+◌, ◌-◌, ◌≤◌, ◌≡◌, refl, ◌⊎◌, inl, inr, ◌≢◌, max, Bool, false, Option, none, some,
  List, [], ◌∷◌, ◌++◌, length, take, length-append, arith,
}
use herbert_rs.Prelude.Text.{Text}
use herbert_rs.Repetition.{StopReason, max_tokens}
use herbert_rs.Chat.{
  ChatConfig, DecodeResult, safe_len, opens_call, result, stops, end_with, end_or, rounds,
  first_stop, begin, run_decode_loop,
}
use herbert_rs.Chat.Settled.{Streams, printer, flush_all, show_next, first_text}

module _ (cfg : ChatConfig) (decode : List ℕ → Bool → Option Text)
    (d : Streams decode cfg.skip_special_tokens) (quiet : (t : ℕ) → opens_call cfg t ≡ false)
    {G : Type 0} (next : G → ℕ → Option (G × ℕ))
    (runs : (g : G) (t : ℕ) → (r : G × ℕ) × (next g t ≡ some r)) where
  open d use {text}

  -- The end of an answer of which all is printed.
  ended :
      (tokens : List ℕ) (reason : StopReason)
      → end_with cfg decode (printer (text tokens)) tokens reason
        ≡ some (
            result cfg decode
              (record (printer (text tokens)) { stdout = text tokens })
              tokens
              reason)
  ended tokens reason = rw (flush_all (text tokens)) refl

  abbrev Whole : ℕ → Option DecodeResult → Type 0
  Whole limit answer =
      (r : DecodeResult) × (answer ≡ some r)
      × (r.printed ≡ text r.all_tokens)
      × (r.generated_count ≡ length r.all_tokens)
      × (length r.all_tokens ≤ limit)

  ended-Whole :
      (tokens : List ℕ) (reason : StopReason) (limit : ℕ)
      → length tokens ≤ limit
      → Whole limit (end_with cfg decode (printer (text tokens)) tokens reason)
  unfolding result
  ended-Whole tokens reason limit le = (_, ended tokens reason, refl, refl, le)

  ends-Whole :
      (o : Option StopReason) (tokens : List ℕ) (limit : ℕ) (rest : Option DecodeResult)
      → length tokens ≤ limit
      → Whole limit rest
      → Whole limit (end_or cfg decode o (printer (text tokens)) tokens rest)
  ends-Whole none tokens limit rest le later = later
  ends-Whole (some reason) tokens limit rest le later = ended-Whole tokens reason limit le

  rounds-Whole :
      (n : ℕ) (g : G) (current : ℕ) (tokens : List ℕ) (limit : ℕ)
      → length tokens + n ≤ limit
      → Whole limit (rounds cfg decode next n g current tokens (printer (text tokens)))
  unfolding rounds
  rounds-Whole zero g current tokens limit le = ended-Whole tokens max_tokens limit (omega arith)
  rounds-Whole (suc n) g current tokens limit le =
      let ((g', token), at) = runs g current in
      let more = tokens ++ (token ∷ []) in
      let long : length more ≡ suc (length tokens) =
        omega (arith, length-append tokens (token ∷ [])) in
      rw
        (
          at,
          d.total more,
          quiet token,
          show_next (text tokens) (text more) (d.longer tokens token) (d.settled tokens token)
              (d.whole tokens token),
        )
        (ends-Whole (stops cfg decode token more) more limit _ (omega arith)
          (rounds-Whole n g' token more limit (omega arith)))

  -- What the answer shows: its whole text, or, if its first token already ends it, the settled part.
  abbrev pub Shown : ℕ → DecodeResult → Type 0
  Shown first r =
      (r.printed ≡ text r.all_tokens)
      ⊎ ((first_stop cfg decode next first ≢ none)
          × (r.all_tokens ≡ first ∷ [])
          × (r.printed ≡ take (safe_len (text (first ∷ []))) (text (first ∷ []))))

  begin-Shown :
      (o : Option StopReason) (g : G) (first : ℕ)
      → first_stop cfg decode next first ≡ o
      → (r : DecodeResult) × (begin cfg decode next o (printer (text (first ∷ []))) (first ∷ []) (
            rounds cfg decode next
              (cfg.max_tokens - 1)
              g
              first
              (first ∷ [])
              (printer (text (first ∷ []))))
          ≡ some r)
        × Shown first r
        × (r.generated_count ≡ length r.all_tokens)
        × (length r.all_tokens ≤ max 1 cfg.max_tokens)
  unfolding result
  begin-Shown none g first e =
      let (r, run, all, counted, few) =
        rounds-Whole (cfg.max_tokens - 1) g first (first ∷ []) (max 1 cfg.max_tokens)
          (omega arith) in
      (r, run, inl all, counted, few)
  begin-Shown (some reason) g first e = (_, refl, inr ((λ h. cc), refl, refl), refl, omega arith)

  -- The user sees the whole answer: with a tokenizer whose text grows but for U+FFFD at its end, tools off
  -- (no token id opens a tool call), and a backend that does not fail, the loop ends without a panic; what
  -- it printed, bit by bit, is the text of all tokens, or the settled part of it if the first token already
  -- ends the answer; and there are as many tokens as it counts, at most `max_tokens`, or the first alone.
  pub run_decode_loop-Shown :
      (g : G) (first : ℕ)
      → (r : DecodeResult) × (run_decode_loop cfg decode next g first ≡ some r)
        × Shown first r
        × (r.generated_count ≡ length r.all_tokens)
        × (length r.all_tokens ≤ max 1 cfg.max_tokens)
  unfolding run_decode_loop
  run_decode_loop-Shown g first =
      rw (d.total (first ∷ []), first_text cfg decode next first (text (first ∷ [])) (quiet first))
        (begin-Shown (first_stop cfg decode next first) g first refl)
