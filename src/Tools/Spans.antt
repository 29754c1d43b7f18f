-- ===== src/Tools/Spans.antt =====
-- `extract_tool_calls_from_tokens` (crates/cli/src/tools/parsing.rs) on output that is made up of spans.
use herbert_rs.Prelude.{
  ℕ, zero, suc, ◌+◌, ◌≤◌, ◌≡◌, ◌≢◌, refl, ap, ap₂, ◌∙◌, false, some, List, [], ◌∷◌, ◌++◌, length,
  take, drop, All, arith, ◌==◌, ==_refl, length-append, take-append, drop-append-add,
}
use herbert_rs.Tools.{
  ToolCall, Parsers, position_of, from_body, extract_from, extract_tool_calls_from_tokens,
}

-- Other tokens, and the body of a span behind them.
abbrev pub Span : Type 0
Span = List ℕ × List ℕ

abbrev pub render : ℕ → ℕ → List Span → List ℕ → List ℕ
render open_id close_id [] last = last
render open_id close_id ((plain, body) ∷ spans) last =
    plain ++ (open_id ∷ (body ++ (close_id ∷ render open_id close_id spans last)))

abbrev pub Without : ℕ → List ℕ → Type 0
Without id = All (λ t. t ≢ id)

-- No opening token outside of the spans, no closing token within.
abbrev pub IsClean : ℕ → ℕ → List Span → List ℕ → Type 0
IsClean open_id close_id [] last = Without open_id last
IsClean open_id close_id ((plain, body) ∷ spans) last =
    Without open_id plain × Without close_id body × IsClean open_id close_id spans last

position_of-append :
    (i id : ℕ) (body rest : List ℕ)
    → Without id body
    → position_of i id (body ++ (id ∷ rest)) ≡ some (i + length body)
unfolding position_of
position_of-append i id [] rest h = rw (==_refl id) (ap some (omega arith))
position_of-append i id (t ∷ body) rest h =
    rw (other) (position_of-append (suc i) id body rest h.1 ∙ ap some (omega arith))
  where
    other : (t == id) ≡ false
    other = ground (arith, h.0)

module _ (parsers : Parsers) where
  open parsers use {decode}

  abbrev pub all_bodies : List Span → List ToolCall
  all_bodies [] = []
  all_bodies ((plain, body) ∷ spans) = from_body parsers (decode body) ++ all_bodies spans

  -- The rounds of the loop.
  extract_other :
      (t open_id close_id : ℕ) (ts : List ℕ) (fuel : ℕ)
      → t ≢ open_id
      → extract_from parsers (suc fuel) open_id close_id (t ∷ ts)
        ≡ extract_from parsers fuel open_id close_id ts
  unfolding extract_from
  extract_other t open_id close_id ts fuel h = rw (other) refl
    where
      other : (t == open_id) ≡ false
      other = ground arith

  extract_none :
      (open_id close_id : ℕ) (ts : List ℕ) → extract_from parsers zero open_id close_id ts ≡ []
  unfolding extract_from
  extract_none open_id close_id ts = refl

  extract_empty :
      (open_id close_id fuel : ℕ) → extract_from parsers (suc fuel) open_id close_id [] ≡ []
  unfolding extract_from
  extract_empty open_id close_id fuel = refl

  extract_span :
      (open_id close_id : ℕ) (body rest : List ℕ) (fuel : ℕ) (calls : List ToolCall)
      → length (open_id ∷ (body ++ (close_id ∷ rest))) ≤ fuel
      → Without close_id body
      → ((f : ℕ) → length rest ≤ f → extract_from parsers f open_id close_id rest ≡ calls)
      → extract_from parsers fuel open_id close_id (open_id ∷ (body ++ (close_id ∷ rest)))
        ≡ from_body parsers (decode body) ++ calls
  unfolding extract_from
  extract_span open_id close_id body rest zero calls room h again = absurd (omega arith)
  extract_span open_id close_id body rest (suc fuel) calls room h again =
      rw (==_refl open_id, position_of-append 0 close_id body rest h)
        (ap₂ (λ b r. from_body parsers (decode b) ++ extract_from parsers fuel open_id close_id r)
            the_body the_rest
          ∙ ap (◌++◌ (from_body parsers (decode body)))
              (again fuel (omega (arith, length-append body (close_id ∷ rest)))))
    where
      zero-add : (n : ℕ) → 0 + n ≡ n
      zero-add n = omega arith

      the_body : take (0 + length body) (body ++ (close_id ∷ rest)) ≡ body
      the_body =
          ap (λ n. take n (body ++ (close_id ∷ rest))) (zero-add (length body))
          ∙ take-append body (close_id ∷ rest)

      the_rest : drop (suc (0 + length body)) (body ++ (close_id ∷ rest)) ≡ rest
      the_rest =
          ap (λ n. drop n (body ++ (close_id ∷ rest))) (one_more (length body))
          ∙ drop-append-add body (close_id ∷ rest) 1
        where
          one_more : (n : ℕ) → suc (0 + n) ≡ n + 1
          one_more n = omega arith

  extract_plain :
      (open_id close_id : ℕ) (plain rest : List ℕ) (fuel : ℕ)
      → length (plain ++ rest) ≤ fuel
      → Without open_id plain
      → (left : ℕ) × (length rest ≤ left)
        × (extract_from parsers fuel open_id close_id (plain ++ rest)
            ≡ extract_from parsers left open_id close_id rest)
  extract_plain open_id close_id [] rest fuel room h = (fuel, room, refl)
  extract_plain open_id close_id (t ∷ plain) rest zero room h = absurd (omega arith)
  extract_plain open_id close_id (t ∷ plain) rest (suc fuel) room h =
      let (left, enough, same) = extract_plain open_id close_id plain rest fuel (omega arith) h.1 in
      (left, enough, extract_other t open_id close_id (plain ++ rest) fuel h.0 ∙ same)

  extract_nothing :
      (open_id close_id : ℕ) (plain : List ℕ) (fuel : ℕ)
      → Without open_id plain
      → extract_from parsers fuel open_id close_id plain ≡ []
  extract_nothing open_id close_id plain zero h = extract_none open_id close_id plain
  extract_nothing open_id close_id [] (suc fuel) h = extract_empty open_id close_id fuel
  extract_nothing open_id close_id (t ∷ plain) (suc fuel) h =
      extract_other t open_id close_id plain fuel h.0
      ∙ extract_nothing open_id close_id plain fuel h.1

  extract_spans :
      (open_id close_id : ℕ) (spans : List Span) (last : List ℕ) (fuel : ℕ)
      → length (render open_id close_id spans last) ≤ fuel
      → IsClean open_id close_id spans last
      → extract_from parsers fuel open_id close_id (render open_id close_id spans last)
        ≡ all_bodies spans
  extract_spans open_id close_id [] last fuel room clean =
      extract_nothing open_id close_id last fuel clean
  extract_spans open_id close_id ((plain, body) ∷ spans) last fuel room clean =
      let rest = render open_id close_id spans last in
      let (left, enough, same) =
        extract_plain open_id close_id plain (open_id ∷ (body ++ (close_id ∷ rest))) fuel room
          clean.0 in
      same
      ∙ extract_span open_id close_id body rest left (all_bodies spans) enough clean.1
          (λ f r. extract_spans open_id close_id spans last f r clean.2)

  -- The calls of spans between other tokens are all extracted, in order and from their bodies: if no opening token
  -- stands outside of the spans and no closing token within, whatever the parsers do.
  pub extract_tool_calls_from_tokens-render :
      (open_id close_id : ℕ) (spans : List Span) (last : List ℕ)
      → IsClean open_id close_id spans last
      → extract_tool_calls_from_tokens parsers (render open_id close_id spans last) open_id close_id
        ≡ all_bodies spans
  unfolding extract_tool_calls_from_tokens
  extract_tool_calls_from_tokens-render open_id close_id spans last clean =
      extract_spans open_id close_id spans last (length (render open_id close_id spans last))
        (omega arith) clean
