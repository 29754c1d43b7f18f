-- ===== src/Stream/Protocol.antt =====
-- The protocol of the events (crates/server/src/sse.rs) as an automaton: blocks are opened, filled and closed
-- one at a time, and numbered without a gap.
use mathlib.Core.Option.{some-injective}
use herbert_rs.Prelude.{
  ℕ, ◌+◌, ◌≡◌, refl, ap, Option, none, some, List, [], ◌∷◌, ◌++◌, ◌==◌, ==_refl, if◌then◌else◌,
  ◌>>=◌, Option-cases, inl, inr,
}
use herbert_rs.Stream.{
  SsePayload, content_block_start, tool_use_start, thinking_delta, text_delta, input_json_delta,
  content_block_stop, message_delta, message_stop, BlockType,
}

-- Which block is open, if any.
pub data Phase : Type 0 where
  idle text thinking tool after_delta ended : Phase

abbrev started : BlockType → Phase
started BlockType.text = Phase.text
started BlockType.thinking = Phase.thinking

abbrev at : ℕ → ℕ → ℕ × Phase → Option (ℕ × Phase)
at i n next = if i == n then some next else none

-- The number of the next block to close, and the phase, behind one more event.
abbrev pub accept : ℕ × Phase → SsePayload → Option (ℕ × Phase)
accept (n, Phase.idle) (content_block_start i t) = at i n (n, started t)
accept (n, Phase.idle) (tool_use_start i name) = at i n (n, Phase.tool)
accept (n, Phase.idle) (message_delta code tokens) = some (n, Phase.after_delta)
accept (n, Phase.text) (text_delta i t) = at i n (n, Phase.text)
accept (n, Phase.text) (content_block_stop i) = at i n (n + 1, Phase.idle)
accept (n, Phase.thinking) (thinking_delta i t) = at i n (n, Phase.thinking)
accept (n, Phase.thinking) (content_block_stop i) = at i n (n + 1, Phase.idle)
accept (n, Phase.tool) (input_json_delta i t) = at i n (n, Phase.tool)
accept (n, Phase.tool) (content_block_stop i) = at i n (n + 1, Phase.idle)
accept (n, Phase.after_delta) message_stop = some (n, Phase.ended)
accept (n, phase) e = none

abbrev pub accept_all : ℕ × Phase → List SsePayload → Option (ℕ × Phase)
accept_all state [] = some state
accept_all state (e ∷ es) = accept state e >>= λ next. accept_all next es

pub accept_all-append :
    (state next : ℕ × Phase) (es es' : List SsePayload)
    → accept_all state es ≡ some next
    → accept_all state (es ++ es') ≡ accept_all next es'
accept_all-append state next [] es' h = ap (λ s. accept_all s es') (some-injective state next h)
accept_all-append state next (e ∷ es) es' h = elim (Option-cases (accept state e)) [
  | inl refused ↦ absurd (nothing (rw refused at h))
  | inr (mid, run) ↦ rw run (accept_all-append mid next es es' (rw run at h))
]
  where
    nothing : none ≡ some next → ⊥
    nothing e = cc

module _ (n : ℕ) where
  pub at-itself : (next : ℕ × Phase) → at n n next ≡ some next
  at-itself next = rw (==_refl n) refl
