-- ===== src/Stream/Run.antt =====
-- The whole decode loop of `run_inference` (crates/server/src/handlers.rs) against the protocol of the events.
use herbert_rs.Prelude.{ℕ, zero, suc, ◌-◌, ◌≡◌, refl, Option, some, Option-cases, inl, inr}
use herbert_rs.Stream.{
  Stream, Request, Services, Flow, continues, breaks, disconnects, panics, Outcome, finished,
  disconnected, failed, go_on, first_token, step, decode_loop, decode_all,
}
use herbert_rs.Stream.Blocks.{Tracks}
use herbert_rs.Stream.Step.{FlowTracks, Orderly, step_lem, first_token_lem}

-- A property of the stream that a loop ends with.
abbrev pub Ends : (Stream → Type 0) → Outcome → Type 0
Ends P (finished s reason) = P s
Ends P (disconnected s) = P s
Ends P failed = Unit

module _ (services : Services) (request : Request) {G : Type 0}
    (next : G → ℕ → Option (G × ℕ)) where
  -- Every token of `n` rounds is orderly where it comes.
  abbrev pub OrderlyRun : ℕ → G → ℕ → Stream → Type 0
  OrderlyRun zero g current s = Unit
  OrderlyRun (suc n) g current s =
      (g' : G) (token : ℕ)
      → next g current ≡ some (g', token)
      → Orderly request s token
        × ((s' : Stream) → step services request s token ≡ continues s' → OrderlyRun n g' token s')

  -- The same from the first token on.
  abbrev pub OrderlyAll : G → ℕ → Type 0
  OrderlyAll g token =
      (s : Stream)
      → first_token services request token ≡ continues s
      → OrderlyRun (request.max_tokens - 1) g token s

  decode_loop-Tracks :
      (n : ℕ) (g : G) (current : ℕ) (s : Stream)
      → Tracks s
      → OrderlyRun n g current s
      → Ends Tracks (decode_loop services request next n g current s)
  unfolding decode_loop
  decode_loop-Tracks zero g current s tracks orderly = tracks
  decode_loop-Tracks (suc n) g current s tracks orderly = elim (Option-cases (next g current)) [
    | inl error ↦ rw error tt
    | inr ((g', token), got) ↦ rw got (
        rest g' token (step services request s token)
          (step_lem services request s token tracks (orderly g' token got).0)
          (λ s' e k. decode_loop-Tracks n g' token s' k ((orderly g' token got).1 s' e)) refl)
  ]
    where
      rest :
          (g' : G) (token : ℕ) (flow : Flow)
          → FlowTracks flow
          → ((s' : Stream)
              → step services request s token ≡ continues s'
              → Tracks s'
              → Ends Tracks (decode_loop services request next n g' token s'))
          → step services request s token ≡ flow
          → Ends Tracks (go_on flow (decode_loop services request next n g' token))
      rest g' token (continues s') h again e = again s' e h
      rest g' token (breaks s' reason) h again e = h
      rest g' token (disconnects s') h again e = h
      rest g' token panics h again e = tt

  pub decode_all-Tracks :
      (g : G) (token : ℕ)
      → OrderlyAll g token
      → Ends Tracks (decode_all services request next g token)
  unfolding decode_all
  decode_all-Tracks g token orderly =
      rest (first_token services request token) (first_token_lem services request token) refl
    where
      rest :
          (flow : Flow)
          → FlowTracks flow
          → first_token services request token ≡ flow
          → Ends Tracks
              (go_on flow (decode_loop services request next (request.max_tokens - 1) g token))
      rest (continues s) h e = decode_loop-Tracks (request.max_tokens - 1) g token s h (orderly s e)
      rest (breaks s reason) h e = h
      rest (disconnects s) h e = h
      rest panics h e = tt
