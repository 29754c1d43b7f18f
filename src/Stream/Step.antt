-- ===== src/Stream/Step.antt =====
-- The steps of the decode loop of `run_inference`
-- (crates/server/src/handlers.rs) against the protocol of the events.
use herbert_rs.Prelude.{
  ℕ, ◌+◌, ◌≡◌, refl, Bool, true, false, ◌&&◌, Option, none, some, [], ◌∷◌, ◌++◌, ◌==◌,
  if◌then◌else◌, Bool-cases, Option-cases, inl, inr,
}
use herbert_rs.Prelude.Tokens.{is_empty}
use herbert_rs.Repetition.{detect_repetition_loop}
use herbert_rs.Stream.{
  content_block_start, content_block_stop, BlockType, Stream, Request, Services, Flow, continues,
  breaks, disconnects, panics, is_id, open_text, fresh, text_token, thinking_token, first_token,
  close_call, end_checks, end_checks_with, on_token, counted, step, find_stop_sequence,
}
use herbert_rs.Stream.Protocol.{Phase, at-itself}
use herbert_rs.Stream.Blocks.{
  Status, Runs, Tracks, send_lem, open_text_lem, close_text_lem, emit_text_lem, emit_call_lem,
  emit_text-Status, emitted, called_idle, think_thinking, no_block_idle,
}

-- What the loop goes on with, or ends with, is tracked.
abbrev pub FlowTracks : Flow → Type 0
FlowTracks (continues s) = Tracks s
FlowTracks (breaks s reason) = Tracks s
FlowTracks (disconnects s) = Tracks s
FlowTracks panics = Unit

-- The model opens no tool call in a think block, and no think block behind an open text block.
pub record Orderly (request : Request) (s : Stream) (token : ℕ) : Type 0 where
  pub call_outside : is_id request.tool_call_open_id token ≡ true → s.in_think ≡ false
  pub think_outside :
      (token == request.think_open_id) ≡ true
      → s.in_tool_call ≡ false
      → s.text_block_started ≡ false

module _ (services : Services) (request : Request) where
  open services use {decode, trim, parse_call, wrap_call, is_closed}
  open request use {
    think_open_id, think_close_id, eos_token_id, im_end_id, tool_call_open_id, tool_call_close_id,
    stop_sequences,
  }

  text_token_lem :
      (s : Stream) (token : ℕ) (phase : Phase)
      → Status s phase
      → Runs s phase
      → s.in_think ≡ false
      → s.in_tool_call ≡ false
      → Tracks (text_token services request s token)
  unfolding text_token
  text_token_lem s token phase st runs outside no_call =
      let (st', runs') = open_text_lem s phase st runs outside no_call in
      elim (Bool-cases (is_empty (decode (token ∷ [])))) [
        | inl nothing ↦ rw nothing (record { phase = Phase.text; status = st'; runs = runs' })
        | inr something ↦ rw something (record {
          phase = Phase.text;
          status = emit_text-Status (open_text s) (decode (token ∷ [])) st';
          runs = emit_text_lem (open_text s) (decode (token ∷ [])) runs';
        })
      ]

  thinking_token_lem :
      (s : Stream) (token : ℕ) (phase : Phase)
      → Status s phase
      → Runs s phase
      → s.in_think ≡ true
      → Tracks (thinking_token services request s token)
  unfolding thinking_token
  thinking_token_lem s token phase st runs inside =
      let (no_text, no_call, runs') = think_thinking s phase st runs inside in
      elim (Bool-cases (is_empty (decode (token ∷ [])))) [
        | inl nothing ↦ rw nothing (record { phase = phase; status = st; runs = runs })
        | inr something ↦ rw something (record {
          phase = Phase.thinking;
          status = Status.thinking no_text inside no_call;
          runs =
              send_lem s.events _ s.current_block_index _ Phase.thinking Phase.thinking runs'
                (rw (at-itself s.current_block_index) refl);
        })
      ]

  close_call_lem :
      (s : Stream) (phase : Phase)
      → Status s phase
      → Runs s phase
      → s.in_tool_call ≡ true
      → Tracks (close_call services request s)
  unfolding close_call
  close_call_lem s phase st runs called =
      let (no_text, no_think, runs') = called_idle s phase st runs called in
      let s' = record s { in_tool_call = false } in
      let json = trim (decode s.tool_call_tokens) in
      elim (Option-cases (parse_call json)) [
        | inl unparsed ↦
            let (st', run') =
              open_text_lem s' Phase.idle (Status.idle no_text no_think) runs' no_think refl in
            rw unparsed (record {
              phase = Phase.text;
              status = emit_text-Status (open_text s') (wrap_call json) st';
              runs = emit_text_lem (open_text s') (wrap_call json) run';
            })
        | inr (call, parsed) ↦ rw parsed (record {
          phase = Phase.idle;
          status = emitted s' call no_text no_think;
          runs = emit_call_lem s' call runs';
        })
      ]

  end_checks_lem : (s : Stream) → Tracks s → FlowTracks (end_checks services request s)
  unfolding end_checks
  end_checks_lem s h =
      all_ways
        (if is_empty stop_sequences
          then some false
          else find_stop_sequence s.generated_text stop_sequences)
        (detect_repetition_loop s.all_tokens)
    where
      all_ways :
          (stop : Option Bool) (repetition : Option ℕ)
          → FlowTracks (end_checks_with services request s stop repetition)
      all_ways none repetition = tt
      all_ways (some true) repetition = h
      all_ways (some false) (some pat_len) = h
      all_ways (some false) none = elim (Bool-cases (is_closed s.output_tokens)) [
        | inl gone ↦ rw gone h
        | inr there ↦ rw there h
      ]

  think_open_lem :
      (s : Stream) (phase : Phase)
      → Status s phase
      → Runs s phase
      → s.in_tool_call ≡ false
      → s.text_block_started ≡ false
      → Tracks (
          if s.in_think then s else record s {
            in_think = true;
            events =
                s.events ++ (content_block_start s.current_block_index BlockType.thinking ∷ []);
          })
  think_open_lem s phase st runs no_call no_text = elim (Bool-cases s.in_think) [
    | inl inside ↦ simp inside (record { phase = phase; status = st; runs = runs })
    | inr outside ↦ simp outside (record {
      phase = Phase.thinking;
      status = Status.thinking no_text refl no_call;
      runs =
          send_lem s.events _ s.current_block_index _ Phase.idle Phase.thinking
            (no_block_idle s phase st runs no_text outside)
            (rw (at-itself s.current_block_index) refl);
    })
  ]

  think_close_lem :
      (s : Stream) (phase : Phase)
      → Status s phase
      → Runs s phase
      → Tracks (
          if s.in_think
          then record s {
            events = s.events ++ (content_block_stop s.current_block_index ∷ []);
            current_block_index = s.current_block_index + 1;
            in_think = false;
          }
          else s)
  think_close_lem s phase st runs = elim (Bool-cases s.in_think) [
    | inl inside ↦
        let (no_text, no_call, runs') = think_thinking s phase st runs inside in
        simp inside (record {
          phase = Phase.idle;
          status = Status.idle no_text refl;
          runs =
              send_lem s.events _ s.current_block_index _ Phase.thinking Phase.idle runs'
                (rw (at-itself s.current_block_index) refl);
        })
    | inr outside ↦ simp outside (record { phase = phase; status = st; runs = runs })
  ]

  plain_lem :
      (s : Stream) (token : ℕ) (phase : Phase)
      → Status s phase
      → Runs s phase
      → s.in_tool_call ≡ false
      → Tracks (
          if s.in_think
          then thinking_token services request s token
          else text_token services request s token)
  plain_lem s token phase st runs no_call = elim (Bool-cases s.in_think) [
    | inl inside ↦ simp inside (thinking_token_lem s token phase st runs inside)
    | inr outside ↦ simp outside (text_token_lem s token phase st runs outside no_call)
  ]

  -- A branch of the body: each side may use its condition.
  if_tracks :
      (b : Bool) (x y : Flow)
      → (b ≡ true → FlowTracks x)
      → (b ≡ false → FlowTracks y)
      → FlowTracks (if b then x else y)
  if_tracks true x y hx hy = hx refl
  if_tracks false x y hx hy = hy refl

  on_token_lem :
      (s : Stream) (token : ℕ)
      → Tracks s
      → Orderly request s token
      → FlowTracks (on_token services request s token)
  unfolding on_token
  on_token_lem s token tracks orderly =
      if_tracks (is_id tool_call_open_id token) _ _
        (λ opens.
          let (no_text, no_think, runs) =
            close_text_lem s tracks.phase tracks.status tracks.runs (orderly.call_outside opens) in
          record { phase = Phase.idle; status = Status.idle no_text no_think; runs = runs })
        (λ other.
          if_tracks (s.in_tool_call && is_id tool_call_close_id token) _ _
            (λ closes.
              close_call_lem s tracks.phase tracks.status tracks.runs
                (both s.in_tool_call _ closes))
            (λ inner.
              if_tracks s.in_tool_call _ _
                (λ called.
                  let (no_text, no_think, runs) =
                    called_idle s tracks.phase tracks.status tracks.runs called in
                  record { phase = Phase.idle; status = Status.idle no_text no_think; runs = runs })
                (λ no_call.
                  if_tracks (token == think_open_id) _ _
                    (λ thinks.
                      think_open_lem s tracks.phase tracks.status tracks.runs no_call
                        (orderly.think_outside thinks no_call))
                    (λ goes_on.
                      if_tracks (token == think_close_id) _ _
                        (λ thought. think_close_lem s tracks.phase tracks.status tracks.runs)
                        (λ plain.
                          end_checks_lem _
                            (plain_lem s token tracks.phase tracks.status tracks.runs no_call))))))
    where
      both : (a b : Bool) → (a && b) ≡ true → a ≡ true
      both true b h = refl
      both false b h = h

  counted_lem : (s : Stream) (token : ℕ) → Tracks s → Tracks (counted s token)
  unfolding counted
  counted_lem s token tracks = record {
    phase = tracks.phase;
    status = same tracks.status;
    runs = tracks.runs;
  }
    where
      same : {phase : Phase} → Status s phase → Status (counted s token) phase
      same (Status.idle a b) = Status.idle a b
      same (Status.text a b c) = Status.text a b c
      same (Status.thinking a b c) = Status.thinking a b c

  pub step_lem :
      (s : Stream) (token : ℕ)
      → Tracks s
      → Orderly request s token
      → FlowTracks (step services request s token)
  unfolding step counted
  step_lem s token tracks orderly =
      if_tracks (token == eos_token_id) _ _ (λ h. counted_lem s token tracks)
        (λ not_eos.
          if_tracks (token == im_end_id) _ _ (λ h. counted_lem s token tracks)
            (λ not_end. on_token_lem (counted s token) token (counted_lem s token tracks) (record {
              call_outside = orderly.call_outside;
              think_outside = orderly.think_outside;
            })))

  pub first_token_lem : (token : ℕ) → FlowTracks (first_token services request token)
  unfolding first_token
  first_token_lem token =
      if_tracks (token == think_open_id) _ _
        (λ thinks. record {
          phase = Phase.thinking;
          status = Status.thinking refl refl refl;
          runs = refl;
        })
        (λ other.
          if_tracks (is_id tool_call_open_id token) _ _
            (λ opens. record { phase = Phase.idle; status = Status.idle refl refl; runs = refl })
            (λ no_call.
              if_tracks (token == eos_token_id) _ _
                (λ h. record { phase = Phase.idle; status = Status.idle refl refl; runs = refl })
                (λ not_eos.
                  if_tracks (token == im_end_id) _ _
                    (λ h. record {
                      phase = Phase.idle;
                      status = Status.idle refl refl;
                      runs = refl;
                    })
                    (λ plain.
                      text_token_lem (fresh token) token Phase.idle (Status.idle refl refl) refl
                        refl refl))))
