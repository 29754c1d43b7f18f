-- ===== src/Stream/Blocks.antt =====
-- The blocks that are open in the decode loop of `run_inference` (crates/server/src/handlers.rs), and what each
-- way of opening, filling and closing them does to the protocol's automaton.
use herbert_rs.Prelude.{ℕ, ◌≡◌, refl, sym, ◌∙◌, true, false, some, List, ◌++◌}
use herbert_rs.Prelude.Text.{Text}
use herbert_rs.Stream.{SsePayload, Stream, open_text, close_text, emit_text, emit_call}
use herbert_rs.Stream.Protocol.{Phase, accept_all, accept_all-append, at-itself}

-- The flags of the loop and the open block agree.
pub data Status (s : Stream) : Phase → Type 0 where
  idle : s.text_block_started ≡ false → s.in_think ≡ false → Status s Phase.idle
  text :
      s.text_block_started ≡ true
      → s.in_think ≡ false
      → s.in_tool_call ≡ false
      → Status s Phase.text
  thinking :
      s.text_block_started ≡ false
      → s.in_think ≡ true
      → s.in_tool_call ≡ false
      → Status s Phase.thinking

abbrev pub Runs : Stream → Phase → Type 0
Runs s phase = accept_all (0, Phase.idle) s.events ≡ some (s.current_block_index, phase)

-- The events so far are accepted, in a phase that agrees with the flags.
pub record Tracks (s : Stream) : Type 0 where
  pub phase : Phase
  pub status : Status s phase
  pub runs : Runs s phase

-- More events behind those that are accepted.
pub send_lem :
    (events more : List SsePayload) (n n' : ℕ) (phase phase' : Phase)
    → accept_all (0, Phase.idle) events ≡ some (n, phase)
    → accept_all (n, phase) more ≡ some (n', phase')
    → accept_all (0, Phase.idle) (events ++ more) ≡ some (n', phase')
send_lem events more n n' phase phase' runs next =
    accept_all-append (0, Phase.idle) (n, phase) events more runs ∙ next

pub clash : true ≡ false → ⊥
clash e = cc

-- A text block is open behind `open_text`, when no block of another kind was.
pub open_text_lem :
    (s : Stream) (phase : Phase)
    → Status s phase
    → Runs s phase
    → s.in_think ≡ false
    → s.in_tool_call ≡ false
    → (Status (open_text s) Phase.text) × Runs (open_text s) Phase.text
unfolding open_text
open_text_lem s phase (Status.idle no_text no_think) runs outside no_call = rw no_text (
  Status.text refl outside no_call,
  send_lem s.events _ s.current_block_index _ Phase.idle Phase.text runs
      (rw (at-itself s.current_block_index) refl),
)
open_text_lem s phase (Status.text is_open no_think not_called) runs outside no_call =
    rw is_open (Status.text refl outside no_call, runs)
open_text_lem s phase (Status.thinking no_text inside not_called) runs outside no_call =
    absurd (clash (sym inside ∙ outside))

-- No text block is open behind `close_text`, and nothing else is if nothing else was.
pub close_text_lem :
    (s : Stream) (phase : Phase)
    → Status s phase
    → Runs s phase
    → s.in_think ≡ false
    → ((close_text s).text_block_started ≡ false)
      × ((close_text s).in_think ≡ false)
      × Runs (close_text s) Phase.idle
unfolding close_text
close_text_lem s phase (Status.idle no_text no_think) runs outside =
    rw no_text (refl, outside, runs)
close_text_lem s phase (Status.text is_open no_think not_called) runs outside = rw is_open (
  refl,
  outside,
  send_lem s.events _ s.current_block_index _ Phase.text Phase.idle runs
      (rw (at-itself s.current_block_index) refl),
)
close_text_lem s phase (Status.thinking no_text inside not_called) runs outside =
    absurd (clash (sym inside ∙ outside))

pub emit_text_lem : (s : Stream) (t : Text) → Runs s Phase.text → Runs (emit_text s t) Phase.text
unfolding emit_text
emit_text_lem s t runs =
    send_lem s.events _ s.current_block_index _ Phase.text Phase.text runs
      (rw (at-itself s.current_block_index) refl)

-- A tool call is a block of its own.
pub emit_call_lem :
    (s : Stream) (call : Text × Text) → Runs s Phase.idle → Runs (emit_call s call) Phase.idle
unfolding emit_call
emit_call_lem s (name, arguments) runs =
    send_lem s.events _ s.current_block_index _ Phase.idle Phase.idle runs (
      rw
        (
          at-itself s.current_block_index,
          at-itself s.current_block_index,
          at-itself s.current_block_index,
        )
        refl)

pub emit_text-Status :
    (s : Stream) (t : Text) → Status s Phase.text → Status (emit_text s t) Phase.text
unfolding emit_text
emit_text-Status s t (Status.text a b c) = Status.text a b c

pub emitted :
    (s : Stream) (call : Text × Text)
    → s.text_block_started ≡ false
    → s.in_think ≡ false
    → Status (emit_call s call) Phase.idle
unfolding emit_call
emitted s (name, arguments) no_text no_think = Status.idle no_text no_think

-- In a tool call no block is open.
pub called_idle :
    (s : Stream) (phase : Phase)
    → Status s phase
    → Runs s phase
    → s.in_tool_call ≡ true
    → (s.text_block_started ≡ false) × (s.in_think ≡ false) × Runs s Phase.idle
called_idle s phase (Status.idle no_text no_think) runs called = (no_text, no_think, runs)
called_idle s phase (Status.text is_open no_think not_called) runs called =
    absurd (clash (sym called ∙ not_called))
called_idle s phase (Status.thinking no_text inside not_called) runs called =
    absurd (clash (sym called ∙ not_called))

-- In a think block no other block is open.
pub think_thinking :
    (s : Stream) (phase : Phase)
    → Status s phase
    → Runs s phase
    → s.in_think ≡ true
    → (s.text_block_started ≡ false) × (s.in_tool_call ≡ false) × Runs s Phase.thinking
think_thinking s phase (Status.idle no_text no_think) runs inside =
    absurd (clash (sym inside ∙ no_think))
think_thinking s phase (Status.text is_open no_think not_called) runs inside =
    absurd (clash (sym inside ∙ no_think))
think_thinking s phase (Status.thinking no_text _ not_called) runs inside =
    (no_text, not_called, runs)

-- Without a text block or a think block, none is open.
pub no_block_idle :
    (s : Stream) (phase : Phase)
    → Status s phase
    → Runs s phase
    → s.text_block_started ≡ false
    → s.in_think ≡ false
    → Runs s Phase.idle
no_block_idle s phase (Status.idle _ _) runs closed outside = runs
no_block_idle s phase (Status.text is_open _ _) runs closed outside =
    absurd (clash (sym is_open ∙ closed))
no_block_idle s phase (Status.thinking _ inside _) runs closed outside =
    absurd (clash (sym inside ∙ outside))
