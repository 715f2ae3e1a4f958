-- ===== src/Agent/Stream/Frames.antt =====
-- What consuming a stream does to the state of the run, internal/agent/loop.go: it reads the
-- context, and emits texts, thoughts, arguments and calls.
use nowhere_agent.Base.{
  ℕ, ◌≡◌, refl, String, Bool, true, false, List, [], ◌∷◌, none, some, ◌⊎◌, arith, Bool-cases,
  Option-cases, Sum-cases, inl, inr,
}
use nowhere_agent.Provider.{
  Block, Message, StreamEvent, event_error, block_start, block_delta, block_stop, message_stop,
  is_tool_use,
}
use nowhere_agent.Agent.Types.{
  Surroundings, RunState, Frame, Delivery, event, context_done, kind_text, kind_thinking,
  kind_tool_args, kind_tool_use,
}
use nowhere_agent.Agent.Emit.{emit_as, read_context}
use nowhere_agent.Agent.Stream.{
  Accumulator, Turn, new_turn, find_open, track, finalize, append_finalized, finalize_all, close,
  on_event, consume, delta_frame, real_attempt,
}

-- The frames that a stream gives rise to.
abbrev pub is_content : Frame → Bool
is_content frame = elim frame [
  | kind_text x ↦ true
  | kind_thinking x ↦ true
  | kind_tool_args x y z ↦ true
  | kind_tool_use x y z ↦ true
  | _ ↦ false
]

module _ (env : Surroundings) (K : RunState → Type 0) where
  -- The property stays when a frame of a stream is emitted, and when the context is read.
  pub record Steady : Type 0 where
    pub emitting :
        (frame : Frame) (s : RunState)
        → is_content frame ≡ true
        → K s
        → K (emit_as env false frame s).1
    pub reading : (s : RunState) → K s → K (read_context env s).1

  module _ (k : Steady) where
    track-K :
        (frame : Frame) (t : Turn) (s : RunState)
        → is_content frame ≡ true
        → K s
        → K (track env frame t s).state
    unfolding track
    track-K frame t s c h = elim (Bool-cases (emit_as env false frame s).0) [
      | inl e ↦ rw e (k.emitting frame s c h)
      | inr e ↦ rw e (k.emitting frame s c h)
    ]

    append_finalized-K :
        (a : Accumulator) (t : Turn) (s : RunState) → K s → K (append_finalized env a t s).1
    unfolding append_finalized
    append_finalized-K a t s h = elim (Bool-cases (is_tool_use (finalize env a).0)) [
      | inl e ↦ rw e (track-K _ _ s refl h)
      | inr e ↦ rw e h
    ]

    finalize_all-K :
        (more : List (ℕ × Accumulator)) (t : Turn) (s : RunState)
        → K s
        → K (finalize_all env more t s).1
    unfolding finalize_all
    finalize_all-K [] t s h = h
    finalize_all-K ((i, a) ∷ more) t s h = finalize_all-K more _ _ (append_finalized-K a t s h)

    close-K : (t : Turn) (s : RunState) → K s → K (close env t s).state
    unfolding close
    close-K t s h = elim (Bool-cases (read_context env s).0) [
      | inl e ↦ rw e (k.reading s h)
      | inr e ↦ rw e (finalize_all-K _ _ _ (k.reading s h))
    ]

    is_content-delta_frame :
        (b : Block) (delta : String) (frame : Frame)
        → delta_frame env b delta ≡ some frame
        → is_content frame ≡ true
    unfolding delta_frame
    is_content-delta_frame b delta frame e = ground (arith, e)

    on_event-K : (ev : StreamEvent) (t : Turn) (s : RunState) → K s → K (on_event env ev t s).state
    unfolding on_event
    on_event-K (event_error e) t s h = h
    on_event-K (block_start i none) t s h = h
    on_event-K (block_start i (some b)) t s h = elim (Option-cases (find_open i t.opened)) [
      | inr (a, e) ↦ rw (on_event, e) h
      | inl e ↦ elim (Bool-cases (is_tool_use b)) [
        | inl u ↦ rw (on_event, e, u) (track-K _ _ s refl h)
        | inr u ↦ rw (on_event, e, u) h
      ]
    ]
    on_event-K (block_delta i delta sig) t s h = elim (Option-cases (find_open i t.opened)) [
      | inl e ↦ rw (on_event, e) h
      | inr (a, e) ↦ elim (Option-cases (delta_frame env a.block delta)) [
        | inl d ↦ rw (on_event, e, d) h
        | inr (frame, d) ↦
            rw (on_event, e, d) (track-K frame _ s (is_content-delta_frame a.block delta frame d) h)
      ]
    ]
    on_event-K (block_stop i) t s h = elim (Option-cases (find_open i t.opened)) [
      | inl e ↦ rw (on_event, e) h
      | inr (a, e) ↦ rw (on_event, e) (append_finalized-K a t s h)
    ]
    on_event-K (message_stop stop u) t s h = h

    pub consume-K :
        (ds : List Delivery) (t : Turn) (s : RunState) → K s → K (consume env ds t s).state
    unfolding consume
    consume-K [] t s h = close-K t s h
    consume-K (context_done ∷ ds) t s h = h
    consume-K (event ev ∷ ds) t s h = elim (Option-cases (on_event env ev t s).error) [
      | inl e ↦ rw (consume, e) (consume-K ds _ _ (on_event-K ev t s h))
      | inr (x, e) ↦ rw (consume, e) (on_event-K ev t s h)
    ]

    pub real_attempt-K :
        (stream : RunState → List Message → List Delivery ⊎ String) (s : RunState)
        (msgs : List Message)
        → K s
        → K (real_attempt env stream s msgs).0
    unfolding real_attempt
    real_attempt-K stream s msgs h = elim (Sum-cases (stream s msgs)) [
      | inr (e, p) ↦ rw (real_attempt, p) h
      | inl (ds, p) ↦ elim (Option-cases (consume env ds new_turn s).error) [
        | inl e ↦ rw (real_attempt, p, e) (consume-K ds new_turn s h)
        | inr (x, e) ↦ rw (real_attempt, p, e) (consume-K ds new_turn s h)
      ]
    ]
