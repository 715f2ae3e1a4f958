-- ===== src/Agent/Stream/Whole.antt =====
-- Induction over the stream from which internal/agent/loop.go assembles a message.
use nowhere_agent.Base.{
  ℕ, ◌≡◌, subst, ◌==◌, String, true, false, List, [], ◌∷◌, ◌++◌, Option, none, some, arith, All,
  length, Bool-cases, Option-cases, inl, inr,
}
use nowhere_agent.Base.Sorting.{sort_by, insert_by}
use nowhere_agent.Provider.{
  Block, event_error, block_start, block_delta, block_stop, message_stop, is_tool_use,
}
use nowhere_agent.Agent.Types.{Surroundings, Call, RunState, Frame, Delivery, event, context_done}
use nowhere_agent.Agent.Emit.{emit_as, read_context}
use nowhere_agent.Agent.Stream.{
  Accumulator, accumulate, Turn, find_open, close_open, Consumed, by_index, finalize, track,
  append_finalized, finalize_all, close, on_event, consume, delta_frame,
}

-- The block, and the call of a finalized tool call.
abbrev pub block_of : Surroundings → Accumulator → Block
block_of env a = (finalize env a).0

abbrev pub call_of : Surroundings → Accumulator → Call
call_of env a =
    let (b, e) = finalize env a in
    record { id = b.tool_use_id; name = b.tool_name; args = b.tool_input; args_error = e }

-- What holds of every block that the stream starts.
abbrev pub AllStarts : (Block → Type 0) → List Delivery → Type 0
AllStarts B [] = Unit
AllStarts B (context_done ∷ ds) = AllStarts B ds
AllStarts B (event (block_start i (some b)) ∷ ds) = B b × AllStarts B ds
AllStarts B (event (block_start i none) ∷ ds) = AllStarts B ds
AllStarts B (event (event_error e) ∷ ds) = AllStarts B ds
AllStarts B (event (block_delta i d s) ∷ ds) = AllStarts B ds
AllStarts B (event (block_stop i) ∷ ds) = AllStarts B ds
AllStarts B (event (message_stop s u) ∷ ds) = AllStarts B ds

module _ (env : Surroundings) (B : Block → Type 0) (P : List Block → List Call → Type 0) where
  -- Every open block was started as the predicate has it, and the message so far is as it has it.
  abbrev pub Sound : Turn → Type 0
  Sound t = All (λ p. B p.1.block) t.opened × P t.content t.calls

  -- A block that is finalized is appended, with its call if it is a tool call.
  abbrev pub Grows : Type 0
  Grows =
      (a : Accumulator) (bs : List Block) (cs : List Call)
      → B a.block
      → P bs cs
      → (is_tool_use (block_of env a) ≡ true
          → P (bs ++ block_of env a ∷ []) (cs ++ call_of env a ∷ []))
        × (is_tool_use (block_of env a) ≡ false → P (bs ++ block_of env a ∷ []) cs)

  abbrev Holds : Option Accumulator → Type 0
  Holds none = Unit
  Holds (some a) = B a.block

  find_open-All :
      (i : ℕ) (more : List (ℕ × Accumulator))
      → All (λ p. B p.1.block) more
      → Holds (find_open i more)
  unfolding find_open
  find_open-All i [] h = tt
  find_open-All i ((j, b) ∷ more) h = elim (Bool-cases (j == i)) [
    | inl t ↦ rw t h.0
    | inr f ↦ rw f (find_open-All i more h.1)
  ]

  close_open-All :
      (i : ℕ) (more : List (ℕ × Accumulator))
      → All (λ p. B p.1.block) more
      → All (λ p. B p.1.block) (close_open i more)
  close_open-All i [] h = h
  close_open-All i ((j, b) ∷ more) h = elim (Bool-cases (j == i)) [
    | inl t ↦ rw t (close_open-All i more h.1)
    | inr f ↦ rw f (h.0, close_open-All i more h.1)
  ]

  insert_by-All :
      (p : ℕ × Accumulator) (more : List (ℕ × Accumulator))
      → B p.1.block
      → All (λ p. B p.1.block) more
      → All (λ p. B p.1.block) (insert_by by_index p more)
  unfolding insert_by
  insert_by-All p [] b h = (b, tt)
  insert_by-All p (q ∷ more) b h = elim (Bool-cases (by_index q p)) [
    | inl t ↦ rw t (h.0, insert_by-All p more b h.1)
    | inr f ↦ rw f (b, h)
  ]

  sort_by-All :
      (more : List (ℕ × Accumulator))
      → All (λ p. B p.1.block) more
      → All (λ p. B p.1.block) (sort_by by_index more)
  unfolding sort_by
  sort_by-All [] h = h
  sort_by-All (p ∷ more) h = insert_by-All p (sort_by by_index more) h.0 (sort_by-All more h.1)

  track-Sound :
      (frame : Frame) (t : Turn) (s : RunState) → Sound t → Sound (track env frame t s).turn
  unfolding track emit_as
  track-Sound frame t s h = elim (Bool-cases (env.accepts (length s.frames))) [
    | inl e ↦ rw e h
    | inr e ↦ rw e h
  ]

  append_finalized-Sound :
      (g : Grows) (a : Accumulator) (t : Turn) (s : RunState)
      → B a.block
      → Sound t
      → Sound (append_finalized env a t s).0
  unfolding append_finalized
  append_finalized-Sound g a t s b h = elim (Bool-cases (is_tool_use (block_of env a))) [
    | inl e ↦ rw e (track-Sound _ _ s (h.0, (g a t.content t.calls b h.1).0 e))
    | inr e ↦ rw e (h.0, (g a t.content t.calls b h.1).1 e)
  ]

  finalize_all-Sound :
      (g : Grows) (more : List (ℕ × Accumulator)) (t : Turn) (s : RunState)
      → All (λ p. B p.1.block) more
      → Sound t
      → Sound (finalize_all env more t s).0
  unfolding finalize_all
  finalize_all-Sound g [] t s b h = h
  finalize_all-Sound g ((i, a) ∷ more) t s b h =
      finalize_all-Sound g more _ _ b.1 (append_finalized-Sound g a t s b.0 h)

  close-Sound : (g : Grows) (t : Turn) (s : RunState) → Sound t → Sound (close env t s).turn
  unfolding close
  close-Sound g t s h = elim (Bool-cases (read_context env s).0) [
    | inl e ↦ rw e h
    | inr e ↦ rw e (finalize_all-Sound g _ _ _ (sort_by-All t.opened h.0) (tt, h.1))
  ]

  block-accumulate :
      (a : Accumulator) (delta sig : String) → (accumulate a delta sig).block ≡ a.block
  unfolding accumulate
  block-accumulate a delta sig = ground arith

  on_delta-Sound :
      (i : ℕ) (delta sig : String) (t : Turn) (s : RunState)
      → Sound t
      → Sound (on_event env (block_delta i delta sig) t s).turn
  unfolding on_event
  on_delta-Sound i delta sig t s h = elim (Option-cases (find_open i t.opened)) [
    | inl e ↦ rw (on_event, e) h
    | inr (a, e) ↦
        let b : B a.block = subst Holds e (find_open-All i t.opened h.0) in
        let b' : B (accumulate a delta sig).block = rw (block-accumulate a delta sig) b in
        elim (Option-cases (delta_frame env a.block delta)) [
          | inl d ↦ rw (on_event, e, d) ((b', close_open-All i t.opened h.0), h.1)
          | inr (frame, d) ↦
              rw (on_event, e, d) (track-Sound frame _ s ((b', close_open-All i t.opened h.0), h.1))
        ]
  ]

  on_start-Sound :
      (i : ℕ) (b : Block) (t : Turn) (s : RunState)
      → B b
      → Sound t
      → Sound (on_event env (block_start i (some b)) t s).turn
  unfolding on_event
  on_start-Sound i b t s k h = elim (Option-cases (find_open i t.opened)) [
    | inr (a, e) ↦ rw (on_event, e) h
    | inl e ↦ elim (Bool-cases (is_tool_use b)) [
      | inl u ↦ rw (on_event, e, u) (track-Sound _ _ s ((k, close_open-All i t.opened h.0), h.1))
      | inr u ↦ rw (on_event, e, u) ((k, close_open-All i t.opened h.0), h.1)
    ]
  ]

  on_stop-Sound :
      (g : Grows) (i : ℕ) (t : Turn) (s : RunState)
      → Sound t
      → Sound (on_event env (block_stop i) t s).turn
  unfolding on_event
  on_stop-Sound g i t s h = elim (Option-cases (find_open i t.opened)) [
    | inl e ↦ rw (on_event, e) h
    | inr (a, e) ↦
        let b : B a.block = subst Holds e (find_open-All i t.opened h.0) in
        let h' = append_finalized-Sound g a t s b h in
        rw (on_event, e) (close_open-All i _ h'.0, h'.1)
  ]

  abbrev after : Consumed → List Delivery → Consumed
  after r ds = elim r.error [ some e ↦ r | none ↦ consume env ds r.turn r.state ]

  -- Where a stream breaks off there is no more to follow.
  go_on :
      (r : Consumed) (ds : List Delivery)
      → Sound r.turn
      → ((t : Turn) (s : RunState) → Sound t → Sound (consume env ds t s).turn)
      → Sound (after r ds).turn
  go_on r ds h k = elim (Option-cases r.error) [
    | inl e ↦ rw e (k r.turn r.state h)
    | inr (x, e) ↦ rw e h
  ]

  pub consume-Sound :
      (g : Grows) (ds : List Delivery) (t : Turn) (s : RunState)
      → AllStarts B ds
      → Sound t
      → Sound (consume env ds t s).turn
  unfolding consume on_event
  consume-Sound g [] t s b h = close-Sound g t s h
  consume-Sound g (context_done ∷ ds) t s b h = h
  consume-Sound g (event (event_error e) ∷ ds) t s b h = h
  consume-Sound g (event (block_start i none) ∷ ds) t s b h = consume-Sound g ds t s b h
  consume-Sound g (event (block_start i (some x)) ∷ ds) t s b h =
      go_on (on_event env (block_start i (some x)) t s) ds (on_start-Sound i x t s b.0 h)
        (λ t' s' h'. consume-Sound g ds t' s' b.1 h')
  consume-Sound g (event (block_delta i d sig) ∷ ds) t s b h =
      go_on (on_event env (block_delta i d sig) t s) ds (on_delta-Sound i d sig t s h)
        (λ t' s' h'. consume-Sound g ds t' s' b h')
  consume-Sound g (event (block_stop i) ∷ ds) t s b h =
      go_on (on_event env (block_stop i) t s) ds (on_stop-Sound g i t s h)
        (λ t' s' h'. consume-Sound g ds t' s' b h')
  consume-Sound g (event (message_stop stop u) ∷ ds) t s b h = consume-Sound g ds _ s b h
