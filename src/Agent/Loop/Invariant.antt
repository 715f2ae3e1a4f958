-- ===== src/Agent/Loop/Invariant.antt =====
-- What an invariant of the agent's loop has to stand, internal/agent/loop.go, and what it then says
-- of a run that has ended. The invariant depends on the calls that the conversation still owes an
-- answer.
use nowhere_agent.Base.{
  ℕ, ◌≡◌, ◌≢◌, refl, String, Bool, true, false, List, [], ◌∷◌, ◌++◌, Option, none, some, ◌⊎◌, All,
  length, Option-cases, inl, inr,
}
use nowhere_agent.Provider.{Message, is_assistant}
use nowhere_agent.Context.Pairing.Contract.{use_ids}
use nowhere_agent.Agent.Types.{
  Surroundings, Call, ToolResult, RunState, Frame, ModelResult, HookResult, fine, logged, aborts,
  Hook, Ending, ended_well, ended_cancelled, ended_failed, kind_error, kind_done, kind_cancelled,
}
use nowhere_agent.Agent.Emit.{emit_as, read_context}
use nowhere_agent.Agent.Tools.{
  tool_result_message, interaction_gate, send_results, record_tool_results,
}
use nowhere_agent.Agent.Stream.Calls.{ids}
use nowhere_agent.Agent.Loop.{Config, run_hooks}

abbrev pub terminal_frame : Ending → Frame
terminal_frame ended_well = kind_done
terminal_frame ended_cancelled = kind_cancelled
terminal_frame (ended_failed e) = kind_error e

abbrev pub is_terminal : Frame → Bool
is_terminal frame = elim frame [
  | kind_error e ↦ true
  | kind_done ↦ true
  | kind_cancelled ↦ true
  | _ ↦ false
]

-- A reply of the model is a message of the assistant, and its calls are those in the message.
abbrev pub WellFormed : ModelResult → Type 0
WellFormed r = (is_assistant r.assistant ≡ true) × (ids r.calls ≡ use_ids r.assistant.content)

abbrev pub push : Message → RunState → RunState
push m s = record s { produced = s.produced ++ m ∷ [] }

module _ (K : List String → RunState → Type 0) where
  -- Frames that do not end the run may be emitted, what is neither produced nor emitted may change,
  -- a reply is owed the answers to its calls, and a batch of results gives them.
  pub record Steady (env : Surroundings) : Type 0 where
    pub emitting :
        (owed : List String) (detached : Bool) (frame : Frame) (s : RunState)
        → is_terminal frame ≡ false
        → K owed s
        → K owed (emit_as env detached frame s).1
    pub noting :
        (owed : List String) (s s' : RunState)
        → s'.produced ≡ s.produced
        → s'.frames ≡ s.frames
        → K owed s
        → K owed s'
    pub replying :
        (m : Message) (s : RunState)
        → is_assistant m ≡ true
        → m.content ≢ []
        → K [] s
        → K (use_ids m.content) (push m s)
    pub answering :
        (c : Call) (cs : List Call) (rs : List ToolResult) (s : RunState)
        → length rs ≡ length (c ∷ cs)
        → K (ids (c ∷ cs)) s
        → K [] (push (tool_result_message (c ∷ cs) rs) s)

  -- A hook keeps the invariant.
  abbrev pub Keeps : Hook → Type 0
  Keeps h = (owed : List String) (s : RunState) → K owed s → K owed (h s).0

  -- How a run ends: after its frame nothing comes, and what is owed is owed to an interaction.
  pub record Ended (env : Surroundings) (cfg : Config) (r : RunState × Ending) : Type 0 where
    pub before : RunState
    pub owed : List String
    pub kept : K owed before
    pub produced : r.0.produced ≡ before.produced
    pub detached : Bool
    pub frames :
        r.0.frames ≡ record { frame = terminal_frame r.1; detached = detached } ∷ before.frames
    pub settled :
        (owed ≡ [])
        ⊎ ((i : ℕ) × (cs : List Call) × (interaction_gate
                (env.fresh_id i)
                cfg.tools
                cfg.gate_interaction
                cs
              ≢ [])
            × (owed ≡ ids cs)
            × (r.1 ≡ ended_well))

  -- What an iteration comes to.
  abbrev pub Kept : Surroundings → Config → RunState × Option Ending → Type 0
  Kept env cfg (s, none) = K [] s
  Kept env cfg (s, some e) = Ended env cfg (s, e)

  -- What is left of the hooks after one.
  abbrev rest_of : List Hook → RunState → HookResult → RunState × Option String
  rest_of hs s r = elim r [
    | fine ↦ run_hooks hs s
    | logged ↦ run_hooks hs s
    | aborts e ↦ (s, some e)
  ]

  pub run_hooks-K :
      (hs : List Hook) (owed : List String) (s : RunState)
      → All Keeps hs
      → K owed s
      → K owed (run_hooks hs s).0
  unfolding run_hooks
  run_hooks-K [] owed s h k = k
  run_hooks-K (h ∷ hs) owed s (a, more) k = elim (h s).1 as (λ r. K owed (rest_of hs (h s).0 r).0) [
    | fine ↦ run_hooks-K hs owed _ more (a owed s k)
    | logged ↦ run_hooks-K hs owed _ more (a owed s k)
    | aborts e ↦ a owed s k
  ]

  module _ (env : Surroundings) (steady : Steady env) where
    pub read_context-K :
        (owed : List String) (s : RunState) → K owed s → K owed (read_context env s).1
    unfolding read_context
    read_context-K owed s k = steady.noting owed s _ refl refl k

    pub send_results-K :
        (cs : List Call) (rs : List ToolResult) (owed : List String) (s : RunState)
        → K owed s
        → K owed (send_results env cs rs s)
    unfolding send_results
    send_results-K [] rs owed s k = k
    send_results-K (c ∷ cs) [] owed s k = k
    send_results-K (c ∷ cs) (r ∷ rs) owed s k = elim (Option-cases r.generative_ui) [
      | inl e ↦
          rw (send_results, e) (send_results-K cs rs owed _ (steady.emitting owed true _ s refl k))
      | inr (spec, e) ↦
          rw (send_results, e)
            (send_results-K cs rs owed _
              (steady.emitting owed true _ _ refl (steady.emitting owed true _ s refl k)))
    ]

    pub record_tool_results-K :
        (c : Call) (cs : List Call) (rs : List ToolResult) (s : RunState)
        → length rs ≡ length (c ∷ cs)
        → K (ids (c ∷ cs)) s
        → K [] (record_tool_results env (c ∷ cs) rs s)
    unfolding record_tool_results
    record_tool_results-K c cs rs s e k =
        steady.emitting [] true _ _ refl
          (steady.answering c cs rs _ e (send_results-K (c ∷ cs) rs (ids (c ∷ cs)) s k))
