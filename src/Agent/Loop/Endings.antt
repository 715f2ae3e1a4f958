-- ===== src/Agent/Loop/Endings.antt =====
-- The ways in which a run of internal/agent/loop.go ends keep an invariant of the loop.
use nowhere_agent.Base.{
  ℕ, ◌≡◌, ◌≢◌, refl, String, true, false, List, [], ◌∷◌, ◌&&◌, not, Option, ◌⊎◌, All, Bool-cases,
  both_branches, inl, inr, reverse,
}
use nowhere_agent.Provider.{Usage}
use nowhere_agent.Agent.Types.{
  Surroundings, Call, Interaction, RunState, ModelResult, Ending, ended_well, kind_step_finish,
  kind_interrupt,
}
use nowhere_agent.Agent.Emit.{emit_as, read_context}
use nowhere_agent.Agent.Tools.{interaction_gate}
use nowhere_agent.Agent.Tools.Answers.{length-fail_all}
use nowhere_agent.Agent.Stream.{is_unknown}
use nowhere_agent.Agent.Stream.Calls.{ids}
use nowhere_agent.Agent.Loop.{Config, genuine_length, is_max_tokens, is_end_turn}
use nowhere_agent.Agent.Loop.Run.{
  run_after_run, fail_run, report_cancelled, cancel_run, succeed_run, send_interrupts, finish_turn,
  suspend,
}
use nowhere_agent.Agent.Loop.Invariant.{
  Steady, Keeps, Ended, run_hooks-K, read_context-K, record_tool_results-K,
}

module _ (K : List String → RunState → Type 0) (env : Surroundings) (cfg : Config)
    (steady : Steady K env) (after_run-K : All (Keeps K) (reverse cfg.after_run)) where
  run_after_run-K :
      (owed : List String) (s : RunState) → K owed s → K owed (run_after_run env cfg s)
  unfolding run_after_run
  run_after_run-K owed s k = run_hooks-K K (reverse cfg.after_run) owed s after_run-K k

  pub fail_run-Ended :
      (usage : Option Usage) (reason e : String) (s : RunState)
      → K [] s
      → Ended K env cfg (fail_run env cfg usage reason e s)
  unfolding fail_run nowhere_agent.Agent.Emit.emit_as
  fail_run-Ended usage reason e s k = record {
    before = run_after_run env cfg (emit_as env false (kind_step_finish reason usage false) s).1;
    owed = [];
    kept =
        run_after_run-K [] _
          (steady.emitting [] false (kind_step_finish reason usage false) s refl k);
    produced = refl;
    detached = false;
    frames = refl;
    settled = inl refl;
  }

  pub report_cancelled-Ended :
      (s : RunState) → K [] s → Ended K env cfg (report_cancelled env cfg s)
  unfolding report_cancelled nowhere_agent.Agent.Emit.emit_as
  report_cancelled-Ended s k = record {
    before = run_after_run env cfg s;
    owed = [];
    kept = run_after_run-K [] s k;
    produced = refl;
    detached = true;
    frames = refl;
    settled = inl refl;
  }

  pub cancel_run-Ended :
      (usage : Option Usage) (s : RunState) → K [] s → Ended K env cfg (cancel_run env cfg usage s)
  unfolding cancel_run
  cancel_run-Ended usage s k = report_cancelled-Ended _ (steady.emitting [] true _ s refl k)

  -- What is owed at the end is owed to an interaction.
  pub succeed_run-Ended :
      (usage : Option Usage) (reason : String) (s : RunState) (owed : List String)
      → (owed ≡ [])
        ⊎ ((i : ℕ) × (cs : List Call) × (interaction_gate
                (env.fresh_id i)
                cfg.tools
                cfg.gate_interaction
                cs
              ≢ [])
            × (owed ≡ ids cs)
            × (ended_well ≡ ended_well))
      → K owed s
      → Ended K env cfg (succeed_run env cfg usage reason s)
  unfolding succeed_run nowhere_agent.Agent.Emit.emit_as
  succeed_run-Ended usage reason s owed w k = record {
    before = run_after_run env cfg (emit_as env false (kind_step_finish reason usage false) s).1;
    owed = owed;
    kept =
        run_after_run-K owed _
          (steady.emitting owed false (kind_step_finish reason usage false) s refl k);
    produced = refl;
    detached = false;
    frames = refl;
    settled = w;
  }

  send_interrupts-K :
      (gates : List Interaction) (owed : List String) (s : RunState)
      → K owed s
      → K owed (send_interrupts env cfg gates s).1
  unfolding send_interrupts
  send_interrupts-K [] owed s k = k
  send_interrupts-K (gate ∷ gates) owed s k =
      let k' = steady.emitting owed false (kind_interrupt gate) s refl k in
      elim (Bool-cases (emit_as env false (kind_interrupt gate) s).0) [
        | inl e ↦ rw (send_interrupts, e) (send_interrupts-K gates owed _ k')
        | inr e ↦ rw (send_interrupts, e) k'
      ]

  pub suspend-Ended :
      (res : ModelResult) (gated : List Interaction) (i : ℕ) (c : Call) (cs : List Call)
      (s : RunState)
      → res.calls ≡ c ∷ cs
      → interaction_gate (env.fresh_id i) cfg.tools cfg.gate_interaction (c ∷ cs) ≢ []
      → K (ids (c ∷ cs)) s
      → Ended K env cfg (suspend env cfg res gated s)
  unfolding suspend
  suspend-Ended res gated i c cs s e g k =
      let k' =
        send_interrupts-K gated (ids (c ∷ cs)) _
          (steady.noting (ids (c ∷ cs)) s (record s { pending = gated }) refl refl k) in
      elim (Bool-cases (send_interrupts env cfg gated (record s { pending = gated })).0) [
        | inl t ↦
            rw (suspend, t)
              (succeed_run-Ended res.usage "tool-calls" _ (ids (c ∷ cs))
                (inr (i, c ∷ cs, g, refl, refl)) k')
        | inr f ↦
            rw (suspend, f, e)
              (fail_run-Ended res.usage "error" env.emit_error _
                (record_tool_results-K K env steady c cs _ _ (length-fail_all _ (c ∷ cs)) k'))
      ]

  abbrev Ends : RunState × Ending → Type 0
  Ends = Ended K env cfg

  pub finish_turn-Ended :
      (res : ModelResult) (s : RunState) → K [] s → Ended K env cfg (finish_turn env cfg res s)
  unfolding finish_turn
  finish_turn-Ended res s k =
      let k' = read_context-K K env steady [] s k in
      let genuine = is_max_tokens res.stop && genuine_length res cfg.max_tokens in
      both_branches Ends (is_max_tokens res.stop && not genuine) (fail_run-Ended _ _ _ s k) (
        both_branches Ends (is_unknown res.stop) (fail_run-Ended _ _ _ s k) (
          both_branches Ends (not (is_end_turn res.stop) && not genuine) (fail_run-Ended _ _ _ s k)
            (both_branches Ends (read_context env s).0 (cancel_run-Ended _ _ k')
              (succeed_run-Ended _ _ _ [] (inl refl) k'))))
