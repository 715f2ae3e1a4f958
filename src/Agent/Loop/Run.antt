-- ===== src/Agent/Loop/Run.antt =====
-- One iteration of the agent's loop and the run, internal/agent/loop.go.
use nowhere_agent.Base.{
  ℕ, zero, suc, String, Bool, true, false, ◌&&◌, ltb, not, List, [], ◌∷◌, ◌++◌, Option, none, some,
  reverse, if◌then◌else◌,
}
use nowhere_agent.Base.Int.{clamp}
use nowhere_agent.Provider.{Message, Usage}
use nowhere_agent.Context.Pairing.{ensure_pairing}
use nowhere_agent.Agent.Types.{
  Surroundings, Interaction, RunState, ModelResult, Attempt, replied, failed, ModelHandler, Ending,
  ended_well, ended_cancelled, ended_failed, kind_message, kind_interrupt, kind_step_finish,
  kind_step_start, kind_overflow_recovery, kind_done, kind_cancelled, kind_error,
}
use nowhere_agent.Agent.Emit.{emit_as, send, send_detached, read_context}
use nowhere_agent.Agent.Tools.{interaction_gate, dispatch, fail_all, record_tool_results}
use nowhere_agent.Agent.Stream.{is_unknown}
use nowhere_agent.Agent.Loop.{
  Config, new_run, run_hooks, chain_model, is_recoverable_length, genuine_length, is_max_tokens,
  is_end_turn, is_stop_tool_use, is_empty, count_usage, trim_reply, drop_oldest_round_for_overflow,
  working_view,
}
use nowhere_agent.Agent.Loop.Texts

-- What an iteration comes to: the state, and how the run ended if it did.
abbrev pub Step : Type 0
Step = RunState × Option Ending

module _ (env : Surroundings) (cfg : Config) where
  -- `runAfterRun`
  unfoldable pub run_after_run : RunState → RunState
  run_after_run s = (run_hooks (reverse cfg.after_run) s).0

  unfoldable pub fail_run : Option Usage → String → String → RunState → RunState × Ending
  fail_run usage reason e s = (
    send env (kind_error e) (run_after_run (send env (kind_step_finish reason usage false) s)),
    ended_failed e,
  )

  -- The end of a cancelled run whose step, if one is open, is closed.
  unfoldable pub report_cancelled : RunState → RunState × Ending
  report_cancelled s = (send_detached env kind_cancelled (run_after_run s), ended_cancelled)

  unfoldable pub cancel_run : Option Usage → RunState → RunState × Ending
  cancel_run usage s = report_cancelled (send_detached env (kind_step_finish "other" usage false) s)

  unfoldable pub succeed_run : Option Usage → String → RunState → RunState × Ending
  succeed_run usage reason s = (
    send env kind_done (run_after_run (send env (kind_step_finish reason usage false) s)),
    ended_well,
  )

  abbrev pub ends : RunState × Ending → Step
  ends (s, e) = (s, some e)

  -- A batch is answered without being executed, and the run goes on.
  unfoldable pub reissue : ModelResult → String → String → RunState → Step
  reissue res content reason s = (
    send env (kind_step_finish reason res.usage true)
        (record_tool_results env res.calls (fail_all content res.calls) s),
    none,
  )

  -- The interrupt frames of a gated batch: whether they were all taken.
  unfoldable pub send_interrupts : List Interaction → RunState → Bool × RunState
  send_interrupts [] s = (true, s)
  send_interrupts (gate ∷ gates) s =
      let (taken, s') = emit_as env false (kind_interrupt gate) s in
      let rest = send_interrupts gates s' in if taken then rest else (false, s')

  -- A reply without calls: the turn is final.
  unfoldable pub finish_turn : ModelResult → RunState → RunState × Ending
  finish_turn res s =
      let genuine = is_max_tokens res.stop && genuine_length res cfg.max_tokens in
      if is_max_tokens res.stop && not genuine
      then fail_run res.usage "length" Texts.truncated_response s
      else if is_unknown res.stop
      then fail_run res.usage "error" Texts.no_finish_reason s
      else if not (is_end_turn res.stop) && not genuine
      then fail_run res.usage "error" (Texts.ended_early res.stop) s
      else (let (cancelled, s') = read_context env s in
          if cancelled then cancel_run res.usage s' else succeed_run res.usage "stop" s')

  -- A batch some of whose calls wait for the client.
  unfoldable pub suspend : ModelResult → List Interaction → RunState → RunState × Ending
  suspend res gated s =
      let (taken, s') = send_interrupts gated (record s { pending = gated }) in
      if taken
      then succeed_run res.usage "tool-calls" s'
      else fail_run res.usage "error" env.emit_error
          (record_tool_results env res.calls (fail_all Texts.interrupt_failed_call res.calls) s')

  -- A reply with calls.
  unfoldable pub run_batch : ModelResult → RunState → Step
  run_batch res s =
      let (cancelled, s') = read_context env s in
      let gated =
        interaction_gate (env.fresh_id s.iteration) cfg.tools cfg.gate_interaction res.calls in
      if cancelled
      then ends (
          cancel_run res.usage
            (record_tool_results env res.calls (fail_all Texts.cancelled_call res.calls) s'))
      else if is_max_tokens res.stop
      then reissue res (Texts.truncated_call env.decimal cfg.max_tokens) "length" s'
      else if is_unknown res.stop
      then reissue res Texts.unknown_stop_call "error" s'
      else if not (is_end_turn res.stop) && not (is_stop_tool_use res.stop)
      then reissue res (Texts.early_stop_call res.stop) "error" s'
      else elim gated [
        | [] ↦ (
          send env (kind_step_finish "tool-calls" res.usage true) (
              record_tool_results env res.calls
                (dispatch cfg.tool_wrap cfg.tools cfg.gate_execute res.calls) s'),
          none,
        )
        | gate ∷ gates ↦ ends (suspend res (gate ∷ gates) s')
      ]

  -- The reply is produced, and the hooks after it run.
  unfoldable pub keep_reply : ModelResult → RunState → Step
  keep_reply res s =
      let produced : RunState = record s { produced = s.produced ++ res.assistant ∷ [] } in
      let (s', aborted) =
        run_hooks (reverse cfg.after_model)
          (send_detached env (kind_message res.assistant res.usage) produced) in
      elim aborted [
        | some e ↦ ends (
            fail_run res.usage "error" e (elim res.calls [
              | [] ↦ s'
              | c ∷ cs ↦ record_tool_results env (c ∷ cs) (fail_all Texts.aborted_call (c ∷ cs)) s'
            ]))
        | none ↦ elim res.calls [ [] ↦ ends (finish_turn res s') | c ∷ cs ↦ run_batch res s' ]
      ]

  -- A reply that was cut off by a lack of context; it is thrown away.
  unfoldable pub recover : ModelResult → RunState → Step
  recover res s =
      let given_up = fail_run res.usage "error" Texts.truncated_response s in
      if s.overflow_recovered then ends given_up else elim (drop_oldest_round_for_overflow s) [
        | none ↦ ends given_up
        | some s' ↦ (
          send env (kind_step_finish "length" res.usage true) (
              send env (kind_overflow_recovery res.usage)
                (record s' { overflow_recovered = true })),
          none,
        )
      ]

  -- A reply of the model.
  unfoldable pub take_reply : ModelResult → RunState → Step
  take_reply reply s =
      let counted = count_usage reply.usage s in
      let res = trim_reply reply in
      if is_empty res.calls && is_empty res.assistant.content
      then ends (fail_run res.usage "error" (Texts.empty_response res.stop) counted)
      else if is_empty res.calls
          && is_max_tokens res.stop
          && is_recoverable_length res.usage cfg.max_tokens
      then recover res counted
      else keep_reply res counted

  module _ (call_model : ModelHandler) where
    -- `attempt`; the request's messages are a copy of the view.
    unfoldable pub attempt : RunState → RunState × Attempt
    attempt s = chain_model cfg.model_wrap call_model s s.view

    unfoldable pub call_and_take : RunState → Step
    call_and_take s =
        let (s', answer) = attempt s in
        elim answer [
          | replied reply ↦ take_reply reply s'
          | failed failure ↦
              let (cancelled, s'') = read_context env s' in
              ends
                (if cancelled then cancel_run none s'' else fail_run none "error" failure.text s'')
        ]

    -- The body of the loop in `Run`.
    unfoldable pub iterate : List Message → ℕ → RunState → Step
    iterate base iter s =
        let (cancelled, s') = read_context env (record s { iteration = iter }) in
        let opened = if ltb 0 iter then send env kind_step_start s' else s' in
        let (s'', aborted) =
          run_hooks cfg.before (record opened { view = working_view base opened }) in
        if cancelled
        then ends (report_cancelled s')
        else elim aborted [ some e ↦ ends (fail_run none "error" e s'') | none ↦ call_and_take s'' ]

    -- The loop, with `left` iterations to go.
    unfoldable pub iterations : List Message → ℕ → ℕ → RunState → RunState × Ending
    iterations base zero iter s =
        fail_run none "error" (Texts.max_iterations_exceeded env.decimal cfg.max_iterations) s
    iterations base (suc left) iter s =
        let (s', ended) = iterate base iter s in
        elim ended [ some e ↦ (s', e) | none ↦ iterations base left (suc iter) s' ]

    unfoldable pub run : List Message → RunState × Ending
    run history = iterations (ensure_pairing (history ++ [])) (clamp cfg.max_iterations) 0 new_run
