-- ===== src/Agent/Loop/Replies.antt =====
-- What internal/agent/loop.go does with a reply of the model keeps an invariant of the loop.
use nowhere_agent.Base.{
  ◌≡◌, ◌≢◌, refl, sym, ap, subst, String, true, false, List, [], ◌∷◌, ◌&&◌, not, All, arith,
  Option-cases, List-cases, both_branches, inl, inr, reverse,
}
use nowhere_agent.Agent.Types.{Surroundings, Call, RunState, ModelResult, kind_message}
use nowhere_agent.Agent.Emit.{emit_as, read_context}
use nowhere_agent.Agent.Tools.{interaction_gate, fail_all, record_tool_results}
use nowhere_agent.Agent.Tools.Answers.{length-fail_all, length-dispatch}
use nowhere_agent.Agent.Stream.Calls.{ids}
use nowhere_agent.Agent.Stream.{is_unknown}
use nowhere_agent.Agent.Loop.Texts
use nowhere_agent.Agent.Loop.{Config, is_max_tokens, is_end_turn, is_stop_tool_use, run_hooks}
use nowhere_agent.Agent.Loop.Run.{Step, fail_run, reissue, run_batch, keep_reply, cancel_run}
use nowhere_agent.Agent.Loop.Invariant.{
  WellFormed, Kept, Steady, Keeps, Ended, push, run_hooks-K, read_context-K, record_tool_results-K,
}
use nowhere_agent.Agent.Loop.Endings.{
  fail_run-Ended, cancel_run-Ended, suspend-Ended, finish_turn-Ended,
}

module _ (K : List String → RunState → Type 0) (env : Surroundings) (cfg : Config)
    (steady : Steady K env) (after_run-K : All (Keeps K) (reverse cfg.after_run))
    (after_model-K : All (Keeps K) (reverse cfg.after_model)) where
  abbrev Good : Step → Type 0
  Good = Kept K env cfg

  reissue-Good :
      (res : ModelResult) (content reason : String) (c : Call) (cs : List Call) (s : RunState)
      → res.calls ≡ c ∷ cs
      → K (ids (c ∷ cs)) s
      → Good (reissue env cfg res content reason s)
  unfolding reissue
  reissue-Good res content reason c cs s e k =
      rw (reissue, e)
        (steady.emitting [] false _ _ refl
          (record_tool_results-K K env steady c cs _ s (length-fail_all content (c ∷ cs)) k))

  cancel_batch-Ended :
      (res : ModelResult) (c : Call) (cs : List Call) (s : RunState)
      → res.calls ≡ c ∷ cs
      → K (ids (c ∷ cs)) s
      → Ended K env cfg (
          cancel_run env cfg res.usage
            (record_tool_results env res.calls (fail_all Texts.cancelled_call res.calls) s))
  cancel_batch-Ended res c cs s e k = rw e (
      cancel_run-Ended K env cfg steady after_run-K res.usage _
        (record_tool_results-K K env steady c cs _ s (length-fail_all _ (c ∷ cs)) k))

  run_batch-Good :
      (res : ModelResult) (c : Call) (cs : List Call) (s : RunState)
      → res.calls ≡ c ∷ cs
      → K (ids (c ∷ cs)) s
      → Good (run_batch env cfg res s)
  unfolding run_batch
  run_batch-Good res c cs s e k =
      let s' = (read_context env s).1 in
      let k' = read_context-K K env steady (ids (c ∷ cs)) s k in
      let gated = interaction_gate (env.fresh_id s.iteration) cfg.tools cfg.gate_interaction in
      let cut = not (is_end_turn res.stop) && not (is_stop_tool_use res.stop) in
      let again : (content reason : String) → Good (reissue env cfg res content reason s') =
        λ content reason. reissue-Good res content reason c cs s' e k' in
      both_branches Good (read_context env s).0 (cancel_batch-Ended res c cs s' e k') (
        both_branches Good (is_max_tokens res.stop) (again _ _) (
          both_branches Good (is_unknown res.stop) (again _ _) (
            both_branches Good cut (again _ _) (elim (List-cases (gated res.calls)) [
              | inl g ↦
                  rw (g, e)
                    (steady.emitting [] false _ _ refl (
                      record_tool_results-K K env steady c cs _ s'
                        (length-dispatch cfg.tool_wrap cfg.tools cfg.gate_execute (c ∷ cs)) k'))
              | inr (gate, gates, g) ↦ rw g (
                  suspend-Ended K env cfg steady after_run-K res _ s.iteration c cs s' e
                    (λ z. ground (arith, g, ap gated e, z)) k')
            ]))))

  -- Where the run has aborted it ends, its batch answered.
  abort-Ended :
      (res : ModelResult) (e : String) (s : RunState)
      → K (ids res.calls) s
      → Ended K env cfg (
          fail_run env cfg res.usage "error" e (elim res.calls [
            | [] ↦ s
            | c ∷ cs ↦ record_tool_results env (c ∷ cs) (fail_all Texts.aborted_call (c ∷ cs)) s
          ]))
  abort-Ended res e s k = elim (List-cases res.calls) [
    | inl n ↦
        rw n (fail_run-Ended K env cfg steady after_run-K _ _ e s (subst (λ xs. K (ids xs) s) n k))
    | inr (c, cs, n) ↦ rw n (
        fail_run-Ended K env cfg steady after_run-K _ _ e _ (
          record_tool_results-K K env steady c cs _ s (length-fail_all _ (c ∷ cs))
            (subst (λ xs. K (ids xs) s) n k)))
  ]

  pub keep_reply-Good :
      (res : ModelResult) (s : RunState)
      → WellFormed res
      → res.assistant.content ≢ []
      → K [] s
      → Good (keep_reply env cfg res s)
  unfolding keep_reply
  keep_reply-Good res s (w, i) n k =
      let m = kind_message res.assistant res.usage in
      let owed : K (ids res.calls) (push res.assistant s) =
        subst (λ xs. K xs (push res.assistant s)) (sym i) (steady.replying res.assistant s w n k) in
      let sent = (emit_as env true m (push res.assistant s)).1 in
      let hooked = run_hooks (reverse cfg.after_model) sent in
      let k' : K (ids res.calls) hooked.0 =
        run_hooks-K K (reverse cfg.after_model) _ _ after_model-K
          (steady.emitting (ids res.calls) true m _ refl owed) in
      elim (Option-cases hooked.1) [
        | inr (e, a) ↦ rw (keep_reply, a) (abort-Ended res e hooked.0 k')
        | inl a ↦ elim (List-cases res.calls) [
          | inl c ↦
              rw (keep_reply, a, c)
                (finish_turn-Ended K env cfg steady after_run-K res hooked.0
                  (subst (λ xs. K (ids xs) hooked.0) c k'))
          | inr (c, cs, e) ↦
              rw (keep_reply, a, e)
                (run_batch-Good res c cs hooked.0 e (subst (λ xs. K (ids xs) hooked.0) e k'))
        ]
      ]
