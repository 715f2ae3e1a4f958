-- ===== src/Agent/Loop/Iterations.antt =====
-- Every iteration of internal/agent/loop.go keeps an invariant of the loop, and every run ends as it
-- says.
use nowhere_agent.Base.{
  ℕ, zero, suc, ◌≡◌, ◌≢◌, refl, sym, ap, ◌∙◌, subst, String, true, false, List, [], ◌∷◌, ◌++◌, ◌&&◌,
  none, some, ◌⊎◌, All, ltb, arith, Bool-cases, Option-cases, List-cases, both_branches, inl, inr,
  reverse, if◌then◌else◌,
}
use nowhere_agent.Provider.{Block, Message}
use nowhere_agent.Context.Pairing.{ensure_pairing}
use nowhere_agent.Context.Pairing.Contract.{use_ids}
use nowhere_agent.Context.Rounds.{drop_oldest_round, drop_oldest_round_preserving_summary}
use nowhere_agent.Agent.Types.{
  Surroundings, RunState, ModelResult, Attempt, Failure, replied, failed, ModelHandler,
  kind_step_start,
}
use nowhere_agent.Agent.Emit.{emit_as, read_context}
use nowhere_agent.Agent.Stream.Calls.{ids}
use nowhere_agent.Agent.Loop.Texts
use nowhere_agent.Agent.Loop.{
  Config, is_max_tokens, run_hooks, carries, drop_empty_blocks, drop_oldest_round_for_overflow,
  account_for_drop, is_empty, trim_reply, count_usage, is_recoverable_length, new_run, working_view,
}
use nowhere_agent.Agent.Loop.Run.{
  Step, recover, take_reply, attempt, call_and_take, iterate, iterations, run,
}
use nowhere_agent.Agent.Loop.Invariant.{
  WellFormed, Kept, Steady, Keeps, Ended, run_hooks-K, read_context-K,
}
use nowhere_agent.Agent.Loop.Replies.{keep_reply-Good}
use nowhere_agent.Agent.Loop.Endings.{fail_run-Ended, report_cancelled-Ended, cancel_run-Ended}

pub use_ids-drop_empty_blocks : (bs : List Block) → use_ids (drop_empty_blocks bs) ≡ use_ids bs
unfolding drop_empty_blocks carries
use_ids-drop_empty_blocks [] = refl
use_ids-drop_empty_blocks (b ∷ bs) = ground (arith, use_ids-drop_empty_blocks bs)

-- The view that a drop leaves.
abbrev shrunk_view : RunState → List Message
shrunk_view s =
    let (kept, preserved) = drop_oldest_round_preserving_summary s.view in
    if preserved then kept else (drop_oldest_round s.view).0

unchanged-account_for_drop :
    (shrunk : List Message) (s : RunState)
    → ((account_for_drop shrunk s).produced ≡ s.produced)
      × ((account_for_drop shrunk s).frames ≡ s.frames)
unfolding account_for_drop
unchanged-account_for_drop shrunk s = (ground arith, ground arith)

-- A reply with calls has content.
has_content :
    (res : ModelResult)
    → WellFormed res
    → (is_empty res.calls && is_empty res.assistant.content) ≡ false
    → res.assistant.content ≢ []
has_content res w e n = elim (List-cases res.calls) [
  | inl c ↦ ground (arith, e, c, n)
  | inr (c, cs, x) ↦ ground (arith, w.1, ap use_ids n, ap ids x)
]

Attempt-cases :
    (a : Attempt) → ((r : ModelResult) × (a ≡ replied r)) ⊎ ((f : Failure) × (a ≡ failed f))
Attempt-cases (replied r) = inl (r, refl)
Attempt-cases (failed f) = inr (f, refl)

module _ (K : List String → RunState → Type 0) (env : Surroundings) (cfg : Config)
    (steady : Steady K env) (after_run-K : All (Keeps K) (reverse cfg.after_run))
    (after_model-K : All (Keeps K) (reverse cfg.after_model)) where
  abbrev Good : Step → Type 0
  Good = Kept K env cfg

  -- Dropping a round changes neither what is produced nor what is emitted.
  drop-Good : (s s' : RunState) → drop_oldest_round_for_overflow s ≡ some s' → K [] s → K [] s'
  unfolding drop_oldest_round_for_overflow
  drop-Good s s' e k =
      steady.noting [] s s' (ground (arith, e, unchanged-account_for_drop (shrunk_view s) s))
        (ground (arith, e, unchanged-account_for_drop (shrunk_view s) s)) k

  recover-Good : (res : ModelResult) (s : RunState) → K [] s → Good (recover env cfg res s)
  unfolding recover
  recover-Good res s k =
      let given_up =
        fail_run-Ended K env cfg steady after_run-K res.usage "error" Texts.truncated_response s
          k in
      elim (Option-cases (drop_oldest_round_for_overflow s)) [
        | inl e ↦ rw (recover, e) (both_branches Good s.overflow_recovered given_up given_up)
        | inr (s', e) ↦
            let noted =
              steady.noting [] s' (record s' { overflow_recovered = true }) refl refl
                (drop-Good s s' e k) in
            rw (recover, e)
              (both_branches Good s.overflow_recovered given_up
                (steady.emitting [] false _ _ refl (steady.emitting [] false _ _ refl noted)))
      ]

  take_reply-Good :
      (reply : ModelResult) (s : RunState)
      → WellFormed reply
      → K [] s
      → Good (take_reply env cfg reply s)
  unfolding take_reply
  take_reply-Good reply s w k =
      let res = trim_reply reply in
      let counted = count_usage reply.usage s in
      let k' = steady.noting [] s counted refl refl k in
      let w' : WellFormed res =
        (w.0, w.1 ∙ sym (use_ids-drop_empty_blocks reply.assistant.content)) in
      let cut =
        is_empty res.calls
        && is_max_tokens res.stop
        && is_recoverable_length res.usage cfg.max_tokens in
      elim (Bool-cases (is_empty res.calls && is_empty res.assistant.content)) [
        | inl e ↦
            rw (take_reply, e)
              (fail_run-Ended K env cfg steady after_run-K _ _ (Texts.empty_response res.stop)
                counted k')
        | inr e ↦
            rw (take_reply, e)
              (both_branches Good cut (recover-Good res counted k') (
                keep_reply-Good K env cfg steady after_run-K after_model-K res counted w'
                  (has_content res w' e) k'))
      ]

  module _ (call_model : ModelHandler) (before-K : All (Keeps K) cfg.before)
      (attempt-K : (s : RunState) → K [] s → K [] (attempt env cfg call_model s).0)
      (attempt-WellFormed : (s : RunState) (r : ModelResult)
        → K [] s
        → (attempt env cfg call_model s).1 ≡ replied r
        → WellFormed r) where
    call_and_take-Good : (s : RunState) → K [] s → Good (call_and_take env cfg call_model s)
    unfolding call_and_take
    call_and_take-Good s k =
        let s' = (attempt env cfg call_model s).0 in
        let k' = attempt-K s k in
        elim (Attempt-cases (attempt env cfg call_model s).1) [
          | inl (reply, e) ↦
              rw (call_and_take, e) (take_reply-Good reply s' (attempt-WellFormed s reply k e) k')
          | inr (failure, e) ↦
              rw (call_and_take, e)
                (both_branches (Ended K env cfg) (read_context env s').0
                  (cancel_run-Ended K env cfg steady after_run-K none _
                    (read_context-K K env steady [] s' k'))
                  (fail_run-Ended K env cfg steady after_run-K none _ failure.text _
                    (read_context-K K env steady [] s' k')))
        ]

    iterate-Good :
        (base : List Message) (iter : ℕ) (s : RunState)
        → K [] s
        → Good (iterate env cfg call_model base iter s)
    unfolding iterate
    iterate-Good base iter s k =
        let noted = steady.noting [] s (record s { iteration = iter }) refl refl k in
        let read = read_context env (record s { iteration = iter }) in
        let k' = read_context-K K env steady [] _ noted in
        let opened = if ltb 0 iter then (emit_as env false kind_step_start read.1).1 else read.1 in
        let k'' : K [] opened =
          both_branches (K []) (ltb 0 iter)
            (steady.emitting [] false kind_step_start read.1 refl k') k' in
        let viewed = record opened { view = working_view base opened } in
        let hooked = run_hooks cfg.before viewed in
        let k3 : K [] hooked.0 =
          run_hooks-K K cfg.before [] viewed before-K
            (steady.noting [] opened viewed refl refl k'') in
        both_branches Good read.0 (report_cancelled-Ended K env cfg steady after_run-K read.1 k')
          (elim (Option-cases hooked.1) [
            | inr (e, a) ↦
                rw a (fail_run-Ended K env cfg steady after_run-K none "error" e hooked.0 k3)
            | inl a ↦ rw a (call_and_take-Good hooked.0 k3)
          ])

    iterations-Ended :
        (base : List Message) (left iter : ℕ) (s : RunState)
        → K [] s
        → Ended K env cfg (iterations env cfg call_model base left iter s)
    unfolding iterations
    iterations-Ended base zero iter s k =
        fail_run-Ended K env cfg steady after_run-K none "error" _ s k
    iterations-Ended base (suc left) iter s k =
        let step = iterate env cfg call_model base iter s in
        let good = iterate-Good base iter s k in
        elim (Option-cases step.1) [
          | inl e ↦
              rw (iterations, e)
                (iterations-Ended base left (suc iter) step.0
                  (subst (λ o. Good (step.0, o)) e good))
          | inr (x, e) ↦ rw (iterations, e) (subst (λ o. Good (step.0, o)) e good)
        ]

    -- A run ends as the invariant says, if that holds at the start.
    pub run-Ended :
        (history : List Message) → K [] new_run → Ended K env cfg (run env cfg call_model history)
    unfolding run
    run-Ended history k = iterations-Ended (ensure_pairing (history ++ [])) _ 0 new_run k
