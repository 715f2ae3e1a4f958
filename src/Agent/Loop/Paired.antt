-- ===== src/Agent/Loop/Paired.antt =====
-- Whatever happens in a run of internal/agent/loop.go, what it produces is paired.
use nowhere_agent.Base.{
  ◌≡◌, ◌≢◌, refl, sym, ap, subst, ◌∙◌, ℕ, String, true, List, [], ◌∷◌, ◌++◌, ◌⊎◌, inl, inr, arith,
  count, length,
}
use nowhere_agent.Provider.{Message, is_assistant}
use nowhere_agent.Context.Pairing.Contract.{use_ids}
use nowhere_agent.Context.Pairing.Settled.{Settled, answered_by, owed_after}
use nowhere_agent.Agent.Types.{
  Surroundings, Call, ToolResult, RunState, Delivery, Ending, ended_well,
}
use nowhere_agent.Agent.Tools.{interaction_gate, tool_result_message, result_blocks}
use nowhere_agent.Agent.Tools.Answers.{result_ids-result_blocks}
use nowhere_agent.Agent.Stream.{real_attempt}
use nowhere_agent.Agent.Stream.Calls.{ids}
use nowhere_agent.Agent.Loop.{Config}
use nowhere_agent.Agent.Loop.Run.{run}
use nowhere_agent.Agent.Loop.Invariant.{Steady}
use nowhere_agent.Agent.Loop.Sound.{Friendly, run-Sound}

-- As `Settled`, but for the last message, after which `last` is owed.
abbrev pub Owing : List String → List Message → List String → Type 0
Owing owed [] last = owed ≡ last
Owing owed (m ∷ ms) last =
    (m.content ≢ [])
    × ((id : String) → count id (answered_by m) ≡ count id owed)
    × Owing (owed_after m) ms last

pub Settled-Owing : (owed : List String) (ms : List Message) → Owing owed ms [] → Settled owed ms
Settled-Owing owed [] h = h
Settled-Owing owed (m ∷ ms) (n, a, h) = (n, a, Settled-Owing (owed_after m) ms h)

Owing-append :
    (owed last : List String) (ms : List Message) (m : Message)
    → m.content ≢ []
    → answered_by m ≡ last
    → Owing owed ms last
    → Owing owed (ms ++ m ∷ []) (owed_after m)
Owing-append owed last [] m n e h = (n, λ id. ap (count id) (e ∙ sym h), refl)
Owing-append owed last (x ∷ ms) m n e (c, a, h) =
    (c, a, Owing-append (owed_after x) last ms m n e h)

-- What a run has produced owes answers to these calls.
abbrev pub Produced : List String → RunState → Type 0
Produced owed s = Owing [] s.produced owed

after-assistant : (m : Message) → is_assistant m ≡ true → owed_after m ≡ use_ids m.content
after-assistant m a = ground (arith, a)

by-assistant : (m : Message) → is_assistant m ≡ true → answered_by m ≡ []
by-assistant m a = ground (arith, a)

not_empty :
    (c : Call) (cs : List Call) (rs : List ToolResult)
    → length rs ≡ length (c ∷ cs)
    → result_blocks (c ∷ cs) rs ≢ []
unfolding result_blocks
not_empty c cs [] e n = absurd (ground (arith, e))
not_empty c cs (r ∷ rs) e n = ground (arith, n)

pub Produced-Steady : (env : Surroundings) → Steady Produced env
unfolding nowhere_agent.Agent.Emit.emit_as
Produced-Steady env = record {
  emitting = λ owed d frame s e k. k;
  noting = λ owed s s' p f k. subst (λ ms. Owing [] ms owed) (sym p) k;
  replying = λ m s a n k.
      subst (λ xs. Owing [] (s.produced ++ m ∷ []) xs) (after-assistant m a)
        (Owing-append [] [] s.produced m n (by-assistant m a) k);
  answering = λ c cs rs s e k.
      Owing-append [] (ids (c ∷ cs)) s.produced (tool_result_message (c ∷ cs) rs)
        (not_empty c cs rs e) (result_ids-result_blocks (c ∷ cs) rs e) k;
}

-- The batch that a run owes at its end: it waits for the client.
abbrev pub Suspended : Surroundings → Config → RunState × Ending → Type 0
Suspended env cfg r =
    (i : ℕ) × (cs : List Call) × (interaction_gate (env.fresh_id i) cfg.tools cfg.gate_interaction
        cs
      ≢ [])
    × Produced (ids cs) r.0
    × (r.1 ≡ ended_well)

-- Whatever the provider streams and whatever the tools, the gates, the emitter and the context do:
-- if the hooks and the middlewares around the model call keep what the run has produced paired, and
-- each middleware replies well-formed around a handler that does, then at the end of the run every
-- message that it produced has content and answers exactly the calls of the message before it, or
-- the run ended well at the interaction gate and only its last batch has no answers.
pub run-Settled :
    (env : Surroundings) (cfg : Config) (stream : RunState → List Message → List Delivery ⊎ String)
    (history : List Message)
    → Friendly Produced cfg
    → let r = run env cfg (real_attempt env stream) history in
      Settled [] r.0.produced ⊎ Suspended env cfg r
run-Settled env cfg stream history f =
    let r = run-Sound Produced cfg env stream (Produced-Steady env) f history refl in
    elim r.settled [
      | inl e ↦ inl (
          Settled-Owing [] _ (
            subst (λ ms. Owing [] ms []) (sym r.produced)
              (subst (λ o. Owing [] r.before.produced o) e r.kept)))
      | inr (i, cs, g, o, w) ↦ inr (
        i,
        cs,
        g,
        subst (λ ms. Owing [] ms (ids cs)) (sym r.produced)
            (subst (λ o. Owing [] r.before.produced o) o r.kept),
        w,
      )
    ]
