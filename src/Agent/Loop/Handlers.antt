-- ===== src/Agent/Loop/Handlers.antt =====
-- The chain of middlewares around a model call, internal/agent/middleware.go and loop.go, keeps an
-- invariant of the loop if each of them does.
use nowhere_agent.Base.{
  ◌≡◌, refl, String, true, false, List, [], ◌∷◌, ◌⊎◌, All, arith, Option-cases, Sum-cases, inl, inr,
  subst,
}
use nowhere_agent.Provider.{Message}
use nowhere_agent.Agent.Types.{
  Surroundings, RunState, Frame, Attempt, replied, failed, ModelHandler, ModelMiddleware, Delivery,
}
use nowhere_agent.Agent.Emit.{emit_as, read_context}
use nowhere_agent.Agent.Stream.{real_attempt, consume, new_turn}
use nowhere_agent.Agent.Stream.Calls.{consume-ids}
use nowhere_agent.Agent.Stream.Frames
use nowhere_agent.Agent.Loop.{chain_model}
use nowhere_agent.Agent.Loop.Invariant.{is_terminal, WellFormed, Steady, read_context-K}

abbrev pub Replies : Attempt → Type 0
Replies (replied r) = WellFormed r
Replies (failed f) = Unit

silent : (frame : Frame) → Frames.is_content frame ≡ true → is_terminal frame ≡ false
silent frame e = ground (arith, e)

module _ (K : List String → RunState → Type 0) where
  -- A handler keeps the invariant, and its replies are well-formed.
  abbrev pub SoundHandler : ModelHandler → Type 0
  SoundHandler h =
      (s : RunState) (msgs : List Message) → K [] s → K [] (h s msgs).0 × Replies (h s msgs).1

  abbrev pub Answers : Attempt ⊎ String → Type 0
  Answers (inl attempt) = Replies attempt
  Answers (inr panic) = Unit

  -- A middleware does so around every handler that does.
  abbrev pub SoundMiddleware : ModelMiddleware → Type 0
  SoundMiddleware m =
      (h : ModelHandler)
      → SoundHandler h
      → (s : RunState) (msgs : List Message) → K [] s
      → K [] (m.wrap h s msgs).0 × Answers (m.wrap h s msgs).1

  pub chain_model-SoundHandler :
      (ms : List ModelMiddleware) (h : ModelHandler)
      → All SoundMiddleware ms
      → SoundHandler h
      → SoundHandler (chain_model ms h)
  unfolding chain_model
  chain_model-SoundHandler [] h a k s msgs c = k s msgs c
  chain_model-SoundHandler (m ∷ ms) h (a, more) k s msgs c =
      let inner = chain_model-SoundHandler ms h more k in
      let w = a (chain_model ms h) inner s msgs c in
      elim (Sum-cases (m.wrap (chain_model ms h) s msgs).1) [
        | inl (x, e) ↦ rw (chain_model, e) (w.0, subst Answers e w.1)
        | inr (x, e) ↦ rw (chain_model, e) (w.0, tt)
      ]

  -- What `realAttempt` returns for a stream, whatever that delivers.
  pub real_attempt-SoundHandler :
      (env : Surroundings) (stream : RunState → List Message → List Delivery ⊎ String)
      → Steady K env
      → SoundHandler (real_attempt env stream)
  unfolding real_attempt nowhere_agent.Agent.Emit.emit_as
  real_attempt-SoundHandler env stream steady s msgs k = (
    Frames.real_attempt-K env (K [])
        (record {
          emitting = λ frame s' c k'. steady.emitting [] false frame s' (silent frame c) k';
          reading = λ s' k'. read_context-K K env steady [] s' k';
        })
        stream s msgs k,
    elim (Sum-cases (stream s msgs)) [
      | inr (e, p) ↦ rw (real_attempt, p) tt
      | inl (ds, p) ↦ elim (Option-cases (consume env ds new_turn s).error) [
        | inl e ↦ rw (real_attempt, p, e) (refl, consume-ids env ds s)
        | inr (x, e) ↦ rw (real_attempt, p, e) tt
      ]
    ],
  )
