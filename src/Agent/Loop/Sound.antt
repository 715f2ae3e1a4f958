-- ===== src/Agent/Loop/Sound.antt =====
-- A run of internal/agent/loop.go under hooks and middlewares that keep an invariant of the loop.
use nowhere_agent.Base.{String, List, [], ◌∷◌, ◌++◌, ◌⊎◌, All, reverse, subst}
use nowhere_agent.Provider.{Message}
use nowhere_agent.Agent.Types.{Surroundings, RunState, Delivery}
use nowhere_agent.Agent.Stream.{real_attempt}
use nowhere_agent.Agent.Loop.{Config, new_run}
use nowhere_agent.Agent.Loop.Run.{run, attempt}
use nowhere_agent.Agent.Loop.Invariant.{Steady, Keeps, Ended}
use nowhere_agent.Agent.Loop.Handlers.{
  SoundMiddleware, Replies, chain_model-SoundHandler, real_attempt-SoundHandler,
}
use nowhere_agent.Agent.Loop.Iterations.{run-Ended}

module _ {A : Type 0} (P : A → Type 0) where
  All-append : (xs ys : List A) → All P xs → All P ys → All P (xs ++ ys)
  All-append [] ys h k = k
  All-append (x ∷ xs) ys h k = (h.0, All-append xs ys h.1 k)

  All-reverse : (xs : List A) → All P xs → All P (reverse xs)
  All-reverse [] h = h
  All-reverse (x ∷ xs) h = All-append (reverse xs) (x ∷ []) (All-reverse xs h.1) (h.0, tt)

module _ (K : List String → RunState → Type 0) (cfg : Config) where
  -- The hooks and the middlewares of a loop keep an invariant.
  pub record Friendly : Type 0 where
    pub before : All (Keeps K) cfg.before
    pub after_model : All (Keeps K) cfg.after_model
    pub after_run : All (Keeps K) cfg.after_run
    pub model_wrap : All (SoundMiddleware K) cfg.model_wrap

  module _ (env : Surroundings) (stream : RunState → List Message → List Delivery ⊎ String)
      (steady : Steady K env) (f : Friendly) where
    attempt-Sound :
        (s : RunState)
        → K [] s
        → K [] (attempt env cfg (real_attempt env stream) s).0
          × Replies (attempt env cfg (real_attempt env stream) s).1
    unfolding attempt
    attempt-Sound s k =
        chain_model-SoundHandler K cfg.model_wrap (real_attempt env stream) f.model_wrap
          (real_attempt-SoundHandler K env stream steady) s s.view k

    pub run-Sound :
        (history : List Message)
        → K [] new_run
        → Ended K env cfg (run env cfg (real_attempt env stream) history)
    run-Sound history k =
        run-Ended K env cfg steady (All-reverse (Keeps K) cfg.after_run f.after_run)
          (All-reverse (Keeps K) cfg.after_model f.after_model) (real_attempt env stream) f.before
          (λ s c. (attempt-Sound s c).0) (λ s r c e. subst Replies e (attempt-Sound s c).1) history
          k
