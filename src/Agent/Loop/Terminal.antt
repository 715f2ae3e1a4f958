-- ===== src/Agent/Loop/Terminal.antt =====
-- How a run of internal/agent/loop.go ends, in the frames that it emits.
use nowhere_agent.Base.{
  ℕ, suc, ◌≡◌, refl, ap, ◌∙◌, String, Bool, List, [], ◌∷◌, ◌⊎◌, arith, if◌then◌else◌,
}
use nowhere_agent.Provider.{Message}
use nowhere_agent.Agent.Types.{
  Surroundings, RunState, Emission, Delivery, Ending, ended_well, ended_cancelled, ended_failed,
}
use nowhere_agent.Agent.Stream.{real_attempt}
use nowhere_agent.Agent.Loop.{Config}
use nowhere_agent.Agent.Loop.Run.{run}
use nowhere_agent.Agent.Loop.Invariant.{is_terminal, terminal_frame, Steady}
use nowhere_agent.Agent.Loop.Sound.{Friendly, run-Sound}

-- How many of the frames end a run.
abbrev pub terminals : List Emission → ℕ
terminals [] = 0
terminals (e ∷ es) = if is_terminal e.frame then suc (terminals es) else terminals es

-- Nothing that was emitted ends the run.
abbrev pub Running : List String → RunState → Type 0
Running owed s = terminals s.frames ≡ 0

pub Running-Steady : (env : Surroundings) → Steady Running env
unfolding nowhere_agent.Agent.Emit.emit_as
Running-Steady env = record {
  emitting = λ owed d frame s e k. ground (arith, e, k);
  noting = λ owed s s' p f k. ap terminals f ∙ k;
  replying = λ m s a n k. k;
  answering = λ c cs rs s e k. k;
}

terminal_frame-terminals :
    (e : Ending) (d : Bool) (es : List Emission)
    → terminals es ≡ 0
    → terminals (record { frame = terminal_frame e; detached = d } ∷ es) ≡ 1
terminal_frame-terminals ended_well d es h = ap suc h
terminal_frame-terminals ended_cancelled d es h = ap suc h
terminal_frame-terminals (ended_failed e) d es h = ap suc h

-- Whatever the provider streams and whatever the tools, the gates, the emitter and the context do:
-- if the hooks and the middlewares around the model call emit no frame that ends the run, then the
-- last frame of the run is the one for the result that it returns (done, cancelled or the error's
-- text), and no other frame of it is done, cancelled or an error.
pub run-terminal_frame :
    (env : Surroundings) (cfg : Config) (stream : RunState → List Message → List Delivery ⊎ String)
    (history : List Message)
    → Friendly Running cfg
    → let r = run env cfg (real_attempt env stream) history in
      ((d : Bool) × (es : List Emission) × (r.0.frames
          ≡ record { frame = terminal_frame r.1; detached = d } ∷ es))
      × (terminals r.0.frames ≡ 1)
run-terminal_frame env cfg stream history f =
    let r = run-Sound Running cfg env stream (Running-Steady env) f history refl in
    (
      (r.detached, r.before.frames, r.frames),
      ap terminals r.frames ∙ terminal_frame-terminals _ r.detached r.before.frames r.kept,
    )
