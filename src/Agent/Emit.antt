-- ===== src/Agent/Emit.antt =====
-- Emitting frames and reading the context, internal/agent/loop.go.
use nowhere_agent.Base.{suc, Bool, true, false, ◌∷◌, length}
use nowhere_agent.Agent.Types.{Surroundings, RunState, Frame}

module _ (env : Surroundings) where
  -- Whether the emitter took the frame.
  unfoldable pub emit_as : Bool → Frame → RunState → Bool × RunState
  emit_as detached frame s = (
    env.accepts (length s.frames),
    record s { frames = record { frame = frame; detached = detached } ∷ s.frames },
  )

  -- Where the answer is ignored.
  abbrev pub send : Frame → RunState → RunState
  send frame s = (emit_as false frame s).1

  abbrev pub send_detached : Frame → RunState → RunState
  send_detached frame s = (emit_as true frame s).1

  -- `ctx.Err() != nil`
  unfoldable pub read_context : RunState → Bool × RunState
  read_context s = (env.cancelled s.reads, record s { reads = suc s.reads })
