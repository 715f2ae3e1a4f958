-- ===== src/Agent/Tests.antt =====
-- The theorems on internal/agent at small runs, and tests of these.
use nowhere_agent.Base.{
  ◌≡◌, refl, String, Bool, true, false, List, [], ◌∷◌, none, some, ◌⊎◌, inl, inr, length, map, take,
  str_eq, if◌then◌else◌,
}
use nowhere_agent.Base.Int.{pos}
use nowhere_agent.Provider.{
  Block, BlockType, Message, user, empty_block, text_block, text_message, stop_end_turn,
  stop_tool_use, block_start, block_delta, block_stop, message_stop,
}
use nowhere_agent.Context.Pairing.Settled.{Settled}
use nowhere_agent.Context.Compress.{CompressionCache}
use nowhere_agent.Agent.Types.{
  Surroundings, Call, Tool, Registry, RunState, Emission, Hook, logged, ModelMiddleware, Delivery,
  event, ToolHandler, Failure, failed, ModelHandler, kind_error, kind_step_finish, ended_well,
}
use nowhere_agent.Base.Sorting.{sort_by, insert_by}
use nowhere_agent.Base.Dict.{lookup}
use nowhere_agent.Context.Pairing.{
  ensure_pairing, pair_messages, pair_message, flush_pending, flush_message, filter_blocks,
  use_block, result_block, ensure_non_empty,
}
use nowhere_agent.Agent.Emit.{emit_as, read_context}
use nowhere_agent.Agent.Tools.{
  dispatch_with, failure, record_tool_results, send_results, result_blocks, dispatch, screen,
  interaction_gate, gate_from, interaction_kind, strip_description, real_tool_call, chain_tool,
}
use nowhere_agent.Agent.Tools.Dispatch.{dispatch_with-Authorized}
use nowhere_agent.Agent.Stream.{
  real_attempt, consume, on_event, close, append_finalized, finalize, finalize_all, find_open,
  accumulate, delta_frame, track,
}
use nowhere_agent.Agent.Loop.{
  Config, new_run, run_hooks, chain_model, drop_empty_blocks, carries, working_view,
}
use nowhere_agent.Agent.Loop.Run.{
  run, iterations, iterate, call_and_take, attempt, take_reply, keep_reply, run_batch, finish_turn,
  succeed_run, fail_run, run_after_run,
}
use nowhere_agent.Agent.Builtin.{retry, overflow_mw, memory_inject_mw, vision_gate_mw, usage_mw}
use nowhere_agent.Agent.Builtin.Keeping.{
  overflow_mw-Sound, vision_gate_mw-Sound, memory_inject_mw-Keeps, usage_mw-Keeps,
}
use nowhere_agent.Agent.Builtin.Overflow.{working_view-overflow_mw}
use nowhere_agent.Agent.Loop.Sound.{Friendly}
use nowhere_agent.Agent.Loop.Paired.{Produced, Produced-Steady, Suspended, run-Settled}
use nowhere_agent.Agent.Loop.Terminal.{Running, Running-Steady, terminals, run-terminal_frame}
use nowhere_agent.Agent.Loop.Invariant.{terminal_frame, Steady}

abbrev env : Surroundings
env = record {
  accepts = λ n. true;
  cancelled = λ n. false;
  decimal = λ n. "7";
  fresh_id = λ i n. "interaction";
  parse_args = λ json. some [];
  parse_error = λ json. "";
  context_error = "context canceled";
  emit_error = "gone";
}

abbrev echo : Tool
echo = record {
  name = "echo";
  risk = "read_only";
  client_side = false;
  violation = λ args. none;
  call = λ args. record { content = "said"; is_error = false; nested = none; generative_ui = none };
}

abbrev tools : Registry
tools = ("echo", echo) ∷ []

-- A hook that fails, which is logged, and a middleware that passes the call on.
abbrev watch : Hook
watch s = (s, logged)

abbrev pass : ModelMiddleware
pass = record { name = "pass"; wrap = λ h s msgs. let (s', a) = h s msgs in (s', inl a) }

-- One memory to inject, and errors of which all are taken for an overflow.
abbrev remember : List Message → List Message ⊎ String
remember view = inl (text_message user "note" ∷ [])

abbrev too_large : Failure → Bool
too_large f = true

abbrev cfg : Config
cfg = record {
  max_iterations = pos 3;
  max_tokens = pos 0;
  tools = tools;
  before = memory_inject_mw (some remember) ∷ watch ∷ [];
  after_model = watch ∷ [];
  after_run = usage_mw env none ∷ watch ∷ [];
  model_wrap = overflow_mw too_large (pos 0) ∷ vision_gate_mw "openai" false ∷ pass ∷ [];
  tool_wrap = [];
  gate_interaction = none;
  gate_execute = none;
}

abbrev call_block : Block
call_block = record (empty_block BlockType.tool_use) { tool_use_id = "t1"; tool_name = "echo" }

-- The first turn calls the tool, and the second one answers.
abbrev stream : RunState → List Message → List Delivery ⊎ String
stream s [] = inr "no messages"
stream s (m ∷ []) = inr "no note"
stream s (m ∷ note ∷ []) = inl (
    event (block_start 0 (some call_block))
    ∷ event (block_delta 0 "{}" "")
    ∷ event (block_stop 0)
    ∷ event (message_stop stop_tool_use none)
    ∷ [])
stream s (m ∷ m' ∷ m'' ∷ ms) = inl (
    event (block_start 0 (some (text_block "")))
    ∷ event (block_delta 0 "done" "")
    ∷ event (message_stop stop_end_turn none)
    ∷ [])

abbrev history : List Message
history = text_message user "hi" ∷ []

friendly : (K : List String → RunState → Type 0) → Steady K env → Friendly K cfg
friendly K steady = record {
  before = (memory_inject_mw-Keeps K env steady (some remember), (λ owed s k. k, tt));
  after_model = (λ owed s k. k, tt);
  after_run = (usage_mw-Keeps K env steady none, (λ owed s k. k, tt));
  model_wrap = (
    overflow_mw-Sound K env steady too_large (pos 0),
    (vision_gate_mw-Sound K env steady "openai" false, (λ h k s msgs c. k s msgs c, tt)),
  );
}

run-Settled_example :
    let r = run env cfg (real_attempt env stream) history in
    Settled [] r.0.produced ⊎ Suspended env cfg r
run-Settled_example = run-Settled env cfg stream history (friendly Produced (Produced-Steady env))

run-terminal_frame_example :
    let r = run env cfg (real_attempt env stream) history in
    ((d : Bool) × (es : List Emission) × (r.0.frames
        ≡ record { frame = terminal_frame r.1; detached = d } ∷ es))
    × (terminals r.0.frames ≡ 1)
run-terminal_frame_example =
    run-terminal_frame env cfg stream history (friendly Running (Running-Steady env))

abbrev unknown_call : Call
unknown_call = record { id = "t2"; name = "shell"; args = []; args_error = "" }

-- Two handlers that differ, but not on the tools of the registry.
abbrev strict : ToolHandler
strict c = c.tool.call c.call.args

abbrev lax : ToolHandler
lax c = if str_eq c.call.args_error "" then c.tool.call c.call.args else failure "unread"

dispatch_with-Authorized_example :
    dispatch_with strict tools none (unknown_call ∷ [])
    ≡ dispatch_with lax tools none (unknown_call ∷ [])
dispatch_with-Authorized_example =
    dispatch_with-Authorized tools none strict lax (unknown_call ∷ []) (λ c a. rw a.was_read refl)

running : Unit {0}
unfolding overflow_mw retry memory_inject_mw vision_gate_mw usage_mw run iterations iterate
    call_and_take attempt take_reply keep_reply run_batch finish_turn succeed_run fail_run
    run_after_run run_hooks chain_model real_attempt consume on_event close append_finalized
    finalize finalize_all find_open accumulate delta_frame track emit_as read_context sort_by
    insert_by record_tool_results send_results result_blocks dispatch dispatch_with screen
    interaction_gate gate_from interaction_kind lookup strip_description real_tool_call chain_tool
    drop_empty_blocks carries working_view ensure_pairing pair_messages pair_message flush_pending
    flush_message filter_blocks use_block result_block ensure_non_empty
running = tt

run_ends_well : (run env cfg (real_attempt env stream) history).1 ≡ ended_well
unfolding running
run_ends_well = refl

run_produces : length (run env cfg (real_attempt env stream) history).0.produced ≡ 3
unfolding running
run_produces = refl

-- At the limit of iterations a step is closed again that was closed as one that continues.
run_out :
    map
      (λ e. e.frame)
      (take 3
        (run env
          (record cfg { max_iterations = pos 1 })
          (real_attempt env stream)
          history).0.frames)
    ≡ kind_error "max iterations (7) exceeded"
      ∷ kind_step_finish "error" none false
      ∷ kind_step_finish "tool-calls" none true
      ∷ []
unfolding running
run_out = refl

abbrev refuses : ModelHandler
refuses s view = (s, failed (record { text = "prompt is too long"; mid_stream = false }))

abbrev uncovered : CompressionCache
uncovered = record { covered = 0; covered_bytes = 0; summary = "" }

abbrev two_rounds : List Message
two_rounds = text_message user "a" ∷ text_message user "b" ∷ []

working_view-overflow_mw_example :
    let s : RunState = record new_run { compress_cache = some uncovered } in
    working_view two_rounds ((overflow_mw too_large (pos 1)).wrap refuses s two_rounds).0
    ≡ working_view two_rounds s
working_view-overflow_mw_example =
    working_view-overflow_mw too_large (pos 1) refuses
      (record new_run { compress_cache = some uncovered }) two_rounds two_rounds uncovered
      (λ s msgs. (refl, refl, refl)) refl refl
