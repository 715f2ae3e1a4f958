-- ===== src/Session/Tests/Live.antt =====
-- The fold and the broker of internal/session on small histories.
use nowhere_agent.Base.{
  ℕ, ◌≡◌, refl, String, true, false, List, [], ◌∷◌, ◌++◌, none, some, arith, map,
}
use nowhere_agent.Base.Int.{pos}
use nowhere_agent.Base.Dict.{lookup, insert}
use nowhere_agent.Provider.{Block, BlockType, empty_block, block_start, block_delta, block_stop}
use nowhere_agent.Agent.{Surroundings, Call, Tool, Registry, Delivery, event}
use nowhere_agent.Agent.Tools.{tool_executor}
use nowhere_agent.Agent.Stream.{new_turn, consume}
use nowhere_agent.Agent.Loop.{drop_empty_blocks, new_run}
use nowhere_agent.Session.Types.{Interaction, rejected}
use nowhere_agent.Session.Fold.{Reader, calls_in, by_call, fold_results}
use nowhere_agent.Session.Fold.Dispatch.{answer_each, fold_results-answer_each}
use nowhere_agent.Session.Fold.Rebuilt.{calls_in-consume}
use nowhere_agent.Session.Broker.{
  StreamEvent, new_mem_broker, Op, op_publish, op_unsub, op_settle, op_subscribe, op_send, read,
  publish, subscribe, append_frame, send, offer, apply, apply_all,
}
use nowhere_agent.Session.Broker.Log.{Log, numbered, read_log, log_of}
use nowhere_agent.Session.Broker.Refines.{read-log_of}
use nowhere_agent.Session.Broker.Catchup.{read-numbered}

abbrev surroundings : Surroundings
surroundings = record {
  accepts = λ n. true;
  cancelled = λ n. false;
  decimal = λ n. "";
  fresh_id = λ i n. "";
  parse_args = λ json. none;
  parse_error = λ json. "unexpected end of JSON input";
  context_error = "context canceled";
  emit_error = "gone";
}

abbrev call_block : Block
call_block = record (empty_block BlockType.tool_use) { tool_use_id = "t1"; tool_name = "echo" }

-- A call whose arguments break off.
abbrev cut_off : List Delivery
cut_off =
    event (block_start 0 (some call_block))
    ∷ event (block_delta 0 "{" "")
    ∷ event (block_stop 0)
    ∷ []

calls_in-consume_example :
    let t = (consume surroundings cut_off new_turn new_run).turn in
    calls_in (drop_empty_blocks t.content) ≡ t.calls
calls_in-consume_example = calls_in-consume surroundings cut_off new_run ((refl, λ e. refl), tt)

abbrev reader : Reader
reader = record {
  payload_args = λ payload. [];
  client_answer = λ text. none;
  compact = λ text. some text;
  output_violation = λ tool answer. none;
}

abbrev echo : Tool
echo = record {
  name = "echo";
  risk = "read_only";
  client_side = false;
  violation = λ args. none;
  call = λ args. record {
    content = "said";
    is_error = false;
    nested = none;
    generative_ui = some "card";
  };
}

abbrev tools : Registry
tools = ("echo", echo) ∷ []

abbrev call : String → Call
call id = record { id = id; name = "echo"; args = []; args_error = "" }

abbrev denied : Interaction
denied = record {
  id = "i";
  run = "r";
  session = "s";
  tool_call = "t2";
  tool_name = "echo";
  payload = "";
  kind = "approval";
  status = rejected;
  result = none;
  created_at = 0;
  decided_at = some 1;
  seq = 0;
}

fold_results-answer_each_example :
    fold_results reader
      (tool_executor [] tools)
      tools
      none
      (denied ∷ [])
      (call "t1" ∷ call "t2" ∷ [])
    ≡ answer_each reader [] tools none (by_call (denied ∷ []) []) (call "t1" ∷ call "t2" ∷ [])
fold_results-answer_each_example =
    fold_results-answer_each reader [] tools none (denied ∷ []) (call "t1" ∷ call "t2" ∷ [])

abbrev frame : String → StreamEvent
frame payload = record { offset = 0; run = "r"; kind = "text"; payload = payload }

-- Three frames at a capacity of two, of which a subscriber gets the first.
abbrev ops : List Op
ops =
    op_subscribe "s" 1 4
    ∷ op_publish "s" (frame "a")
    ∷ op_send 0
    ∷ op_publish "s" (frame "b")
    ∷ op_publish "other" (frame "x")
    ∷ op_publish "s" (frame "c")
    ∷ []

read-log_of_example :
    read "s" 1 (apply_all ops (new_mem_broker (pos 2)))
    ≡ read_log (new_mem_broker (pos 2)).capacity 1 (log_of "s" ops none)
read-log_of_example = read-log_of (pos 2) "s" 1 ops

-- The client leaves after the first frame, and two more come.
abbrev before : List Op
before = op_subscribe "s" 1 4 ∷ op_publish "s" (frame "a") ∷ op_send 0 ∷ []

abbrev later : List Op
later =
    op_unsub "s" 1
    ∷ op_publish "s" (frame "b")
    ∷ op_publish "other" (frame "x")
    ∷ op_publish "s" (frame "c")
    ∷ op_settle "other"
    ∷ []

abbrev log : Log
log = record { published = frame "a" ∷ []; settled = 0; attached = 1 ∷ [] }

abbrev first_frame : StreamEvent
first_frame = record (frame "a") { offset = 1 }

read-numbered_example :
    first_frame ∷ read "s" 1 (apply_all (before ++ later) (new_mem_broker (pos 2)))
    ≡ numbered 1 (frame "a" ∷ frame "b" ∷ frame "c" ∷ [])
unfolding new_mem_broker
read-numbered_example =
    read-numbered (pos 2) "s" before later log (first_frame ∷ []) [] refl refl (omega arith)
      (refl, (refl, (refl, (refl, (refl, tt))))) (omega arith)

live : Unit {0}
unfolding new_mem_broker apply_all apply publish subscribe append_frame read lookup insert
live = tt

-- The first frame is gone, and the others keep their offsets.
reads_the_rest :
    map {B = ℕ × String}
      (λ ev. (ev.offset, ev.payload))
      (read "s" 0 (apply_all ops (new_mem_broker (pos 2))))
    ≡ (2, "b") ∷ (3, "c") ∷ []
unfolding live send offer
reads_the_rest = refl
