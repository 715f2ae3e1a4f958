-- ===== src/Agent/Types.antt =====
-- The data of internal/agent/loop.go and middleware.go, and of internal/toolruntime/tool.go and
-- registry.go.
use nowhere_agent.Base.{ℕ, String, Bool, List, Option, ◌⊎◌}
use nowhere_agent.Base.Dict.{Dict}
use nowhere_agent.Base.Int.{ℤ}
use nowhere_agent.Provider.{Message, Usage, StopReason, StreamEvent}
use nowhere_agent.Context.Compress.{CompressionCache}

-- The arguments of a call, in the form of a block's tool input.
abbrev pub Args : Type 0
Args = List (String × Option String)

-- `toolruntime.Call`; an empty `args_error` means that the arguments were read.
pub record Call : Type 0 where
  pub id : String
  pub name : String
  pub args : Args
  pub args_error : String

-- `toolruntime.Result`
pub record ToolResult : Type 0 where
  pub content : String
  pub is_error : Bool
  pub nested : Option String
  pub generative_ui : Option String

-- A registered tool: its risk, whether it runs in the client, what `ValidateArgs` says against its
-- schema, and what `Registry.Call` returns for it.
pub record Tool : Type 0 where
  pub name : String
  pub risk : String
  pub client_side : Bool
  pub violation : Args → Option String
  pub call : Args → ToolResult

abbrev pub Registry : Type 0
Registry = Dict Tool

pub record Interaction : Type 0 where
  pub id : String
  pub kind : String
  pub tool_call : String
  pub tool_name : String
  pub input : Args
  pub batch : List Call

-- The events that the loop emits, with their payloads.
pub data Frame : Type 0 where
  kind_text kind_thinking kind_error kind_generative_ui : String → Frame
  kind_tool_use : String → String → Args → Frame
  kind_tool_args : String → String → String → Frame
  kind_tool_result : String → String → String → Bool → Frame
  kind_message : Message → Option Usage → Frame
  kind_interrupt : Interaction → Frame
  kind_step_finish : String → Option Usage → Bool → Frame
  kind_usage : Usage → Frame
  kind_overflow_recovery : Option Usage → Frame
  kind_step_start kind_done kind_cancelled : Frame

-- A frame as it was emitted, with the run's context or detached from its cancellation.
pub record Emission : Type 0 where
  pub frame : Frame
  pub detached : Bool

pub record ModelResult : Type 0 where
  pub assistant : Message
  pub calls : List Call
  pub stop : StopReason
  pub usage : Option Usage

-- `RunState`, with what the run has asked of its surroundings: the frames that it has emitted, the
-- newest first, how often it has read `ctx.Err`, and `PendingInteractions` of the loop.
pub record RunState : Type 0 where
  pub view : List Message
  pub produced : List Message
  pub usage : Usage
  pub iteration : ℕ
  pub compress_cache : Option CompressionCache
  pub view_dropped : ℤ
  pub overflow_recovered : Bool
  pub frames : List Emission
  pub reads : ℕ
  pub pending : List Interaction

-- An error of a model call; one that came after frames had reached the client is not retried.
pub record Failure : Type 0 where
  pub text : String
  pub mid_stream : Bool

pub data Attempt : Type 0 where
  replied : ModelResult → Attempt
  failed : Failure → Attempt

-- What a hook returns: no error, one that is logged, or one that wraps `ErrAbortRun`.
pub data HookResult : Type 0 where
  fine logged : HookResult
  aborts : String → HookResult

abbrev pub Hook : Type 0
Hook = RunState → RunState × HookResult

-- The chain's handlers of a model call, which take the messages of the request; the rest of it is
-- the loop's configuration.
abbrev pub ModelHandler : Type 0
ModelHandler = RunState → List Message → RunState × Attempt

-- A middleware around a model call, which returns or panics with a text.
pub record ModelMiddleware : Type 0 where
  pub name : String
  pub wrap : ModelHandler → RunState → List Message → RunState × (Attempt ⊎ String)

pub record ToolCall : Type 0 where
  pub call : Call
  pub tool : Tool

abbrev pub ToolHandler : Type 0
ToolHandler = ToolCall → ToolResult

pub record ToolMiddleware : Type 0 where
  pub name : String
  pub wrap : ToolHandler → ToolCall → ToolResult ⊎ String

-- A policy: whether it denies a tool, and why.
abbrev pub GateFunc : Type 0
GateFunc = Tool → Bool × String

-- What a stream delivers: an event, or the end of the context.
pub data Delivery : Type 0 where
  event : StreamEvent → Delivery
  context_done : Delivery

-- How the run ended: `Run` returned no error, the context's, or another.
pub data Ending : Type 0 where
  ended_well ended_cancelled : Ending
  ended_failed : String → Ending

-- The surroundings of a run: whether the emitter takes its n-th frame, whether the context is
-- cancelled when it is read for the n-th time, the numbers in texts, the ids of interactions by
-- iteration and position, `json.Unmarshal` of arguments with the text of its error, and the texts of
-- the errors of the context and of the emitter.
pub record Surroundings : Type 0 where
  pub accepts : ℕ → Bool
  pub cancelled : ℕ → Bool
  pub decimal : ℕ → String
  pub fresh_id : ℕ → ℕ → String
  pub parse_args : String → Option Args
  pub parse_error : String → String
  pub context_error : String
  pub emit_error : String
