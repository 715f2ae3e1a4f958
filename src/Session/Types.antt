-- ===== src/Session/Types.antt =====
-- The data of internal/session/types.go, accounting.go, approval.go and batch.go. A time is a number of
-- nanoseconds with 0 for Go's zero time, a JSON value its text.
pub use nowhere_agent.Provider.{Usage}
use nowhere_agent.Base.{ℕ, String, Bool, true, false, List, Option}
use nowhere_agent.Base.Int.{ℤ}
use nowhere_agent.Base.Dict.{Dict}

pub data RunStatus : Type 0 where
  run_queued run_running run_done run_failed run_cancelled : RunStatus

-- The run can no longer change its state.
abbrev pub terminal : RunStatus → Bool
terminal run_done = true
terminal run_failed = true
terminal run_cancelled = true
terminal run_queued = false
terminal run_running = false

-- The run is in progress and blocks new runs.
abbrev pub active : RunStatus → Bool
active run_queued = true
active run_running = true
active run_done = false
active run_failed = false
active run_cancelled = false

pub data SessionStatus : Type 0 where
  session_active session_ended : SessionStatus

abbrev pub is_active : SessionStatus → Bool
is_active session_active = true
is_active session_ended = false

pub record Session : Type 0 where
  pub id : String
  pub user : String
  pub title : String
  pub status : SessionStatus
  pub created_at : ℕ
  pub updated_at : ℕ
  pub state : Dict String

pub record SessionCursor : Type 0 where
  pub updated_at : ℕ
  pub id : String

pub record SessionPage : Type 0 where
  pub sessions : List Session
  pub next_cursor : Option SessionCursor

pub record Run : Type 0 where
  pub id : String
  pub session : String
  pub seq : ℕ
  pub status : RunStatus
  pub created_at : ℕ
  pub finished_at : Option ℕ
  pub team : String
  pub model : String
  pub usage : Option Usage

pub record Event : Type 0 where
  pub run : String
  pub session : String
  pub offset : ℤ
  pub kind : String
  pub payload : String
  pub created_at : ℕ

pub data StepKind : Type 0 where
  step_assistant step_tool step_overflow_compact : StepKind

pub record RunStep : Type 0 where
  pub id : ℕ
  pub run : String
  pub seq : ℕ
  pub kind : StepKind
  pub attempt : ℕ
  pub result_message : Option ℤ
  pub tool_call : String
  pub created_at : ℕ

pub data UsageCause : Type 0 where
  usage_assistant usage_tool usage_adjustment usage_overflow usage_run : UsageCause

pub record UsageRecord : Type 0 where
  pub id : ℕ
  pub run : String
  pub cause : UsageCause
  pub result_message : Option ℤ
  pub attempt : ℕ
  pub usage : Usage
  pub created_at : ℕ

pub data InteractionStatus : Type 0 where
  pending resolved rejected expired : InteractionStatus

abbrev pub is_pending : InteractionStatus → Bool
is_pending pending = true
is_pending resolved = false
is_pending rejected = false
is_pending expired = false

pub record Interaction : Type 0 where
  pub id : String
  pub run : String
  pub session : String
  pub tool_call : String
  pub tool_name : String
  pub payload : String
  pub kind : String
  pub status : InteractionStatus
  pub result : Option String
  pub created_at : ℕ
  pub decided_at : Option ℕ
  pub seq : ℕ

pub record SuspendedBatch : Type 0 where
  pub run : String
  pub session : String
  pub message_seq : Option ℕ
  pub tool_calls : List String
  pub folded_seq : Option ℕ
  pub created_at : ℕ

-- The errors that the stores return.
pub data StoreError : Type 0 where
  session_not_found no_pending_approval no_suspended_batch not_supported : StoreError

pub data Result (A : Type 0) : Type 0 where
  ok : A → Result A
  err : StoreError → Result A
