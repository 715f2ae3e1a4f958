-- ===== src/Session/Runtime.antt =====
-- Starting, completing and cancelling runs, internal/session/runtime.go, as calls that interleave. What
-- is done under the runtime's mutex is one step, and so is each call of the store, which the
-- surroundings may fail. The store is the one in memory or, where `unique` holds, one whose index
-- idx_runs_one_active_per_session (migrations/000007) refuses a second active run of a session. Left
-- out: events, the broker, the interruption of the worker itself, and other processes.
mod Actives
mod Changes
mod Moves
mod Kinds
mod Advance
mod Invariant
pub mod Single
pub mod Lost
pub mod Restart
mod Tests
use nowhere_agent.Base.{
  ℕ, zero, suc, ◌==◌, String, Bool, true, false, not, ◌&&◌, Option, none, some, ◌≡◌, str_eq,
  if◌then◌else◌, [],
}
use nowhere_agent.Base.Dict.{Dict, lookup, insert, delete}
use nowhere_agent.Session.Types.{
  Session, Run, RunStatus, run_running, run_cancelled, terminal, is_active, Result, ok, err,
}
use nowhere_agent.Session.Store.{
  MemStore, get_session, active_run, next_run_seq, create_run, update_run_status,
}

-- `runState`, without the offset and the cancel func.
pub record RunState : Type 0 where
  pub run : Run

pub data Refusal : Type 0 where
  run_active no_active_run session_ended not_found not_terminal store_failed : Refusal

-- What a call returns.
pub data Outcome : Type 0 where
  started : Run → Outcome
  completed : Outcome
  cancelled : Bool → Outcome
  refused : Refusal → Outcome

-- Where a call stands: the first three are calls that are about to begin, and `returned` is also a
-- thread that has not called yet.
pub data Point : Type 0 where
  start_run : String → Point
  complete_run_for_run : String → String → RunStatus → Point
  cancel_run : String → Point
  found unlocked inactive : String → Point
  numbered : String → ℕ → Point
  created registering : Run → Point
  captured : String → String → Point
  released : Bool → String → RunStatus → Point
  returned : Outcome → Point

-- What the surroundings give to one step: whether the store answers, `uuid.NewString`, the time.
pub record Env : Type 0 where
  pub answers : Bool
  pub fresh_id : String
  pub now : ℕ

-- The state that the calls share, and the call that takes a step.
pub record Shared : Type 0 where
  pub store : MemStore
  pub runs : Dict RunState

abbrev pub fail : Refusal → Shared → Shared × Point
fail r s = (s, returned (refused r))

-- `CompleteRunForRun` up to the end of its critical section.
unfoldable pub release : Bool → String → String → RunStatus → Shared → Shared × Point
release cancels session id status s =
    let absent : Shared × Point =
      if cancels then (s, returned (cancelled true)) else fail no_active_run s in
    if not (terminal status) then fail not_terminal s else elim (lookup session s.runs) [
      | none ↦ absent
      | some rs ↦
          if not (str_eq rs.run.id id)
          then absent
          else (record s { runs = delete session s.runs }, released cancels id status)
    ]

-- `CreateRun`, whose conflict `StartRun` reports as an active run.
unfoldable pub insert_run : Bool → Env → String → ℕ → Shared → Shared × Point
insert_run unique env session n s =
    let (store, r) = create_run s.store env.fresh_id session n env.now in
    let created_one : Shared × Point = (record s { store = store }, created r) in
    if not unique
    then created_one
    else elim (active_run s.store session) [ none ↦ created_one | some q ↦ fail run_active s ]

-- One step of a call.
unfoldable pub advance : Bool → Env → Point → Shared → Shared × Point
advance unique env (start_run session) s =
    if not env.answers then fail store_failed s else elim (get_session s.store session) [
      | err e ↦ fail not_found s
      | ok ss ↦ if is_active ss.status then (s, found session) else fail session_ended s
    ]
advance unique env (found session) s = elim (lookup session s.runs) [
  | none ↦ (s, unlocked session)
  | some rs ↦ fail run_active s
]
advance unique env (unlocked session) s =
    if not env.answers then fail store_failed s else elim (active_run s.store session) [
      | none ↦ (s, inactive session)
      | some r ↦ fail run_active s
    ]
advance unique env (inactive session) s =
    if not env.answers
    then fail store_failed s
    else (s, numbered session (next_run_seq s.store session))
advance unique env (numbered session n) s =
    if not env.answers then fail store_failed s else insert_run unique env session n s
advance unique env (created r) s = if not env.answers then fail store_failed s else (
  record s { store = update_run_status s.store r.id run_running env.now },
  registering (record r { status = run_running }),
)
advance unique env (registering r) s =
    (record s { runs = insert r.session (record { run = r }) s.runs }, returned (started r))
advance unique env (complete_run_for_run session id status) s = release false session id status s
advance unique env (cancel_run session) s = elim (lookup session s.runs) [
  | none ↦ (s, returned (cancelled false))
  | some rs ↦ (s, captured session rs.run.id)
]
advance unique env (captured session id) s = release true session id run_cancelled s
advance unique env (released cancels id status) s =
    if not env.answers then fail store_failed s else (
      record s { store = update_run_status s.store id status env.now },
      returned (if cancels then cancelled true else completed),
    )
advance unique env (returned o) s = (s, returned o)

-- Any number of threads over the shared state.
pub record System : Type 0 where
  pub shared : Shared
  pub calls : ℕ → Point

abbrev pub update : {A : Type 0} → (ℕ → A) → ℕ → A → ℕ → A
update f i x j = if i == j then x else f j

-- The i-th thread takes a step.
unfoldable pub go : Bool → ℕ → Env → System → System
go unique i env s =
    let (shared, p) = advance unique env (s.calls i) s.shared in
    record { shared = shared; calls = update s.calls i p }

-- The points at which a call begins.
abbrev pub IsCall : Point → Type 0
IsCall (start_run session) = Unit {0}
IsCall (complete_run_for_run session id status) = Unit {0}
IsCall (cancel_run session) = Unit {0}
IsCall _ = ⊥

abbrev pub IsReturned : Point → Type 0
IsReturned (returned o) = Unit {0}
IsReturned _ = ⊥

-- A thread that has returned calls again, or one takes a step, with an id that no run has.
pub data Step (unique : Bool) (s : System) : System → Type 0 where
  begin :
      (i : ℕ) (p : Point)
      → IsReturned (s.calls i)
      → IsCall p
      → Step unique s (record s { calls = update s.calls i p })
  proceed :
      (i : ℕ) (env : Env)
      → lookup env.fresh_id s.shared.store.runs ≡ none
      → Step unique s (go unique i env s)

-- A process starts with nothing in memory, and no thread has called.
abbrev pub boot : MemStore → System
boot store = record {
  shared = record { store = store; runs = [] };
  calls = λ i. returned completed;
}

pub data Reach (unique : Bool) (s : System) : System → Type 0 where
  here : Reach unique s s
  next : {t u : System} → Reach unique s t → Step unique t u → Reach unique s u

-- The steps of one call with no other call in between.
unfoldable pub alone : Bool → Env → ℕ → Point → Shared → Shared × Point
alone unique env zero p s = (s, p)
alone unique env (suc n) p s = let (s', p') = advance unique env p s in alone unique env n p' s'
