-- ===== src/Session/Store/Runs.antt =====
-- The state and the runs of internal/session/memstore.go.
use nowhere_agent.Base.{
  ℕ, suc, ◌≡◌, arith, str_eq, ◌+◌, String, List, [], ◌∷◌, ◌++◌, Option, none, some, length, ltb,
  if◌then◌else◌,
}
use nowhere_agent.Base.Dict.{Dict, lookup, insert, lookup-insert}
use nowhere_agent.Session.Types.{
  Session, Run, RunStatus, run_queued, run_failed, terminal, active, Usage, Event, RunStep,
  UsageRecord, Interaction, SuspendedBatch,
}
use nowhere_agent.Session.Orders.{sort_by}

pub record MemStore : Type 0 where
  pub sessions : Dict Session
  pub runs : Dict Run
  pub by_session : Dict (List String)
  pub events : Dict (List Event)
  pub dreamed_seq : Dict ℕ
  pub memory_injected_at : Dict ℕ
  pub approvals : Dict Interaction
  pub approval_seq : ℕ
  pub batches : Dict SuspendedBatch
  pub steps : Dict (List RunStep)
  pub usage_records : Dict (List UsageRecord)

abbrev pub new_mem_store : MemStore
new_mem_store = record {
  sessions = [];
  runs = [];
  by_session = [];
  events = [];
  dreamed_seq = [];
  memory_injected_at = [];
  approvals = [];
  approval_seq = 0;
  batches = [];
  steps = [];
  usage_records = [];
}

-- A slice that a map holds: empty where the key is missing.
abbrev pub entries : {V : Type 0} → String → Dict (List V) → List V
entries k m = elim (lookup k m) [ none ↦ [] | some vs ↦ vs ]

pub entries-insert :
    {V : Type 0} (k j : String) (vs : List V) (m : Dict (List V))
    → entries j (insert k vs m) ≡ (if str_eq k j then vs else entries j m)
entries-insert k j vs m = ground (arith, lookup-insert k j vs m)

unfoldable pub create_run : MemStore → String → String → ℕ → ℕ → MemStore × Run
create_run m id session seq now =
    let r : Run = record {
      id = id;
      session = session;
      seq = seq;
      status = run_queued;
      created_at = now;
      finished_at = none;
      team = "";
      model = "";
      usage = none;
    } in
    (
      record m {
        runs = insert id r m.runs;
        by_session = insert session (entries session m.by_session ++ id ∷ []) m.by_session;
      },
      r,
    )

-- `*r` written through the pointer that `runs` holds.
unfoldable pub update_run : MemStore → String → (Run → Run) → MemStore
update_run m id f = elim (lookup id m.runs) [
  | none ↦ m
  | some r ↦ record m { runs = insert id (f r) m.runs }
]

unfoldable pub update_run_status : MemStore → String → RunStatus → ℕ → MemStore
update_run_status m id status now = update_run m id (λ r. record r {
  status = status;
  finished_at = if terminal status then some now else r.finished_at;
})

unfoldable pub set_run_attribution : MemStore → String → String → String → MemStore
set_run_attribution m id team model = update_run m id (λ r. record r { team = team; model = model })

unfoldable pub set_run_usage : MemStore → String → Option Usage → MemStore
set_run_usage m id none = m
set_run_usage m id (some u) = update_run m id (λ r. record r { usage = some u })

-- The runs behind the pointers of a session.
unfoldable pub runs_of : Dict Run → List String → List Run
runs_of runs [] = []
runs_of runs (id ∷ ids) = elim (lookup id runs) [
  | none ↦ runs_of runs ids
  | some r ↦ r ∷ runs_of runs ids
]

-- `RunsForSession`, and `RunsFor`
unfoldable pub runs_for_session : MemStore → String → List Run
runs_for_session m session = runs_of m.runs (entries session m.by_session)

abbrev pub first_active : List Run → Option Run
first_active [] = none
first_active (r ∷ rs) = if active r.status then some r else first_active rs

unfoldable pub active_run : MemStore → String → Option Run
active_run m session = first_active (runs_for_session m session)

unfoldable pub next_run_seq : MemStore → String → ℕ
next_run_seq m session = length (entries session m.by_session) + 1

-- The loop of `FailStrandedRuns`: the runs after it, and how many it failed.
unfoldable pub fail_runs : Dict Run → ℕ → Dict Run × ℕ
fail_runs [] now = ([], 0)
fail_runs ((id, r) ∷ rest) now =
    let (rest', n) = fail_runs rest now in
    if active r.status
    then ((id, record r { status = run_failed; finished_at = some now }) ∷ rest', suc n)
    else ((id, r) ∷ rest', n)

unfoldable pub fail_stranded_runs : MemStore → ℕ → MemStore × ℕ
fail_stranded_runs m now = let (runs, n) = fail_runs m.runs now in (record m { runs = runs }, n)

abbrev pub active_runs : Dict Run → List Run
active_runs [] = []
active_runs ((id, r) ∷ rest) = if active r.status then r ∷ active_runs rest else active_runs rest

-- The newest first.
unfoldable pub stranded_runs : MemStore → List Run
stranded_runs m = sort_by (λ r s. ltb s.created_at r.created_at) (active_runs m.runs)
