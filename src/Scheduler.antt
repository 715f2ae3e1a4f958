-- ===== src/Scheduler.antt =====
-- The scheduler of periodic work, internal/scheduler/scheduler.go. What runs under the mutex is one
-- step; a job in its goroutine is an entry of `running` until it returns. A time is a number of
-- nanoseconds. Left out: the wait for running jobs at shutdown, and logs.
pub mod Overlap
pub mod Due
pub mod Spacing
mod Tests
use nowhere_agent.Base.{
  ℕ, zero, suc, ◌+◌, ltb, leb, String, Bool, true, false, not, List, [], ◌∷◌, Option, none, some,
  get_elem?, remove_at, str_eq, if◌then◌else◌,
}
use nowhere_agent.Base.Int.{ℤ, pos, negsuc, is_positive}
use nowhere_agent.Base.Dict.{Dict, lookup, insert, delete}

-- A job, with whether it has a run func.
pub record Job : Type 0 where
  pub name : String
  pub interval : ℤ
  pub runs : Bool

-- When a job was started, and its interval then.
pub record Start : Type 0 where
  pub job : String
  pub at : ℕ
  pub interval : ℤ

-- `Scheduler`, with the jobs in their goroutines and all starts, each the newest first.
pub record Scheduler : Type 0 where
  pub jobs : Dict Job
  pub last_run : Dict ℕ
  pub inflight : Dict Bool
  pub running : List Job
  pub starts : List Start

abbrev pub new_scheduler : Scheduler
new_scheduler = record { jobs = []; last_run = []; inflight = []; running = []; starts = [] }

-- `New` from the jobs that it has taken on; none where it refuses one.
unfoldable pub add_jobs : List Job → Scheduler → Option Scheduler
add_jobs [] s = some s
add_jobs (j ∷ js) s =
    let rest = add_jobs js (record s { jobs = insert j.name j s.jobs }) in
    if not (is_positive j.interval) then none else if not j.runs then none else rest

unfoldable pub new : List Job → Option Scheduler
new js = add_jobs js new_scheduler

unfoldable pub set_interval : String → ℤ → Scheduler → Scheduler
set_interval name d s = if not (is_positive d) then s else elim (lookup name s.jobs) [
  | none ↦ s
  | some j ↦ record s { jobs = insert name (record j { interval = d }) s.jobs }
]

-- Not `now.Sub(last) < interval`.
unfoldable pub elapsed : ℕ → ℕ → ℤ → Bool
elapsed now last (pos d) = leb (last + d) now
elapsed now last (negsuc d) = leb last (now + suc d)

-- `s.inflight[name]`
abbrev pub in_flight : String → Dict Bool → Bool
in_flight name m = elim (lookup name m) [ none ↦ false | some b ↦ b ]

unfoldable pub is_due : Bool → ℕ → Option ℕ → ℤ → Bool
is_due first now none interval = first
is_due first now (some last) interval = elapsed now last interval

unfoldable pub mark : ℕ → String → Job → Scheduler → Scheduler
mark now name j s = record s {
  last_run = insert name now s.last_run;
  inflight = insert name true s.inflight;
  running = j ∷ s.running;
  starts = record { job = name; at = now; interval = j.interval } ∷ s.starts;
}

-- The loop of `markDueLocked`, with the dispatch of what it returns.
unfoldable pub mark_due : Bool → ℕ → List (String × Job) → Scheduler → Scheduler
mark_due first now [] s = s
mark_due first now ((name, j) ∷ entries) s = mark_due first now entries (
    if not (is_due first now (lookup name s.last_run) j.interval)
    then s
    else if in_flight name s.inflight
    then s
    else mark now name j s)

unfoldable pub catch_up : ℕ → Scheduler → Scheduler
catch_up now s = mark_due true now s.jobs s

unfoldable pub run_due : ℕ → Scheduler → Scheduler
run_due now s = mark_due false now s.jobs s

-- The i-th running job returns, with an error, a panic or neither.
unfoldable pub finish : ℕ → Scheduler → Scheduler
finish i s = elim (get_elem? s.running i) [
  | none ↦ s
  | some j ↦ record s { running = remove_at i s.running; inflight = delete j.name s.inflight }
]

-- What happens to a scheduler, one step at a time.
pub data Op : Type 0 where
  op_tick : ℕ → Op
  op_finish : ℕ → Op
  op_set_interval : String → ℤ → Op

unfoldable pub apply : Op → Scheduler → Scheduler
apply (op_tick now) s = run_due now s
apply (op_finish i) s = finish i s
apply (op_set_interval name d) s = set_interval name d s

unfoldable pub apply_all : List Op → Scheduler → Scheduler
apply_all [] s = s
apply_all (op ∷ ops) s = apply_all ops (apply op s)
