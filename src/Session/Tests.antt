-- ===== src/Session/Tests.antt =====
-- The in-memory stores of internal/session run on small histories.
mod Talks
mod Live
mod Folds
use nowhere_agent.Base.{ℕ, ◌-◌, ◌≡◌, refl, String, Bool, false, [], none, arith, length, eq_iff}
use nowhere_agent.Base.Int.{pos}
use nowhere_agent.Base.Dict.{lookup, insert}
use nowhere_agent.Provider.{user}
use nowhere_agent.Session.Types.{UsageRecord, usage_assistant, step_assistant}
use nowhere_agent.Session.Store.{
  MemStore, new_mem_store, create_session, create_run, active_run, active_runs, fail_stranded_runs,
  values, listed, list_sessions_by_user,
}
use nowhere_agent.Session.Store.Stranded.{failed_if_active, fail_stranded_lem}
use nowhere_agent.Session.Store.Pages.{Apart, Listed}
use nowhere_agent.Session.Store.Pages.Walk.{walk, walk-listed}
use nowhere_agent.Session.Ledger.{append_run_step, append_usage_record}

-- Two sessions of one user, and a run of the first.
abbrev with_sessions : MemStore
with_sessions =
    (create_session (create_session new_mem_store "s1" "u" "one" 1).0 "s2" "u" "two" 2).0

abbrev with_run : MemStore
with_run = (create_run with_sessions "r1" "s1" 1 3).0

two_sessions : Apart (values with_sessions.sessions)
unfolding create_session insert
two_sessions = (((λ p. ground (arith, p, eq_iff "s1" "s2")), tt), (tt, tt))

abbrev same : String → String
same s = s

abbrev never : String → String → Bool
never s t = false

walk-listed_example :
    let ss = listed same never with_sessions "u" "" in
    (walk (list_sessions_by_user same never with_sessions "u" "" (pos 1)) (length ss) none ≡ ss)
    × Listed ss
walk-listed_example = walk-listed same never with_sessions "u" "" (pos 1) two_sessions

fail_stranded_lem_example :
    let (m', n) = fail_stranded_runs with_run 9 in
    (n ≡ length (active_runs with_run.runs))
    × (active_runs m'.runs ≡ [])
    × ((session : String) → active_run m' session ≡ none)
    × ((id : String) → lookup id m'.runs ≡ failed_if_active 9 (lookup id with_run.runs))
fail_stranded_lem_example = fail_stranded_lem with_run 9

abbrev record_of : String → ℕ → UsageRecord
record_of run n = record {
  id = 0;
  run = run;
  cause = usage_assistant;
  result_message = none;
  attempt = 1;
  usage = record { input = n; output = 1; cache_read = 0; cache_write = 0; reasoning = 0 };
  created_at = 0;
}

-- Three runs one after the other: the second step of the first and the first step of the third reserve
-- one id, since a step counts the runs with usage and the steps of its own run.
reserved_twice :
    let (m1, first) = append_run_step new_mem_store "r1" step_assistant "" none 1 in
    let m2 = append_usage_record m1 (record_of "r1" 1) 2 in
    let (m3, second) = append_run_step m2 "r1" step_assistant "" none 3 in
    let m4 = append_usage_record m3 (record_of "r2" 1) 4 in
    let (m5, third) = append_run_step m4 "r3" step_assistant "" none 5 in
    second.result_message ≡ third.result_message
unfolding append_run_step append_usage_record lookup insert
reserved_twice = refl
