-- ===== src/Scheduler/Tests.antt =====
-- The theorems on the scheduler at two jobs and a few ticks.
use nowhere_agent.Base.{◌≡◌, refl, ℕ, true, [], ◌∷◌, List, some, length, if◌then◌else◌}
use nowhere_agent.Base.Int.{pos}
use nowhere_agent.Base.Dict.{lookup, insert, delete}
use nowhere_agent.Scheduler.{
  Job, Scheduler, add_jobs, new, set_interval, in_flight, elapsed, is_due, mark, mark_due, catch_up,
  run_due, finish, Op, op_tick, op_finish, op_set_interval, apply, apply_all,
}
use nowhere_agent.Scheduler.Overlap.{copies, apply_all-alone}
use nowhere_agent.Scheduler.Due.{tick-starts}
use nowhere_agent.Scheduler.Spacing.{Spaced, apply_all-Spaced}

abbrev dreaming : Job
dreaming = record { name = "dreaming"; interval = pos 10; runs = true }

abbrev sweep : Job
sweep = record { name = "sweep"; interval = pos 3; runs = true }

abbrev jobs : List Job
jobs = dreaming ∷ sweep ∷ []

abbrev start : Scheduler
start = record {
  jobs = ("dreaming", dreaming) ∷ ("sweep", sweep) ∷ [];
  last_run = [];
  inflight = [];
  running = [];
  starts = [];
}

new_starts : new jobs ≡ some start
unfolding new add_jobs insert
new_starts = refl

-- The sweep ends and runs again, and the interval of the other job is cut while it runs on.
abbrev ops : List Op
ops =
    op_finish 0
    ∷ op_tick 4
    ∷ op_set_interval "dreaming" (pos 2)
    ∷ op_tick 5
    ∷ op_finish 0
    ∷ op_finish 0
    ∷ []

scheduling : Unit {0}
unfolding apply_all apply catch_up run_due finish set_interval mark_due mark is_due elapsed insert
    delete lookup
scheduling = tt

starts_three : length (apply_all ops (catch_up 1 start)).starts ≡ 3
unfolding scheduling
starts_three = refl

apply_all-alone_example :
    let s = apply_all ops (catch_up 1 start) in
    copies "sweep" s.running ≡ (if in_flight "sweep" s.inflight then 1 else 0)
apply_all-alone_example = apply_all-alone jobs 1 start ops "sweep" new_starts

apply_all-Spaced_example : Spaced (apply_all ops (catch_up 1 start)).starts
apply_all-Spaced_example = apply_all-Spaced jobs 1 start ops new_starts

registered :
    lookup "dreaming" (apply_all ops (catch_up 1 start)).jobs
    ≡ some (record dreaming { interval = pos 2 })
unfolding scheduling
registered = refl

idle : copies "dreaming" (apply_all ops (catch_up 1 start)).running ≡ 0
unfolding scheduling
idle = refl

tick-starts_example :
    let s = apply_all ops (catch_up 1 start) in
    (last : ℕ) × (lookup "dreaming" s.last_run ≡ some last)
    × ((now : ℕ)
        → elapsed now last (pos 2) ≡ true
        → (copies "dreaming" (apply (op_tick now) s).running ≡ 1)
          × (lookup "dreaming" (apply (op_tick now) s).last_run ≡ some now))
tick-starts_example =
    tick-starts jobs 1 start ops "dreaming" (record dreaming { interval = pos 2 }) new_starts
      registered idle
