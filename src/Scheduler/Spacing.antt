-- ===== src/Scheduler/Spacing.antt =====
-- The time between two starts of a job.
use nowhere_agent.Base.{
  ℕ, ◌≡◌, refl, subst, arith, String, Bool, true, false, not, List, [], ◌∷◌, Option, none, some,
  str_eq, if◌then◌else◌, Bool-cases, Option-cases, both_branches, inl, inr, get_elem?,
}
use nowhere_agent.Base.Int.{ℤ, is_positive}
use nowhere_agent.Base.Dict.{lookup, insert, lookup-insert}
use nowhere_agent.Scheduler.{
  Job, Start, Scheduler, new_scheduler, add_jobs, new, set_interval, in_flight, elapsed, is_due,
  mark, mark_due, catch_up, run_due, finish, Op, op_tick, op_finish, op_set_interval, apply,
  apply_all,
}
use nowhere_agent.Scheduler.Overlap.{Returns}

-- When the job was started last.
abbrev pub newest : String → List Start → Option ℕ
newest n [] = none
newest n (e ∷ es) = let rest = newest n es in if str_eq e.job n then some e.at else rest

abbrev pub LongSince : Option ℕ → Start → Type 0
LongSince none e = Unit
LongSince (some last) e = elapsed e.at last e.interval ≡ true

-- At each start the interval that the job had then has passed since the start before it.
abbrev pub Spaced : List Start → Type 0
Spaced [] = Unit
Spaced (e ∷ es) = LongSince (newest e.job es) e × Spaced es

record Logged (s : Scheduler) : Type 0 where
  timed : (n : String) → newest n s.starts ≡ lookup n s.last_run
  spaced : Spaced s.starts

due-LongSince :
    (first : Bool) (now : ℕ) (name : String) (interval : ℤ) (last : Option ℕ)
    → is_due first now last interval ≡ true
    → LongSince last (record { job = name; at = now; interval = interval })
unfolding is_due
due-LongSince first now name interval none d = tt
due-LongSince first now name interval (some last) d = d

mark-Logged :
    (first : Bool) (now : ℕ) (name : String) (j : Job) (s : Scheduler)
    → is_due first now (lookup name s.last_run) j.interval ≡ true
    → Logged s
    → Logged (mark now name j s)
unfolding mark
mark-Logged first now name j s d x = record {
  timed = λ n. ground (arith, x.timed n, lookup-insert name n now s.last_run);
  spaced = (
    rw (x.timed name) (due-LongSince first now name j.interval (lookup name s.last_run) d),
    x.spaced,
  );
}

mark_due-Logged :
    (first : Bool) (now : ℕ) (entries : List (String × Job)) (s : Scheduler)
    → Logged s
    → Logged (mark_due first now entries s)
unfolding mark_due
mark_due-Logged first now [] s x = x
mark_due-Logged first now ((name, j) ∷ entries) s x =
    elim (Bool-cases (is_due first now (lookup name s.last_run) j.interval)) [
      | inr d ↦ rw d (mark_due-Logged first now entries s x)
      | inl d ↦ elim (Bool-cases (in_flight name s.inflight)) [
        | inl f ↦ rw (d, f) (mark_due-Logged first now entries s x)
        | inr f ↦
            rw (d, f)
              (mark_due-Logged first now entries (mark now name j s)
                (mark-Logged first now name j s d x))
      ]
    ]

apply-Logged : (op : Op) (s : Scheduler) → Logged s → Logged (apply op s)
unfolding apply run_due finish set_interval
apply-Logged (op_tick now) s x = mark_due-Logged false now s.jobs s x
apply-Logged (op_finish i) s x = elim (Option-cases (get_elem? s.running i)) [
  | inl e ↦ rw (finish, e) x
  | inr (j, e) ↦ rw (finish, e) (record { timed = x.timed; spaced = x.spaced })
]
apply-Logged (op_set_interval name d) s x =
    both_branches Logged (not (is_positive d)) x (elim (Option-cases (lookup name s.jobs)) [
      | inl e ↦ rw e x
      | inr (j, e) ↦ rw e (record { timed = x.timed; spaced = x.spaced })
    ])

apply_all-Logged : (ops : List Op) (s : Scheduler) → Logged s → Logged (apply_all ops s)
unfolding apply_all
apply_all-Logged [] s x = x
apply_all-Logged (op ∷ ops) s x = apply_all-Logged ops (apply op s) (apply-Logged op s x)

add_jobs-Logged : (js : List Job) (s : Scheduler) → Logged s → Returns Logged (add_jobs js s)
unfolding add_jobs
add_jobs-Logged [] s x = x
add_jobs-Logged (j ∷ js) s x = both_branches (Returns Logged) (not (is_positive j.interval)) tt (
    both_branches (Returns Logged) (not j.runs) tt (
      add_jobs-Logged js (record s { jobs = insert j.name j s.jobs })
        (record { timed = x.timed; spaced = x.spaced })))

-- Among all starts of a scheduler, the one at the catch-up included, two of one job that follow each
-- other are at least the interval apart that the job had at the second one.
pub apply_all-Spaced :
    (js : List Job) (begun : ℕ) (s : Scheduler) (ops : List Op)
    → new js ≡ some s
    → Spaced (apply_all ops (catch_up begun s)).starts
unfolding new catch_up
apply_all-Spaced js begun s ops h =
    let fresh : Logged new_scheduler = record { timed = λ n. unfold lookup in refl; spaced = tt } in
    let x : Logged s = subst (Returns Logged) h (add_jobs-Logged js new_scheduler fresh) in
    (apply_all-Logged ops (catch_up begun s) (mark_due-Logged true begun s.jobs s x)).spaced
