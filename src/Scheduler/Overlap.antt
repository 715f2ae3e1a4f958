-- ===== src/Scheduler/Overlap.antt =====
-- No job overlaps itself, and every job has been started once.
use nowhere_agent.Base.{
  ℕ, zero, suc, ◌+◌, ◌≡◌, refl, subst, arith, String, Bool, true, false, not, List, [], ◌∷◌, Option,
  none, some, get_elem?, remove_at, str_eq, eq_iff, if◌then◌else◌, All, Bool-cases, Option-cases,
  both_branches, inl, inr,
}
use nowhere_agent.Base.Int.{ℤ, is_positive}
use nowhere_agent.Base.Dict.{Dict, lookup, insert, lookup-insert, lookup-delete}
use nowhere_agent.Scheduler.{
  Job, Scheduler, new_scheduler, add_jobs, new, set_interval, in_flight, is_due, mark, mark_due,
  catch_up, run_due, finish, Op, op_tick, op_finish, op_set_interval, apply, apply_all,
}

-- How many goroutines run a job of that name.
abbrev pub copies : String → List Job → ℕ
copies name [] = 0
copies name (j ∷ js) = (if str_eq j.name name then 1 else 0) + copies name js

-- The map lists each job under its name.
abbrev pub Named : List (String × Job) → Type 0
Named = All (λ e. e.1.name ≡ e.0)

-- A name is marked in flight exactly while one job of it runs, and then none other does.
pub record Exclusive (s : Scheduler) : Type 0 where
  pub named : Named s.jobs
  pub alone : (name : String) → copies name s.running ≡ (if in_flight name s.inflight then 1 else 0)

copies-remove_at :
    (name : String) (i : ℕ) (js : List Job) (j : Job)
    → get_elem? js i ≡ some j
    → copies name js ≡ copies name (remove_at i js) + (if str_eq j.name name then 1 else 0)
copies-remove_at name zero [] j h = cc
copies-remove_at name (suc i) [] j h = cc
copies-remove_at name zero (x ∷ js) j h = ground arith
copies-remove_at name (suc i) (x ∷ js) j h = omega (arith, copies-remove_at name i js j h)

Named-insert :
    (name : String) (j : Job) (m : Dict Job) → j.name ≡ name → Named m → Named (insert name j m)
unfolding insert
Named-insert name j [] e n = (e, tt)
Named-insert name j ((k, x) ∷ m) e n = elim (Bool-cases (str_eq k name)) [
  | inl h ↦ rw h (e, n.1)
  | inr h ↦ rw h (n.0, Named-insert name j m e n.1)
]

Named-lookup :
    (name : String) (m : Dict Job) (j : Job) → Named m → lookup name m ≡ some j → j.name ≡ name
unfolding lookup
Named-lookup name [] j n h = cc
Named-lookup name ((k, x) ∷ m) j n h = elim (Bool-cases (str_eq k name)) [
  | inl e ↦ ground (arith, e, eq_iff k name, n.0, h)
  | inr e ↦ Named-lookup name m j n.1 (ground (arith, e, h))
]

mark-Exclusive :
    (now : ℕ) (name : String) (j : Job) (s : Scheduler)
    → j.name ≡ name
    → in_flight name s.inflight ≡ false
    → Exclusive s
    → Exclusive (mark now name j s)
unfolding mark
mark-Exclusive now name j s e free x = record {
  named = x.named;
  alone = λ n. ground (
    arith,
    e,
    free,
    x.alone n,
    lookup-insert name n true s.inflight,
    eq_iff j.name n,
    eq_iff name n,
  );
}

mark_due-Exclusive :
    (first : Bool) (now : ℕ) (entries : List (String × Job)) (s : Scheduler)
    → Named entries
    → Exclusive s
    → Exclusive (mark_due first now entries s)
unfolding mark_due
mark_due-Exclusive first now [] s n x = x
mark_due-Exclusive first now ((name, j) ∷ entries) s n x =
    elim (Bool-cases (is_due first now (lookup name s.last_run) j.interval)) [
      | inr d ↦ rw d (mark_due-Exclusive first now entries s n.1 x)
      | inl d ↦ elim (Bool-cases (in_flight name s.inflight)) [
        | inl f ↦ rw (d, f) (mark_due-Exclusive first now entries s n.1 x)
        | inr f ↦
            rw (d, f)
              (mark_due-Exclusive first now entries (mark now name j s) n.1
                (mark-Exclusive now name j s n.0 f x))
      ]
    ]

finish-Exclusive : (i : ℕ) (s : Scheduler) → Exclusive s → Exclusive (finish i s)
unfolding finish
finish-Exclusive i s x = elim (Option-cases (get_elem? s.running i)) [
  | inl e ↦ rw (finish, e) x
  | inr (j, e) ↦
      rw (finish, e)
        (record {
          named = x.named;
          alone = λ n. ground (
            arith,
            x.alone n,
            copies-remove_at n i s.running j e,
            lookup-delete j.name n s.inflight,
            eq_iff j.name n,
          );
        })
]

set_interval-Exclusive :
    (name : String) (d : ℤ) (s : Scheduler) → Exclusive s → Exclusive (set_interval name d s)
unfolding set_interval
set_interval-Exclusive name d s x = elim (Bool-cases (is_positive d)) [
  | inr p ↦ rw p x
  | inl p ↦ elim (Option-cases (lookup name s.jobs)) [
    | inl e ↦ rw (p, e) x
    | inr (j, e) ↦
        rw (p, e)
          (record {
            named =
                Named-insert name (record j { interval = d }) s.jobs
                  (Named-lookup name s.jobs j x.named e) x.named;
            alone = x.alone;
          })
  ]
]

pub apply-Exclusive : (op : Op) (s : Scheduler) → Exclusive s → Exclusive (apply op s)
unfolding apply run_due
apply-Exclusive (op_tick now) s x = mark_due-Exclusive false now s.jobs s x.named x
apply-Exclusive (op_finish i) s x = finish-Exclusive i s x
apply-Exclusive (op_set_interval name d) s x = set_interval-Exclusive name d s x

pub apply_all-Exclusive :
    (ops : List Op) (s : Scheduler) → Exclusive s → Exclusive (apply_all ops s)
unfolding apply_all
apply_all-Exclusive [] s x = x
apply_all-Exclusive (op ∷ ops) s x = apply_all-Exclusive ops (apply op s) (apply-Exclusive op s x)

-- What `New` keeps, if it returns.
abbrev pub Returns {ℓ} : {A : Type 0} → (A → Type ℓ) → Option A → Type ℓ
Returns P none = Unit
Returns P (some a) = P a

add_jobs-Exclusive :
    (js : List Job) (s : Scheduler) → Exclusive s → Returns Exclusive (add_jobs js s)
unfolding add_jobs
add_jobs-Exclusive [] s x = x
add_jobs-Exclusive (j ∷ js) s x =
    both_branches (Returns Exclusive) (not (is_positive j.interval)) tt (
      both_branches (Returns Exclusive) (not j.runs) tt (
        add_jobs-Exclusive js (record s { jobs = insert j.name j s.jobs })
          (record { named = Named-insert j.name j s.jobs refl x.named; alone = x.alone })))

-- A scheduler as it is started at `now`.
pub started-Exclusive :
    (js : List Job) (now : ℕ) (s : Scheduler) → new js ≡ some s → Exclusive (catch_up now s)
unfolding new catch_up lookup
started-Exclusive js now s h =
    let x : Exclusive s =
      subst (Returns Exclusive) h
        (add_jobs-Exclusive js new_scheduler (record { named = tt; alone = λ n. refl })) in
    mark_due-Exclusive true now s.jobs s x.named x

-- From the start on, whatever ticks, ends of jobs and changes of intervals follow, no two runs of one
-- job are in progress at once, and a job is marked in flight exactly while one is.
pub apply_all-alone :
    (js : List Job) (now : ℕ) (s : Scheduler) (ops : List Op) (name : String)
    → new js ≡ some s
    → let s' = apply_all ops (catch_up now s) in
      copies name s'.running ≡ (if in_flight name s'.inflight then 1 else 0)
apply_all-alone js now s ops name h =
    (apply_all-Exclusive ops (catch_up now s) (started-Exclusive js now s h)).alone name
