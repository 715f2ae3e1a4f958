-- ===== src/Scheduler/Due.antt =====
-- Which jobs a tick starts.
use nowhere_agent.Base.{
  ℕ, ◌≡◌, refl, sym, ap, ◌∙◌, subst, arith, String, Bool, true, false, not, List, [], ◌∷◌, some,
  get_elem?, str_eq, eq_iff, eq_refl, if◌then◌else◌, Bool-cases, Option-cases, both_branches, inl,
  inr,
}
use nowhere_agent.Base.Int.{is_positive}
use nowhere_agent.Base.Dict.{lookup, insert, has, lookup-insert, lookup-delete}
use nowhere_agent.Scheduler.{
  Job, Scheduler, new_scheduler, add_jobs, new, set_interval, in_flight, elapsed, is_due, mark,
  mark_due, catch_up, run_due, finish, Op, op_tick, op_finish, op_set_interval, apply, apply_all,
}
use nowhere_agent.Scheduler.Overlap.{
  Returns, Exclusive, copies, started-Exclusive, apply-Exclusive, apply_all-Exclusive,
}

-- A job in flight has been started, and so has every job.
abbrev pub Marked : Scheduler → Type 0
Marked s = (n : String) → in_flight n s.inflight ≡ true → has n s.last_run ≡ true

pub record Stamped (s : Scheduler) : Type 0 where
  pub marked : Marked s
  pub known : (n : String) → has n s.jobs ≡ true → has n s.last_run ≡ true

-- What one entry does in the loop.
abbrev pub mark_one : Bool → ℕ → String → Job → Scheduler → Scheduler
mark_one first now name j s =
    if not (is_due first now (lookup name s.last_run) j.interval)
    then s
    else if in_flight name s.inflight
    then s
    else mark now name j s

-- A job in flight stays so, and keeps the time of its start.
mark_one-held :
    (first : Bool) (now : ℕ) (name : String) (j : Job) (s : Scheduler) (n : String)
    → in_flight n s.inflight ≡ true
    → let s' = mark_one first now name j s in
      (in_flight n s'.inflight ≡ true) × (lookup n s'.last_run ≡ lookup n s.last_run)
unfolding mark
mark_one-held first now name j s n h = ground (
  arith,
  h,
  lookup-insert name n true s.inflight,
  lookup-insert name n now s.last_run,
  eq_iff name n,
)

mark_due-held :
    (first : Bool) (now : ℕ) (entries : List (String × Job)) (s : Scheduler) (n : String)
    → in_flight n s.inflight ≡ true
    → let s' = mark_due first now entries s in
      (in_flight n s'.inflight ≡ true) × (lookup n s'.last_run ≡ lookup n s.last_run)
unfolding mark_due
mark_due-held first now [] s n h = (h, refl)
mark_due-held first now ((name, j) ∷ entries) s n h =
    let (f, l) = mark_one-held first now name j s n h in
    let (f', l') = mark_due-held first now entries (mark_one first now name j s) n f in (f', l' ∙ l)

mark_one-has :
    (first : Bool) (now : ℕ) (name : String) (j : Job) (s : Scheduler) (n : String)
    → has n s.last_run ≡ true
    → has n (mark_one first now name j s).last_run ≡ true
unfolding mark
mark_one-has first now name j s n h = ground (arith, h, lookup-insert name n now s.last_run)

mark_one-Marked :
    (first : Bool) (now : ℕ) (name : String) (j : Job) (s : Scheduler)
    → Marked s
    → Marked (mark_one first now name j s)
unfolding mark
mark_one-Marked first now name j s m n f =
    ground
      (arith, m n, f, lookup-insert name n true s.inflight, lookup-insert name n now s.last_run)

mark_one-stamps :
    (now : ℕ) (name : String) (j : Job) (s : Scheduler)
    → Marked s
    → has name (mark_one true now name j s).last_run ≡ true
unfolding mark is_due
mark_one-stamps now name j s m =
    ground (arith, m name, lookup-insert name name now s.last_run, eq_refl name)

mark_due-has :
    (first : Bool) (now : ℕ) (entries : List (String × Job)) (s : Scheduler) (n : String)
    → has n s.last_run ≡ true
    → has n (mark_due first now entries s).last_run ≡ true
unfolding mark_due
mark_due-has first now [] s n h = h
mark_due-has first now ((name, j) ∷ entries) s n h =
    mark_due-has first now entries (mark_one first now name j s) n
      (mark_one-has first now name j s n h)

mark_due-Marked :
    (first : Bool) (now : ℕ) (entries : List (String × Job)) (s : Scheduler)
    → Marked s
    → Marked (mark_due first now entries s)
unfolding mark_due
mark_due-Marked first now [] s m = m
mark_due-Marked first now ((name, j) ∷ entries) s m =
    mark_due-Marked first now entries (mark_one first now name j s)
      (mark_one-Marked first now name j s m)

mark_one-jobs :
    (first : Bool) (now : ℕ) (name : String) (j : Job) (s : Scheduler)
    → (mark_one first now name j s).jobs ≡ s.jobs
unfolding mark
mark_one-jobs first now name j s =
    let same : Scheduler → Type 0 = λ t. t.jobs ≡ s.jobs in
    both_branches same (not (is_due first now (lookup name s.last_run) j.interval)) refl
      (both_branches same (in_flight name s.inflight) refl refl)

mark_due-jobs :
    (first : Bool) (now : ℕ) (entries : List (String × Job)) (s : Scheduler)
    → (mark_due first now entries s).jobs ≡ s.jobs
unfolding mark_due
mark_due-jobs first now [] s = refl
mark_due-jobs first now ((name, j) ∷ entries) s =
    mark_due-jobs first now entries (mark_one first now name j s) ∙ mark_one-jobs first now name j s

-- The catch-up starts every job that it has not started before.
mark_due-stamps :
    (now : ℕ) (entries : List (String × Job)) (s : Scheduler) (n : String)
    → Marked s
    → has n entries ≡ true
    → has n (mark_due true now entries s).last_run ≡ true
unfolding mark_due lookup
mark_due-stamps now [] s n m h = cc
mark_due-stamps now ((name, j) ∷ entries) s n m h = elim (Bool-cases (str_eq name n)) [
  | inl e ↦ mark_due-has true now entries (mark_one true now name j s) n (
      subst (λ k. has k (mark_one true now name j s).last_run ≡ true) ((eq_iff name n).0 e)
        (mark_one-stamps now name j s m))
  | inr e ↦
      mark_due-stamps now entries (mark_one true now name j s) n
        (mark_one-Marked true now name j s m) (ground (arith, h, e))
]

catch_up-Stamped : (now : ℕ) (s : Scheduler) → Marked s → Stamped (catch_up now s)
unfolding catch_up
catch_up-Stamped now s m = record {
  marked = mark_due-Marked true now s.jobs s m;
  known = λ n h.
      mark_due-stamps now s.jobs s n m (ap (has n) (sym (mark_due-jobs true now s.jobs s)) ∙ h);
}

apply-Stamped : (op : Op) (s : Scheduler) → Stamped s → Stamped (apply op s)
unfolding apply run_due finish set_interval
apply-Stamped (op_tick now) s x = record {
  marked = mark_due-Marked false now s.jobs s x.marked;
  known = λ n h.
      mark_due-has false now s.jobs s n
        (x.known n (ap (has n) (sym (mark_due-jobs false now s.jobs s)) ∙ h));
}
apply-Stamped (op_finish i) s x = elim (Option-cases (get_elem? s.running i)) [
  | inl e ↦ rw (finish, e) x
  | inr (j, e) ↦
      rw (finish, e)
        (record {
          marked = λ n f. x.marked n (ground (arith, f, lookup-delete j.name n s.inflight));
          known = x.known;
        })
]
apply-Stamped (op_set_interval name d) s x =
    both_branches Stamped (not (is_positive d)) x (elim (Option-cases (lookup name s.jobs)) [
      | inl e ↦ rw e x
      | inr (j, e) ↦ rw e (record {
        marked = x.marked;
        known = λ n h. x.known n (
            ground (
              arith,
              h,
              e,
              lookup-insert name n (record j { interval = d }) s.jobs,
              eq_iff name n,
            ));
      })
    ])

apply_all-Stamped : (ops : List Op) (s : Scheduler) → Stamped s → Stamped (apply_all ops s)
unfolding apply_all
apply_all-Stamped [] s x = x
apply_all-Stamped (op ∷ ops) s x = apply_all-Stamped ops (apply op s) (apply-Stamped op s x)

-- An entry leaves the other jobs alone.
mark_one-other :
    (first : Bool) (now : ℕ) (name : String) (j : Job) (s : Scheduler) (n : String)
    → str_eq name n ≡ false
    → let s' = mark_one first now name j s in
      (in_flight n s'.inflight ≡ in_flight n s.inflight)
      × (lookup n s'.last_run ≡ lookup n s.last_run)
unfolding mark
mark_one-other first now name j s n h =
    ground (arith, h, lookup-insert name n true s.inflight, lookup-insert name n now s.last_run)

mark_one-starts :
    (now : ℕ) (name : String) (j : Job) (s : Scheduler) (last : ℕ)
    → in_flight name s.inflight ≡ false
    → lookup name s.last_run ≡ some last
    → elapsed now last j.interval ≡ true
    → let s' = mark_one false now name j s in
      (in_flight name s'.inflight ≡ true) × (lookup name s'.last_run ≡ some now)
unfolding mark is_due
mark_one-starts now name j s last f l e =
    rw (l, e, f)
      (ground (
        arith,
        lookup-insert name name true s.inflight,
        lookup-insert name name now s.last_run,
        eq_refl name,
      ))

mark_due-starts :
    (now : ℕ) (entries : List (String × Job)) (s : Scheduler) (n : String) (j : Job) (last : ℕ)
    → lookup n entries ≡ some j
    → in_flight n s.inflight ≡ false
    → lookup n s.last_run ≡ some last
    → elapsed now last j.interval ≡ true
    → let s' = mark_due false now entries s in
      (in_flight n s'.inflight ≡ true) × (lookup n s'.last_run ≡ some now)
unfolding mark_due
mark_due-starts now [] s n j last h f l e = unfold lookup in cc
mark_due-starts now ((name, x) ∷ entries) s n j last h f l e = elim (Bool-cases (str_eq name n)) [
  | inr d ↦
      let (f', l') = mark_one-other false now name x s n d in
      mark_due-starts now entries (mark_one false now name x s) n j last
        (unfold lookup in ground (arith, h, d)) (f' ∙ f) (l' ∙ l) e
  | inl d ↦
      let at : name ≡ n = (eq_iff name n).0 d in
      let found : x ≡ j = unfold lookup in ground (arith, h, d) in
      let (f', l') = mark_one-starts now name x s last (rw at f) (rw at l) (rw found e) in
      let (f'', l'') =
        mark_due-held false now entries (mark_one false now name x s) n (rw (← at) f') in
      (f'', l'' ∙ (rw (← at) l'))
]

add_jobs-Marked : (js : List Job) (s : Scheduler) → Marked s → Returns Marked (add_jobs js s)
unfolding add_jobs
add_jobs-Marked [] s m = m
add_jobs-Marked (j ∷ js) s m = both_branches (Returns Marked) (not (is_positive j.interval)) tt (
    both_branches (Returns Marked) (not j.runs) tt
      (add_jobs-Marked js (record s { jobs = insert j.name j s.jobs }) m))

-- No job is forgotten: after the start and any steps, a registered job that is not running has been
-- started before, and the next tick at which its present interval has passed since then starts it,
-- once, and notes the time.
pub tick-starts :
    (js : List Job) (begun : ℕ) (s : Scheduler) (ops : List Op) (name : String) (j : Job)
    → new js ≡ some s
    → let s' = apply_all ops (catch_up begun s) in
      lookup name s'.jobs ≡ some j
      → copies name s'.running ≡ 0
      → (last : ℕ) × (lookup name s'.last_run ≡ some last)
        × ((now : ℕ)
            → elapsed now last j.interval ≡ true
            → (copies name (apply (op_tick now) s').running ≡ 1)
              × (lookup name (apply (op_tick now) s').last_run ≡ some now))
unfolding new
tick-starts js begun s ops name j h found idle =
    let s' = apply_all ops (catch_up begun s) in
    let x : Exclusive s' =
      apply_all-Exclusive ops (catch_up begun s) (started-Exclusive js begun s h) in
    let m : Marked s =
      subst (Returns Marked) h (add_jobs-Marked js new_scheduler (λ n f. unfold lookup in cc)) in
    let y : Stamped s' = apply_all-Stamped ops (catch_up begun s) (catch_up-Stamped begun s m) in
    let free : in_flight name s'.inflight ≡ false = ground (arith, x.alone name, idle) in
    elim (Option-cases (lookup name s'.last_run)) [
      | inl never ↦ absurd (ground (arith, y.known name, found, never))
      | inr (last, l) ↦ (
        last,
        l,
        (λ now e.
            let (flies, stamped) = mark_due-starts now s'.jobs s' name j last found free l e in
            let alone = (apply-Exclusive (op_tick now) s' x).alone name in
            unfold apply run_due in (alone ∙ (rw flies refl), stamped)),
      )
    ]
