-- ===== src/Session/Runtime/Kinds.antt =====
-- What each kind of step keeps of the shared state and of the calls.
use nowhere_agent.Base.{
  ℕ, ◌≡◌, refl, ap, subst, arith, String, Bool, true, none, some, inl, inr, str_eq, eq_iff,
  Bool-cases, Option-cases, both_branches,
}
use nowhere_agent.Base.Dict.{lookup, insert, delete, lookup-insert, lookup-delete}
use nowhere_agent.Session.Types.{Run, RunStatus, run_running, terminal}
use nowhere_agent.Session.Store.{active_run, create_run, update_run_status}
use nowhere_agent.Session.Runtime.{
  RunState, Outcome, cancelled, refused, Point, created, registering, released, returned, Env,
  Shared, release, insert_run, run_active, no_active_run, not_terminal, started,
}
use nowhere_agent.Session.Runtime.Actives.{
  Good, store_after, new_run, create_run-Good, created-kept, created-new,
}
use nowhere_agent.Session.Runtime.Changes.{update_run_status-Good}
use nowhere_agent.Session.Runtime.Moves.{
  held_id, Live, Holds, Registered, Free, Moved, Live-unique, ended, Live-running, Live-other,
}

module _ (s : Shared) (good : Good s.store) (registered : Registered s) where
  -- A step that changes nothing and ends holding nothing.
  pub quiet : (p p' : Point) → held_id p' ≡ none → Holds s.store p' → Moved s p s p'
  quiet p p' e h = record {
    good = good;
    holds = h;
    registered = registered;
    free = λ session rs l k. cc;
    others = λ x session live apart. live;
    origin = λ x k. absurd (cc);
    kept = λ session rs l. inl l;
  }

  -- The call takes its run out of the memory.
  take :
      (p : Point) (cancels : Bool) (session id : String) (status : RunStatus) (rs : RunState)
      → terminal status ≡ true
      → lookup session s.runs ≡ some rs
      → rs.run.id ≡ id
      → Moved s p (record s { runs = delete session s.runs }) (released cancels id status)
  take p cancels session id status rs t e d =
      let law = λ (other : String). lookup-delete session other s.runs in
      let live : Live s.store id session =
        subst (λ x. Live s.store x session) d (registered session rs e) in
      record {
        good = good;
        holds = (t, (session, live));
        registered = λ other rs' l. registered other rs' (ground (arith, l, law other));
        free = λ other rs' l k.
            let l' : lookup other s.runs ≡ some rs' = ground (arith, l, law other) in
            let live' : Live s.store id other =
              subst (λ x. Live s.store x other) (ground (arith, k)) (registered other rs' l') in
            ground (
              arith,
              l,
              law other,
              Live-unique s.store id session other live live',
              eq_iff session other,
            );
        others = λ x other live apart. live;
        origin = λ x k. inr (inr (session, rs, e, ground (arith, d, k)));
        kept = λ other rs' l. inl (ground (arith, l, law other));
      }

  pub release-Moved :
      (p : Point) (cancels : Bool) (session id : String) (status : RunStatus)
      → let (s', p') = release cancels session id status s in Moved s p s' p'
  unfolding release
  release-Moved p cancels session id status =
      let whole : Shared × Point → Type 0 = λ x. Moved s p x.0 x.1 in
      let absent =
        both_branches whole cancels (quiet p (returned (cancelled true)) refl tt)
          (quiet p (returned (refused no_active_run)) refl tt) in
      elim (Bool-cases (terminal status)) [
        | inr n ↦ rw (release, n) (quiet p (returned (refused not_terminal)) refl tt)
        | inl t ↦ elim (Option-cases (lookup session s.runs)) [
          | inl e ↦ rw (release, t, e) absent
          | inr (rs, e) ↦ elim (Bool-cases (str_eq rs.run.id id)) [
            | inr d ↦ rw (release, t, e, d) absent
            | inl d ↦
                rw (release, t, e, d)
                  (take p cancels session id status rs t e ((eq_iff rs.run.id id).0 d))
          ]
        ]
      ]

  insert_new :
      (p : Point) (env : Env) (session : String) (n : ℕ)
      → lookup env.fresh_id s.store.runs ≡ none
      → active_run s.store session ≡ none
      → Moved s p
          (record s { store = store_after s.store env.fresh_id session n env.now })
          (created (new_run s.store env.fresh_id session n env.now))
  unfolding create_run
  insert_new p env session n fresh idle =
      let id = env.fresh_id in
      let m' = store_after s.store id session n env.now in
      let q' = new_run s.store id session n env.now in
      let old : (x other : String) → Live s.store x other → Live m' x other = λ x other live.
        (live.0, created-kept s.store id session n env.now x live.0 fresh live.1, live.2, live.3) in
      record {
        good = create_run-Good s.store id session n env.now fresh idle good;
        holds = (q', created-new s.store id session n env.now, refl, refl);
        registered = λ other rs k. old rs.run.id other (registered other rs k);
        free = λ other rs k e. let live = registered other rs k in ground (arith, fresh, live.1, e);
        others = λ x other live apart. old x other live;
        origin = λ x k. inr (inl (ground (arith, fresh, k)));
        kept = λ other rs k. inl k;
      }

  pub insert_run-Moved :
      (p : Point) (env : Env) (session : String) (n : ℕ)
      → lookup env.fresh_id s.store.runs ≡ none
      → let (s', p') = insert_run true env session n s in Moved s p s' p'
  unfolding insert_run
  insert_run-Moved p env session n fresh = elim (Option-cases (active_run s.store session)) [
    | inr (q, e) ↦ rw (insert_run, e) (quiet p (returned (refused run_active)) refl tt)
    | inl idle ↦ rw (insert_run, idle) (insert_new p env session n fresh idle)
  ]

  -- The run is marked as running.
  pub mark_running :
      (r : Run) (now : ℕ)
      → Live s.store r.id r.session
      → Free s (created r)
      → Moved s
          (created r)
          (record s { store = update_run_status s.store r.id run_running now })
          (registering (record r { status = run_running }))
  mark_running r now (q, l, t, e) free =
      let m' = update_run_status s.store r.id run_running now in
      let old : (x other : String) → Live s.store x other → Live m' x other =
        Live-running s.store r.id now in
      record {
        good =
            update_run_status-Good s.store r.id run_running now
              (λ q' l' u. ground (arith, l, l', t)) good;
        holds = old r.id r.session (q, l, t, e);
        registered = λ other rs k. old rs.run.id other (registered other rs k);
        free = free;
        others = λ x other live apart. old x other live;
        origin = λ x k. inl k;
        kept = λ other rs k. inl k;
      }

  -- The run is put into memory.
  pub register :
      (r : Run)
      → Live s.store r.id r.session
      → Moved s
          (registering r)
          (record s { runs = insert r.session (record { run = r }) s.runs })
          (returned (started r))
  register r live =
      let law = λ (other : String). lookup-insert r.session other (record { run = r }) s.runs in
      record {
        good = good;
        holds = tt;
        registered = λ other rs l. elim (Bool-cases (str_eq r.session other)) [
          | inl e ↦
              let same : r ≡ rs.run = ground (arith, l, law other, e) in
              subst (λ (x : Run). Live s.store x.id other) same
                (subst (λ x. Live s.store r.id x) ((eq_iff r.session other).0 e) live)
          | inr e ↦ registered other rs (ground (arith, l, law other, e))
        ];
        free = λ other rs l k. cc;
        others = λ x other live apart. live;
        origin = λ x k. absurd (cc);
        kept = λ other rs l. elim (Bool-cases (str_eq r.session other)) [
          | inl e ↦
              let same : r ≡ rs.run = ground (arith, l, law other, e) in
              inr (ap (λ (x : Run). some x.id) same)
          | inr e ↦ inl (ground (arith, l, law other, e))
        ];
      }

  -- The run that was taken out is no longer active.
  pub settle :
      (cancels : Bool) (id : String) (status : RunStatus) (now : ℕ) (o : Outcome)
      → terminal status ≡ true
      → Free s (released cancels id status)
      → Moved s
          (released cancels id status)
          (record s { store = update_run_status s.store id status now })
          (returned o)
  settle cancels id status now o t free =
      let m' = update_run_status s.store id status now in
      let old : (x other : String) → Live s.store x other → (id ≡ x → ⊥) → Live m' x other =
        Live-other s.store id status now in
      record {
        good =
            update_run_status-Good s.store id status now (λ q' l' u. absurd (ended status t u))
              good;
        holds = tt;
        registered = λ other rs k.
            old rs.run.id other (registered other rs k) (λ e. free other rs k (ap (λ x. some x) e));
        free = λ other rs l k. cc;
        others = λ x other live apart. old x other live (λ e. apart (ap (λ x. some x) e));
        origin = λ x k. absurd (cc);
        kept = λ other rs k. inl k;
      }
