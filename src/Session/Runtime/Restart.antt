-- ===== src/Session/Runtime/Restart.antt =====
-- A session takes the next run once the one before is settled.
use nowhere_agent.Base.{
  ℕ, suc, ◌≡◌, refl, ◌∙◌, sym, arith, String, true, false, none, some, inl, inr, str_eq, eq_iff,
  eq_refl, Bool-cases, Option-cases,
}
use nowhere_agent.Base.Dict.{lookup, insert, delete, lookup-insert, lookup-delete}
use nowhere_agent.Session.Types.{
  Session, Run, RunStatus, run_running, active, terminal, is_active, ok,
}
use nowhere_agent.Session.Store.{
  MemStore, get_session, active_run, next_run_seq, create_run, update_run, update_run_status,
}
use nowhere_agent.Session.Runtime.{
  RunState, Point, start_run, complete_run_for_run, found, unlocked, inactive, numbered, created,
  registering, released, returned, started, completed, Env, Shared, System, boot, Reach, advance,
  release, insert_run, alone,
}
use nowhere_agent.Session.Runtime.Actives.{Good, new_run, store_after, none-active_run}
use nowhere_agent.Session.Runtime.Changes.{changed-run, update_run_status-Good}
use nowhere_agent.Session.Runtime.Moves.{ended}
use nowhere_agent.Session.Runtime.Invariant.{Inv, Reach-Inv}

-- The run as `StartRun` returns it.
abbrev pub started_run : MemStore → Env → String → Run
started_run m env session =
    record (new_run m env.fresh_id session (next_run_seq m session) env.now) {
      status = run_running;
    }

alone_step :
    (env : Env) (n : ℕ) (p p' : Point) (s s' : Shared)
    → advance true env p s ≡ (s', p')
    → alone true env (suc n) p s ≡ alone true env n p' s'
unfolding alone
alone_step env n p p' s s' e = rw e refl

-- The state after a start with nothing in its way.
abbrev started_state : Shared → Env → String → Shared
started_state s env session =
    let r = started_run s.store env session in
    let m = store_after s.store env.fresh_id session (next_run_seq s.store session) env.now in
    record {
      store = update_run_status m env.fresh_id run_running env.now;
      runs = insert session (record { run = r }) s.runs;
    }

start-alone :
    (env : Env) (session : String) (s : Shared) (ss : Session)
    → env.answers ≡ true
    → get_session s.store session ≡ ok ss
    → is_active ss.status ≡ true
    → lookup session s.runs ≡ none
    → active_run s.store session ≡ none
    → alone true env 7 (start_run session) s
      ≡ (started_state s env session, returned (started (started_run s.store env session)))
unfolding advance insert_run alone create_run
start-alone env session s ss a g i l n =
    let k = next_run_seq s.store session in
    let q = new_run s.store env.fresh_id session k env.now in
    let s1 : Shared = record s { store = store_after s.store env.fresh_id session k env.now } in
    let s2 : Shared = record s1 { store = update_run_status s1.store q.id run_running env.now } in
    alone_step env 6 (start_run session) (found session) s s (rw (a, g, i) refl)
    ∙ alone_step env 5 (found session) (unlocked session) s s (rw (advance, l) refl)
    ∙ alone_step env 4 (unlocked session) (inactive session) s s (rw (advance, a, n) refl)
    ∙ alone_step env 3 (inactive session) (numbered session k) s s (rw a refl)
    ∙ alone_step env 2 (numbered session k) (created q) s s1 (rw (advance, a, insert_run, n) refl)
    ∙ alone_step env 1 (created q) (registering (record q { status = run_running })) s1 s2
        (rw a refl)

complete-alone :
    (env : Env) (session : String) (rs : RunState) (status : RunStatus) (s : Shared)
    → env.answers ≡ true
    → terminal status ≡ true
    → lookup session s.runs ≡ some rs
    → alone true env 2 (complete_run_for_run session rs.run.id status) s ≡ (
      record {
        store = update_run_status s.store rs.run.id status env.now;
        runs = delete session s.runs;
      },
      returned completed,
    )
unfolding advance release alone
complete-alone env session rs status s a t l =
    let s1 : Shared = record s { runs = delete session s.runs } in
    alone_step env 1 (complete_run_for_run session rs.run.id status)
      (released false rs.run.id status) s s1 (rw (release, t, l, eq_refl rs.run.id) refl)
    ∙ alone_step env 0 (released false rs.run.id status) (returned completed) s1
        (record s1 { store = update_run_status s.store rs.run.id status env.now }) (rw a refl)

update_run_status-get_session :
    (m : MemStore) (id : String) (status : RunStatus) (now : ℕ) (session : String)
    → get_session (update_run_status m id status now) session ≡ get_session m session
unfolding update_run_status get_session update_run
update_run_status-get_session m id status now session = elim (Option-cases (lookup id m.runs)) [
  | inl e ↦ rw (update_run, e) refl
  | inr (r, e) ↦ rw (update_run, e) refl
]

-- No run of the session is active after the completion.
settled-idle :
    (s : System) (session : String) (rs : RunState) (status : RunStatus) (env : Env)
    → Inv s
    → terminal status ≡ true
    → lookup session s.shared.runs ≡ some rs
    → (i : String) (r : Run)
    → lookup i (update_run_status s.shared.store rs.run.id status env.now).runs ≡ some r
    → r.session ≡ session
    → active r.status ≡ false
settled-idle s session rs status env v t l i r k e =
    let (q, k', d, d', u) = changed-run s.shared.store rs.run.id status env.now i r k in
    let (x, lx, tx, ex) = v.registered session rs l in
    elim (Bool-cases (str_eq rs.run.id i)) [
      | inl same ↦ ground (arith, u, same, ended status t)
      | inr other ↦ elim (Bool-cases (active q.status)) [
        | inl busy ↦
            let one = v.good.single rs.run.id i x q lx k' tx busy (ex ∙ sym (d' ∙ e)) in
            ground (arith, one, other, eq_iff rs.run.id i)
        | inr idle ↦ ground (arith, u, other, idle)
      ]
    ]

-- A run that is in memory can be settled, and the session then takes another one: from every
-- reachable state in which the session has not ended, the completion of its run, with no call in
-- between and a store that answers, returns, and a start after it returns a new running run, which is
-- then in memory for the session.
pub complete-start :
    {store : MemStore} {s : System} (session : String) (rs : RunState) (ss : Session)
    (status : RunStatus) (env env' : Env)
    → Good store
    → Reach true (boot store) s
    → lookup session s.shared.runs ≡ some rs
    → get_session s.shared.store session ≡ ok ss
    → is_active ss.status ≡ true
    → terminal status ≡ true
    → env.answers ≡ true
    → env'.answers ≡ true
    → let (s', p) = alone true env 2 (complete_run_for_run session rs.run.id status) s.shared in
      let (s'', q) = alone true env' 7 (start_run session) s' in
      (p ≡ returned completed)
      × ((r : Run) × (q ≡ returned (started r))
          × (r.session ≡ session)
          × (r.status ≡ run_running)
          × (lookup session s''.runs ≡ some (record { run = r })))
complete-start {store} {s} session rs ss status env env' g reached l i open_session t a a' =
    let v = Reach-Inv g reached in
    let id = rs.run.id in
    let m = update_run_status s.shared.store id status env.now in
    let s' : Shared = record { store = m; runs = delete session s.shared.runs } in
    let done = complete-alone env session rs status s.shared a t l in
    let good : Good m =
      update_run_status-Good s.shared.store id status env.now (λ r k u. absurd (ended status t u))
        v.good in
    let idle : active_run m session ≡ none =
      none-active_run m session good (settled-idle s session rs status env v t l) in
    let gone : lookup session s'.runs ≡ none =
      ground (arith, lookup-delete session session s.shared.runs, eq_refl session) in
    let same : get_session m session ≡ ok ss =
      update_run_status-get_session s.shared.store id status env.now session ∙ i in
    let r = started_run m env' session in
    let begun = start-alone env' session s' ss a' same open_session gone idle in
    rw (done, begun)
      (
        refl,
        (
          r,
          refl,
          (unfold create_run in refl),
          refl,
          ground
              (arith, lookup-insert session session (record { run = r }) s'.runs, eq_refl session),
        ),
      )
