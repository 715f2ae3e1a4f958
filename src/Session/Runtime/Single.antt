-- ===== src/Session/Runtime/Single.antt =====
-- One active run for each session, and who may end it.
use nowhere_agent.Base.{
  ℕ, ◌≡◌, refl, ap, ◌∙◌, sym, subst, arith, String, Bool, true, false, some, ◌⊎◌, inl, inr, str_eq,
  eq_iff, Bool-cases,
}
use nowhere_agent.Base.Dict.{lookup, lookup-insert, lookup-delete}
use nowhere_agent.Session.Types.{Run, RunStatus, run_cancelled, active}
use nowhere_agent.Session.Store.{MemStore}
use nowhere_agent.Session.Runtime.{
  RunState, Point, numbered, registering, complete_run_for_run, captured, Env, Shared, System, Step,
  begin, proceed, go, boot, Reach, advance, release, insert_run,
}
use nowhere_agent.Session.Runtime.Actives.{Good}
use nowhere_agent.Session.Runtime.Moves.{Live, Holds, held_id}
use nowhere_agent.Session.Runtime.Invariant.{Inv, Reach-Inv}

-- However calls interleave over a store with the index, and whichever of its calls fail: no session
-- has two active runs, and a run that is in memory for a session is an active run of it in the store.
pub Reach-single :
    {store : MemStore} {s : System}
    → Good store
    → Reach true (boot store) s
    → ((i j : String) (q r : Run)
        → lookup i s.shared.store.runs ≡ some q
        → lookup j s.shared.store.runs ≡ some r
        → active q.status ≡ true
        → active r.status ≡ true
        → q.session ≡ r.session
        → i ≡ j)
      × ((session : String) (rs : RunState)
          → lookup session s.shared.runs ≡ some rs
          → Live s.shared.store rs.run.id session)
Reach-single g r = let v = Reach-Inv g r in (v.good.single, v.registered)

-- A run that starts finds no other in memory for its session.
registering-free :
    (s : System) (i : ℕ) (r : Run) (rs : RunState)
    → Inv s
    → s.calls i ≡ registering r
    → lookup r.session s.shared.runs ≡ some rs
    → ⊥
registering-free s i r rs v e l =
    let (q, k, t, d) = subst (Holds s.shared.store) e (v.holds i) in
    let (q', k', t', d') = v.registered r.session rs l in
    let same : r.id ≡ rs.run.id = v.good.single r.id rs.run.id q q' k k' t t' (d ∙ sym d') in
    v.free i r.session rs l (ap held_id e ∙ ap (λ x. some x) same)

-- The completion of that run, or the cancellation that has seen it.
abbrev pub Ends : Point → String → String → Type 0
Ends (complete_run_for_run session' id status) session x = (session' ≡ session) × (id ≡ x)
Ends (captured session' id) session x = (session' ≡ session) × (id ≡ x)
Ends _ session x = ⊥

release-keeps :
    (cancels : Bool) (session' id : String) (status : RunStatus) (s : Shared) (session : String)
    (rs : RunState)
    → lookup session s.runs ≡ some rs
    → (lookup session (release cancels session' id status s).0.runs ≡ some rs)
      ⊎ (session' ≡ session) × (id ≡ rs.run.id)
unfolding release
release-keeps cancels session' id status s session rs l =
    ground (
      arith,
      l,
      lookup-delete session' session s.runs,
      eq_iff session' session,
      eq_iff rs.run.id id,
    )

insert_run-runs :
    (env : Env) (session : String) (n : ℕ) (s : Shared)
    → (insert_run true env session n s).0.runs ≡ s.runs
unfolding insert_run
insert_run-runs env session n s = ground arith

advance-keeps :
    (env : Env) (p : Point) (s : Shared) (session : String) (rs : RunState)
    → lookup session s.runs ≡ some rs
    → (lookup session (advance true env p s).0.runs ≡ some rs)
      ⊎ Ends p session rs.run.id
      ⊎ ((r : Run) × (p ≡ registering r) × (r.session ≡ session))
unfolding advance
advance-keeps env (registering r) s session rs l = elim (Bool-cases (str_eq r.session session)) [
  | inl e ↦ inr (inr (r, refl, (eq_iff r.session session).0 e))
  | inr e ↦ inl (ground (arith, l, e, lookup-insert r.session session (record { run = r }) s.runs))
]
advance-keeps env (complete_run_for_run session' id status) s session rs l =
    elim (release-keeps false session' id status s session rs l) [
      | inl k ↦ inl k
      | inr e ↦ inr (inl e)
    ]
advance-keeps env (captured session' id) s session rs l =
    elim (release-keeps true session' id run_cancelled s session rs l) [
      | inl k ↦ inl k
      | inr e ↦ inr (inl e)
    ]
advance-keeps env (numbered session' n) s session rs l =
    inl (ground (arith, l, insert_run-runs env session' n s))
advance-keeps env _ s session rs l = inl (ground (arith, l))

-- A run that is in memory stays there, whatever the other calls do, until a call completes that very
-- run for its session, or a cancellation does that has seen it: neither the late completion of an
-- older run nor the start of another one removes it.
pub Step-keeps :
    {store : MemStore} {s t : System} (session : String) (rs : RunState)
    → Good store
    → Reach true (boot store) s
    → Step true s t
    → lookup session s.shared.runs ≡ some rs
    → (lookup session t.shared.runs ≡ some rs) ⊎ ((i : ℕ) × Ends (s.calls i) session rs.run.id)
unfolding go
Step-keeps session rs g reached (begin i p r c) l = inl l
Step-keeps {s} session rs g reached (proceed i env fresh) l =
    elim (advance-keeps env (s.calls i) s.shared session rs l) [
      | inl k ↦ inl k
      | inr (inl e) ↦ inr (i, e)
      | inr (inr (r, e, d)) ↦ absurd (registering-free s i r rs (Reach-Inv g reached) e (rw d l))
    ]
