-- ===== src/Session/Runtime/Moves.antt =====
-- What a step of a call keeps of the shared state and of the calls.
use nowhere_agent.Base.{
  ℕ, ◌≡◌, sym, ap, ◌∙◌, arith, String, true, Option, none, some, ◌⊎◌, inl, inr, str_eq, eq_iff,
  Bool-cases,
}
use nowhere_agent.Base.Dict.{lookup}
use nowhere_agent.Session.Types.{Run, RunStatus, run_running, active, terminal}
use nowhere_agent.Session.Store.{MemStore, update_run_status}
use nowhere_agent.Session.Runtime.{RunState, Point, created, registering, released, Shared}
use nowhere_agent.Session.Runtime.Actives.{Good}
use nowhere_agent.Session.Runtime.Changes.{kept-run}

-- The run that a call works on.
abbrev pub held_id : Point → Option String
held_id (created r) = some r.id
held_id (registering r) = some r.id
held_id (released cancels id status) = some id
held_id _ = none

-- The store has an active run of that id in the session.
abbrev pub Live : MemStore → String → String → Type 0
Live m id session =
    (q : Run) × (lookup id m.runs ≡ some q) × (active q.status ≡ true) × (q.session ≡ session)

abbrev pub Holds : MemStore → Point → Type 0
Holds m (created r) = Live m r.id r.session
Holds m (registering r) = Live m r.id r.session
Holds m (released cancels id status) =
    (terminal status ≡ true) × ((session : String) × Live m id session)
Holds m _ = Unit

-- The runs in memory are active in the store.
abbrev pub Registered : Shared → Type 0
Registered s =
    (session : String) (rs : RunState)
    → lookup session s.runs ≡ some rs
    → Live s.store rs.run.id session

-- No run in memory is one that the call works on.
abbrev pub Free : Shared → Point → Type 0
Free s p =
    (session : String) (rs : RunState)
    → lookup session s.runs ≡ some rs
    → held_id p ≡ some rs.run.id
    → ⊥

-- What a step from one point to the next keeps, of itself and for the other calls.
pub record Moved (s : Shared) (p : Point) (s' : Shared) (p' : Point) : Type 0 where
  pub good : Good s'.store
  pub holds : Holds s'.store p'
  pub registered : Registered s'
  pub free : Free s' p'
  pub others :
      (x session : String)
      → Live s.store x session
      → (held_id p ≡ some x → ⊥)
      → Live s'.store x session
  pub origin :
      (x : String)
      → held_id p' ≡ some x
      → (held_id p ≡ some x)
        ⊎ (lookup x s.store.runs ≡ none)
        ⊎ ((session : String) × (rs : RunState) × (lookup session s.runs ≡ some rs)
            × (rs.run.id ≡ x))
  pub kept :
      (session : String) (rs : RunState)
      → lookup session s'.runs ≡ some rs
      → (lookup session s.runs ≡ some rs) ⊎ (held_id p ≡ some rs.run.id)

-- A run is of one session.
pub Live-unique : (m : MemStore) (x a b : String) → Live m x a → Live m x b → a ≡ b
Live-unique m x a b (q, l, t, e) (r, k, u, f) =
    let same : q ≡ r = ground (arith, l, k) in sym e ∙ ap (λ (q : Run). q.session) same ∙ f

pub ended : (status : RunStatus) → terminal status ≡ true → active status ≡ true → ⊥
ended status t a = ground arith

pub Live-running :
    (m : MemStore) (id : String) (now : ℕ) (x session : String)
    → Live m x session
    → Live (update_run_status m id run_running now) x session
Live-running m id now x session (q, l, t, e) =
    let (r, k, f, u) = kept-run m id run_running now x q l in (r, k, ground (arith, t, u), f ∙ e)

pub Live-other :
    (m : MemStore) (id : String) (status : RunStatus) (now : ℕ) (x session : String)
    → Live m x session
    → (id ≡ x → ⊥)
    → Live (update_run_status m id status now) x session
Live-other m id status now x session (q, l, t, e) apart =
    let (r, k, f, u) = kept-run m id status now x q l in
    (
      r,
      k,
      (elim (Bool-cases (str_eq id x)) [
        | inl same ↦ absurd (apart ((eq_iff id x).0 same))
        | inr other ↦ ground (arith, t, u, other)
      ]),
      f ∙ e,
    )
