-- ===== src/Session/Runtime/Invariant.antt =====
-- What holds in every reachable state of the runtime.
use nowhere_agent.Base.{
  ℕ, ◌==◌, ◌≡◌, refl, sym, ap, ◌∙◌, arith, String, true, false, none, some, inl, inr, Bool-cases,
}
use nowhere_agent.Base.Dict.{lookup}
use nowhere_agent.Session.Store.{MemStore}
use nowhere_agent.Session.Runtime.{
  RunState, Point, start_run, complete_run_for_run, cancel_run, created, registering, released, Env,
  Shared, advance,
}
use nowhere_agent.Session.Runtime.Actives.{Good}
use nowhere_agent.Session.Runtime.{
  System, Step, begin, proceed, update, go, boot, Reach, here, next, IsCall,
}
use nowhere_agent.Session.Runtime.Moves.{held_id, Live, Holds, Registered, Free, Moved}
use nowhere_agent.Session.Runtime.Advance.{advance-Moved}

-- In every state: the store is good, each call has what it works on, what is in memory is active in
-- the store, and no two calls, and no call and the memory, have the same run.
pub record Inv (s : System) : Type 0 where
  pub good : Good s.shared.store
  pub holds : (t : ℕ) → Holds s.shared.store (s.calls t)
  pub registered : Registered s.shared
  pub apart :
      (t u : ℕ) (x : String) → held_id (s.calls t) ≡ some x → held_id (s.calls u) ≡ some x → t ≡ u
  pub free : (t : ℕ) → Free s.shared (s.calls t)

-- A call that begins works on no run.
pub IsCall-idle : (p : Point) → IsCall p → held_id p ≡ none
IsCall-idle (start_run session) c = refl
IsCall-idle (complete_run_for_run session id status) c = refl
IsCall-idle (cancel_run session) c = refl
IsCall-idle _ c = absurd c

Holds-idle : (m : MemStore) (p : Point) → held_id p ≡ none → Holds m p
Holds-idle m (created r) e = cc
Holds-idle m (registering r) e = cc
Holds-idle m (released cancels id status) e = cc
Holds-idle m _ e = tt

-- A call still has what it works on after the step of another one.
Holds-others :
    (m m' : MemStore) (p q : Point)
    → ((x session : String) → Live m x session → (held_id p ≡ some x → ⊥) → Live m' x session)
    → ((x : String) → held_id p ≡ some x → held_id q ≡ some x → ⊥)
    → Holds m q
    → Holds m' q
Holds-others m m' p (created r) keep apart h = keep r.id r.session h (λ e. apart r.id e refl)
Holds-others m m' p (registering r) keep apart h = keep r.id r.session h (λ e. apart r.id e refl)
Holds-others m m' p (released cancels id status) keep apart h =
    (h.0, (h.1.0, keep id h.1.0 h.1.1 (λ e. apart id e refl)))
Holds-others m m' p _ keep apart h = tt

-- The run that a call works on is in the store.
Holds-known :
    (m : MemStore) (p : Point) (x : String)
    → Holds m p
    → held_id p ≡ some x
    → lookup x m.runs ≡ none
    → ⊥
Holds-known m (created r) x h e n = let (q, l, t, d) = h in ground (arith, l, e, n)
Holds-known m (registering r) x h e n = let (q, l, t, d) = h in ground (arith, l, e, n)
Holds-known m (released cancels id status) x h e n =
    let (q, l, t, d) = h.1.1 in ground (arith, l, e, n)
Holds-known m _ x h e n = cc

module _ (i : ℕ) (env : Env) (s : System) (fresh : lookup env.fresh_id s.shared.store.runs ≡ none)
    (v : Inv s) where
  abbrev pub after : Shared × Point
  after = advance true env (s.calls i) s.shared

  pub moved : Moved s.shared (s.calls i) after.0 after.1
  moved = advance-Moved s.shared v.good v.registered env (s.calls i) fresh (v.holds i) (v.free i)

  -- The others had other runs than the call, and than it has now.
  apart_before :
      (u : ℕ) (x : String)
      → (i == u) ≡ false
      → held_id (s.calls i) ≡ some x
      → held_id (s.calls u) ≡ some x
      → ⊥
  apart_before u x other k l = ground (arith, other, v.apart i u x k l)

  apart_after :
      (u : ℕ) (x : String)
      → (i == u) ≡ false
      → held_id after.1 ≡ some x
      → held_id (s.calls u) ≡ some x
      → ⊥
  apart_after u x other k l = elim (moved.origin x k) [
    | inl old ↦ apart_before u x other old l
    | inr (inl new) ↦ Holds-known s.shared.store (s.calls u) x (v.holds u) l new
    | inr (inr (session, rs, m, e)) ↦ v.free u session rs m (l ∙ ap (λ x. some x) (sym e))
  ]

  free_after :
      (u : ℕ) (session : String) (rs : RunState)
      → (i == u) ≡ false
      → lookup session after.0.runs ≡ some rs
      → held_id (s.calls u) ≡ some rs.run.id
      → ⊥
  free_after u session rs other l k = elim (moved.kept session rs l) [
    | inl old ↦ v.free u session rs old k
    | inr mine ↦ apart_before u rs.run.id other mine k
  ]

  pub go-Inv : Inv (go true i env s)
  unfolding go
  go-Inv = record {
    good = moved.good;
    holds = λ t. elim (Bool-cases (i == t)) [
      | inl e ↦ rw e moved.holds
      | inr e ↦ rw e (
          Holds-others s.shared.store after.0.store (s.calls i) (s.calls t) moved.others
            (λ x. apart_before t x e) (v.holds t))
    ];
    registered = moved.registered;
    apart = λ t u x. elim (Bool-cases (i == t)) [
      | inl e ↦ elim (Bool-cases (i == u)) [
        | inl f ↦ λ k l. ground (arith, e, f)
        | inr f ↦ rw (e, f) (λ k l. absurd (apart_after u x f k l))
      ]
      | inr e ↦ elim (Bool-cases (i == u)) [
        | inl f ↦ rw (e, f) (λ k l. absurd (apart_after t x e l k))
        | inr f ↦ rw (e, f) (v.apart t u x)
      ]
    ];
    free = λ t session rs l. elim (Bool-cases (i == t)) [
      | inl e ↦ rw e (moved.free session rs l)
      | inr e ↦ rw e (free_after t session rs e l)
    ];
  }

begin-Inv :
    (i : ℕ) (p : Point) (s : System)
    → IsCall p
    → Inv s
    → Inv (record s { calls = update s.calls i p })
begin-Inv i p s c v =
    let idle = IsCall-idle p c in
    record {
      good = v.good;
      holds = λ t. elim (Bool-cases (i == t)) [
        | inl e ↦ rw e (Holds-idle s.shared.store p idle)
        | inr e ↦ rw e (v.holds t)
      ];
      registered = v.registered;
      apart = λ t u x. elim (Bool-cases (i == t)) [
        | inl e ↦ rw e (λ k l. cc)
        | inr e ↦ elim (Bool-cases (i == u)) [
          | inl f ↦ rw (e, f) (λ k l. cc)
          | inr f ↦ rw (e, f) (v.apart t u x)
        ]
      ];
      free = λ t session rs l. elim (Bool-cases (i == t)) [
        | inl e ↦ rw e (λ k. cc)
        | inr e ↦ rw e (v.free t session rs l)
      ];
    }

boot-Inv : (store : MemStore) → Good store → Inv (boot store)
unfolding lookup
boot-Inv store g = record {
  good = g;
  holds = λ t. tt;
  registered = λ session rs l. cc;
  apart = λ t u x k l. cc;
  free = λ t session rs l k. cc;
}

pub Step-Inv : {s t : System} → Step true s t → Inv s → Inv t
Step-Inv {s} (begin i p r c) v = begin-Inv i p s c v
Step-Inv {s} (proceed i env fresh) v = go-Inv i env s fresh v

pub Reach-Inv : {store : MemStore} {s : System} → Good store → Reach true (boot store) s → Inv s
Reach-Inv {store} g here = boot-Inv store g
Reach-Inv g (next r st) = Step-Inv st (Reach-Inv g r)
