-- ===== src/Session/Runtime/Lost.antt =====
-- What a failure of the store leaves behind.
use nowhere_agent.Base.{
  ℕ, ◌==◌, ◌≡◌, refl, ap, ◌∙◌, sym, subst, arith, String, true, false, none, some, inl, inr,
  Bool-cases, Option-cases,
}
use nowhere_agent.Base.Dict.{lookup}
use nowhere_agent.Session.Store.{MemStore}
use nowhere_agent.Session.Runtime.{
  RunState, Point, created, released, Env, Shared, System, Step, begin, proceed, go, boot, Reach,
  here, next, advance,
}
use nowhere_agent.Session.Runtime.Actives.{Good}
use nowhere_agent.Session.Runtime.Moves.{Live, Holds, held_id}
use nowhere_agent.Session.Runtime.Invariant.{Inv, Reach-Inv, Step-Inv, moved, go-Inv, IsCall-idle}

-- A run that is active in the store, and that no call and no entry in memory knows.
record Lost (x session : String) (s : System) : Type 0 where
  live : Live s.shared.store x session
  unheld : (t : ℕ) → held_id (s.calls t) ≡ some x → ⊥
  absent :
      (other : String) (rs : RunState) → lookup other s.shared.runs ≡ some rs → rs.run.id ≡ x → ⊥

Step-Lost :
    {s t : System} (x session : String)
    → Inv s
    → Step true s t
    → Lost x session s
    → Lost x session t
unfolding go
Step-Lost {s} x session v (begin i p r c) h = record {
  live = h.live;
  unheld = λ t. elim (Bool-cases (i == t)) [
    | inl e ↦ rw (e, IsCall-idle p c) (λ k. cc)
    | inr e ↦ rw e (h.unheld t)
  ];
  absent = h.absent;
}
Step-Lost {s} x session v (proceed i env fresh) h =
    let m = moved i env s fresh v in
    let mine = λ (k : held_id (advance true env (s.calls i) s.shared).1 ≡ some x).
      elim (m.origin x k) as (λ o. ⊥) [
        | inl old ↦ h.unheld i old
        | inr (inl new) ↦ ground (arith, new, h.live.1)
        | inr (inr (other, rs, l, e)) ↦ h.absent other rs l e
      ] in
    record {
      live = m.others x session h.live (h.unheld i);
      unheld = λ t. elim (Bool-cases (i == t)) [ inl e ↦ rw e mine | inr e ↦ rw e (h.unheld t) ];
      absent = λ other rs l e. elim (m.kept other rs l) [
        | inl old ↦ h.absent other rs old e
        | inr held ↦ h.unheld i (held ∙ ap (λ y. some y) e)
      ];
    }

-- A call that is about to write the status of a run.
abbrev pub Awaits : Point → String → Type 0
Awaits (created r) x = r.id ≡ x
Awaits (released cancels id status) x = id ≡ x
Awaits _ x = ⊥

Awaits-held : (p : Point) (x : String) → Awaits p x → held_id p ≡ some x
Awaits-held (created r) x e = ap (λ y. some y) e
Awaits-held (released cancels id status) x e = ap (λ y. some y) e
Awaits-held _ x e = absurd e

Awaits-fails :
    (p : Point) (x : String) (env : Env) (s : Shared)
    → Awaits p x
    → env.answers ≡ false
    → ((advance true env p s).0 ≡ s) × (held_id (advance true env p s).1 ≡ none)
unfolding advance
Awaits-fails (created r) x env s a e = rw e (refl, refl)
Awaits-fails (released cancels id status) x env s a e = rw e (refl, refl)
Awaits-fails _ x env s a e = absurd a

Awaits-Live :
    (m : MemStore) (p : Point) (x : String)
    → Awaits p x
    → Holds m p
    → (session : String) × Live m x session
Awaits-Live m (created r) x e h = (r.session, subst (λ y. Live m y r.session) e h)
Awaits-Live m (released cancels id status) x e h = (h.1.0, subst (λ y. Live m y h.1.0) e h.1.1)
Awaits-Live m _ x e h = absurd e

fails-Lost :
    (i : ℕ) (x : String) (env : Env) (s : System)
    → Inv s
    → Awaits (s.calls i) x
    → env.answers ≡ false
    → (session : String) × Lost x session (go true i env s)
unfolding go
fails-Lost i x env s v a e =
    let (same, dropped) = Awaits-fails (s.calls i) x env s.shared a e in
    let (session, live) = Awaits-Live s.shared.store (s.calls i) x a (v.holds i) in
    let held = Awaits-held (s.calls i) x a in
    (
      session,
      record {
        live = rw same live;
        unheld = λ t. elim (Bool-cases (i == t)) [
          | inl d ↦ rw (d, dropped) (λ k. cc)
          | inr d ↦ rw d (λ k. ground (arith, d, v.apart i t x held k))
        ];
        absent = λ other rs l d.
            v.free i other rs (subst (λ (s : Shared). lookup other s.runs ≡ some rs) same l)
              (held ∙ ap (λ y. some y) (sym d));
      },
    )

Reach-Lost :
    {s t : System} (x session : String)
    → Inv s
    → Lost x session s
    → Reach true s t
    → Inv t × Lost x session t
Reach-Lost x session v h here = (v, h)
Reach-Lost x session v h (next r st) =
    let (w, k) = Reach-Lost x session v h r in (Step-Inv st w, Step-Lost x session w st k)

-- Where the store fails a call that writes the status of a run, when it has been created or when it
-- has been taken out of memory, the run's session is blocked for good: in every state that this
-- process reaches from there that run is active in the store, nothing is in memory for its session, so
-- that nothing of it can be completed or cancelled, and no call works on an active run of it, so that
-- none is being started either.
pub store_failure-blocks :
    {store : MemStore} {s t : System} (i : ℕ) (x : String) (env : Env)
    → Good store
    → Reach true (boot store) s
    → Awaits (s.calls i) x
    → env.answers ≡ false
    → lookup env.fresh_id s.shared.store.runs ≡ none
    → Reach true (go true i env s) t
    → (session : String) × Live t.shared.store x session
      × (lookup session t.shared.runs ≡ none)
      × ((j : ℕ) (y : String) → held_id (t.calls j) ≡ some y → Live t.shared.store y session → ⊥)
store_failure-blocks {store} {s} {t} i x env g reached a e fresh later =
    let v = Reach-Inv g reached in
    let (session, lost) = fails-Lost i x env s v a e in
    let (w, h) = Reach-Lost x session (go-Inv i env s fresh v) lost later in
    let only : (y : String) → Live t.shared.store y session → y ≡ x = λ y other.
      w.good.single y x other.0 h.live.0 other.1 h.live.1 other.2 h.live.2
        (other.3 ∙ sym h.live.3) in
    (
      session,
      h.live,
      (elim (Option-cases (lookup session t.shared.runs)) [
        | inl e ↦ e
        | inr (rs, e) ↦ absurd (h.absent session rs e (only rs.run.id (w.registered session rs e)))
      ]),
      (λ j y k other. h.unheld j (k ∙ ap (λ y. some y) (only y other))),
    )
