-- ===== src/Session/Runtime/Changes.antt =====
-- The active runs of a store, internal/session/memstore.go, as a run changes its status.
use nowhere_agent.Base.{
  ℕ, ◌≡◌, refl, sym, ◌∙◌, subst, arith, String, true, Option, none, some, inl, inr, str_eq, eq_iff,
  contains, if◌then◌else◌, Bool-cases, Option-cases,
}
use nowhere_agent.Base.Dict.{lookup, lookup-insert}
use nowhere_agent.Session.Types.{Run, RunStatus, active, terminal}
use nowhere_agent.Session.Store.{MemStore, update_run, update_run_status, entries}
use nowhere_agent.Session.Runtime.Actives.{Good}

-- A change of a run's status, with what else it changes.
module _ (m : MemStore) (id : String) (status : RunStatus) (now : ℕ) where
  abbrev pub changed : MemStore
  changed = update_run_status m id status now

  abbrev as_changed : Run → Run
  as_changed r = record r {
    status = status;
    finished_at = if terminal status then some now else r.finished_at;
  }

  abbrev map_changed : Option Run → Option Run
  map_changed none = none
  map_changed (some r) = some (as_changed r)

  changed-lookup :
      (i : String)
      → lookup i changed.runs
        ≡ (if str_eq id i then map_changed (lookup i m.runs) else lookup i m.runs)
  unfolding update_run_status update_run
  changed-lookup i = elim (Option-cases (lookup id m.runs)) [
    | inl e ↦ rw (update_run, e) (ground (arith, e, eq_iff id i))
    | inr (r, e) ↦
        rw (update_run, e)
          (ground (arith, e, eq_iff id i, lookup-insert id i (as_changed r) m.runs))
  ]

  pub changed-run :
      (i : String) (r : Run)
      → lookup i changed.runs ≡ some r
      → (q : Run) × (lookup i m.runs ≡ some q)
        × (q.id ≡ r.id)
        × (q.session ≡ r.session)
        × (r.status ≡ (if str_eq id i then status else q.status))
  changed-run i r l = elim (Option-cases (lookup i m.runs)) [
    | inl e ↦ absurd (ground (arith, l, e, changed-lookup i))
    | inr (q, e) ↦ (
      q,
      e,
      ground (arith, l, e, changed-lookup i),
      ground (arith, l, e, changed-lookup i),
      ground (arith, l, e, changed-lookup i),
    )
  ]

  pub kept-run :
      (i : String) (q : Run)
      → lookup i m.runs ≡ some q
      → (r : Run) × (lookup i changed.runs ≡ some r)
        × (r.session ≡ q.session)
        × (r.status ≡ (if str_eq id i then status else q.status))
  kept-run i q l = elim (Bool-cases (str_eq id i)) [
    | inl d ↦ (as_changed q, ground (arith, l, d, changed-lookup i), refl, rw d refl)
    | inr d ↦ (q, ground (arith, l, d, changed-lookup i), refl, rw d refl)
  ]

  changed-lists : changed.by_session ≡ m.by_session
  unfolding update_run_status update_run
  changed-lists = elim (Option-cases (lookup id m.runs)) [
    | inl e ↦ rw (update_run_status, update_run, e) refl
    | inr (q, e) ↦ rw (update_run_status, update_run, e) refl
  ]

  -- A status that is not active, or one for a run that is active already.
  pub update_run_status-Good :
      ((r : Run) → lookup id m.runs ≡ some r → active status ≡ true → active r.status ≡ true)
      → Good m
      → Good (update_run_status m id status now)
  update_run_status-Good h g = record {
    named = λ i r l. let (q, k, e, e', t) = changed-run i r l in sym e ∙ g.named i q k;
    listed = λ i r l.
        let (q, k, e, e', t) = changed-run i r l in rw (changed-lists, ← e') (g.listed i q k);
    real = λ i s c.
        let (q, k, e) =
          g.real i s (subst (λ ls. contains i (entries s ls) ≡ true) changed-lists c) in
        let (r, l, e', t) = kept-run i q k in (r, l, e' ∙ e);
    single = λ i j q r k l a b e.
        let (q', k', d, d', t) = changed-run i q k in
        let (r', l', f, f', u) = changed-run j r l in
        g.single i j q' r' k' l' (was_active i q' q k' t a) (was_active j r' r l' u b)
          (d' ∙ e ∙ sym f');
  }
    where
      was_active :
          (i : String) (q r : Run)
          → lookup i m.runs ≡ some q
          → r.status ≡ (if str_eq id i then status else q.status)
          → active r.status ≡ true
          → active q.status ≡ true
      was_active i q r k t a = elim (Bool-cases (str_eq id i)) [
        | inl e ↦ h q (rw ((eq_iff id i).0 e) k) (ground (arith, e, t, a))
        | inr e ↦ ground (arith, e, t, a)
      ]
