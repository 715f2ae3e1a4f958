-- ===== src/Session/Runtime/Actives.antt =====
-- The active runs of a store, internal/session/memstore.go, as runs are created.
use nowhere_agent.Base.{
  ℕ, ◌≡◌, refl, sym, ap, ◌∙◌, subst, arith, String, true, false, ◌&&◌, ◌||◌, List, [], ◌∷◌, ◌++◌,
  none, some, ◌⊎◌, inl, inr, str_eq, eq_iff, eq_refl, contains, if◌then◌else◌, Bool-cases,
  Option-cases,
}
use nowhere_agent.Base.Dict.{Dict, lookup, lookup-insert}
use nowhere_agent.Session.Types.{Run, active}
use nowhere_agent.Session.Store.{
  MemStore, create_run, runs_of, runs_for_session, first_active, active_run, entries,
  entries-insert,
}

-- The lists of ids by session and the map of runs fit together, and no session has two active runs.
pub record Good (m : MemStore) : Type 0 where
  pub named : (i : String) (r : Run) → lookup i m.runs ≡ some r → r.id ≡ i
  pub listed :
      (i : String) (r : Run)
      → lookup i m.runs ≡ some r
      → contains i (entries r.session m.by_session) ≡ true
  pub real :
      (i session : String)
      → contains i (entries session m.by_session) ≡ true
      → (r : Run) × (lookup i m.runs ≡ some r) × (r.session ≡ session)
  pub single :
      (i j : String) (q r : Run)
      → lookup i m.runs ≡ some q
      → lookup j m.runs ≡ some r
      → active q.status ≡ true
      → active r.status ≡ true
      → q.session ≡ r.session
      → i ≡ j

-- Where the store finds no active run, no listed run is active.
none-active :
    (runs : Dict Run) (ids : List String) (i : String) (r : Run)
    → first_active (runs_of runs ids) ≡ none
    → contains i ids ≡ true
    → lookup i runs ≡ some r
    → active r.status ≡ false
unfolding runs_of
none-active runs [] i r n c l = cc
none-active runs (j ∷ ids) i r n c l = ground (arith, n, c, l, eq_iff j i, none-active runs ids i r)

active-none :
    (runs : Dict Run) (ids : List String)
    → ((i : String) (r : Run)
        → contains i ids ≡ true
        → lookup i runs ≡ some r
        → active r.status ≡ false)
    → first_active (runs_of runs ids) ≡ none
unfolding runs_of
active-none runs [] h = refl
active-none runs (j ∷ ids) h =
    let rest = active-none runs ids (λ i r c. h i r (ground (arith, c))) in
    elim (Option-cases (lookup j runs)) [
      | inl e ↦ rw (runs_of, e) rest
      | inr (r, e) ↦ rw (runs_of, e, h j r (ground (arith, eq_refl j)) e) rest
    ]

pub active_run-none :
    (m : MemStore) (session : String) (i : String) (r : Run)
    → Good m
    → active_run m session ≡ none
    → lookup i m.runs ≡ some r
    → r.session ≡ session
    → active r.status ≡ false
unfolding active_run runs_for_session
active_run-none m session i r g n l e =
    none-active m.runs (entries session m.by_session) i r n
      (subst (λ s. contains i (entries s m.by_session) ≡ true) e (g.listed i r l)) l

pub none-active_run :
    (m : MemStore) (session : String)
    → Good m
    → ((i : String) (r : Run)
        → lookup i m.runs ≡ some r
        → r.session ≡ session
        → active r.status ≡ false)
    → active_run m session ≡ none
unfolding active_run runs_for_session
none-active_run m session g h =
    active-none m.runs (entries session m.by_session)
      (λ i r c l. let (q, l', e) = g.real i session c in h i r l (ground (arith, l, l', e)))

contains-append :
    (i j : String) (ids : List String) → contains i (ids ++ j ∷ []) ≡ (contains i ids || str_eq j i)
contains-append i j [] = ground arith
contains-append i j (k ∷ ids) = ground (arith, contains-append i j ids)

-- A run that is there after a creation is the new one, or it was there.
module _ (m : MemStore) (id session : String) (seq now : ℕ) where
  abbrev pub store_after : MemStore
  store_after = (create_run m id session seq now).0

  abbrev pub new_run : Run
  new_run = (create_run m id session seq now).1

  created-cases :
      (i : String) (r : Run)
      → lookup i store_after.runs ≡ some r
      → ((id ≡ i) × (new_run ≡ r)) ⊎ (lookup i m.runs ≡ some r)
  unfolding create_run
  created-cases i r l =
      let law = lookup-insert id i new_run m.runs in
      elim (Bool-cases (str_eq id i)) [
        | inl e ↦ inl ((eq_iff id i).0 e, ground (arith, l, law, e))
        | inr e ↦ inr (ground (arith, l, law, e))
      ]

  created-entries :
      (s : String)
      → entries s store_after.by_session ≡ (
          if str_eq session s
          then entries session m.by_session ++ id ∷ []
          else entries s m.by_session)
  unfolding create_run
  created-entries s =
      entries-insert session s (entries session m.by_session ++ id ∷ []) m.by_session

  created-listed :
      (i s : String)
      → contains i (entries s store_after.by_session)
        ≡ (contains i (entries s m.by_session) || str_eq session s && str_eq id i)
  created-listed i s = ground (
    arith,
    created-entries s,
    contains-append i id (entries session m.by_session),
    eq_iff session s,
  )

  pub created-kept :
      (i : String) (r : Run)
      → lookup id m.runs ≡ none
      → lookup i m.runs ≡ some r
      → lookup i store_after.runs ≡ some r
  unfolding create_run
  created-kept i r fresh l =
      ground (arith, fresh, l, lookup-insert id i new_run m.runs, eq_iff id i)

  pub created-new : lookup id store_after.runs ≡ some new_run
  unfolding create_run
  created-new = ground (arith, lookup-insert id id new_run m.runs, eq_refl id)

  -- A new run of a session with no active run.
  pub create_run-Good :
      lookup id m.runs ≡ none
      → active_run m session ≡ none
      → Good m
      → Good (create_run m id session seq now).0
  unfolding create_run
  create_run-Good fresh idle g = record {
    named = λ i r l. elim (created-cases i r l) [
      | inl (e, d) ↦ subst (λ (q : Run). q.id ≡ i) d e
      | inr k ↦ g.named i r k
    ];
    listed = λ i r l. elim (created-cases i r l) [
      | inl (e, d) ↦
          subst (λ (q : Run). contains i (entries q.session store_after.by_session) ≡ true) d
            (rw (created-listed i session, e, eq_refl session, eq_refl i) (ground arith))
      | inr k ↦ rw (created-listed i r.session, g.listed i r k) refl
    ];
    real = λ i s c. elim (Bool-cases (contains i (entries s m.by_session))) [
      | inl old ↦ let (r, k, e) = g.real i s old in (r, created-kept i r fresh k, e)
      | inr new ↦
          let both : (session ≡ s) × (id ≡ i) =
            ground (arith, c, created-listed i s, new, eq_iff session s, eq_iff id i) in
          (
            new_run,
            subst (λ k. lookup k store_after.runs ≡ some new_run) both.1 created-new,
            both.0,
          )
    ];
    single = λ i j q r k l a b e. elim (created-cases i q k) [
      | inl (d, x) ↦ elim (created-cases j r l) [
        | inl (d', x') ↦ sym d ∙ d'
        | inr l' ↦ absurd (
            ground (
              arith,
              b,
              active_run-none m session j r g idle l' (sym e ∙ ap (λ (x : Run). x.session) (sym x)),
            ))
      ]
      | inr k' ↦ elim (created-cases j r l) [
        | inl (d', x') ↦ absurd (
            ground (
              arith,
              a,
              active_run-none m session i q g idle k' (e ∙ ap (λ (x : Run). x.session) (sym x')),
            ))
        | inr l' ↦ g.single i j q r k' l' a b e
      ]
    ];
  }
