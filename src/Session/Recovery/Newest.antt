-- ===== src/Session/Recovery/Newest.antt =====
-- Which batch the registry folds before a submission.
use nowhere_agent.Base.{
  ℕ, ◌≡◌, ◌≤◌, refl, subst, arith, String, Bool, true, false, List, [], ◌∷◌, Option, none, some,
  All, Bool-cases, inl, inr, if◌then◌else◌, ◌⊎◌,
}
use nowhere_agent.Session.Types.{Run}
use nowhere_agent.Session.Orders.{insert_by, sort_by}
use nowhere_agent.Session.Store.{MemStore, runs_for_session}
use nowhere_agent.Session.Gate.{suspended_batches_for_session}
use nowhere_agent.Session.Recovery.{by_run, is_ready, first_ready, newer, decided_but_unfolded_run}

module _ (P : Run → Type 0) where
  insert_by-All : (r : Run) (rs : List Run) → P r → All P rs → All P (insert_by newer r rs)
  unfolding insert_by
  insert_by-All r [] p ps = (p, tt)
  insert_by-All r (q ∷ rs) p ps = elim (Bool-cases (newer q r)) [
    | inl e ↦ rw e (ps.0, insert_by-All r rs p ps.1)
    | inr e ↦ rw e (p, ps)
  ]

  sort_by-All : (rs : List Run) → All P rs → All P (sort_by newer rs)
  unfolding sort_by
  sort_by-All [] ps = tt
  sort_by-All (r ∷ rs) ps = insert_by-All r (sort_by newer rs) ps.0 (sort_by-All rs ps.1)

  All-insert_by : (r : Run) (rs : List Run) → All P (insert_by newer r rs) → P r × All P rs
  unfolding insert_by
  All-insert_by r [] ps = ps
  All-insert_by r (q ∷ rs) ps = elim (Bool-cases (newer q r)) [
    | inl e ↦
        let qs : P q × All P (insert_by newer r rs) =
          subst (λ b. All P (if b then q ∷ insert_by newer r rs else r ∷ q ∷ rs)) e ps in
        let (p, rest) = All-insert_by r rs qs.1 in (p, (qs.0, rest))
    | inr e ↦ subst (λ b. All P (if b then q ∷ insert_by newer r rs else r ∷ q ∷ rs)) e ps
  ]

  All-sort_by : (rs : List Run) → All P (sort_by newer rs) → All P rs
  unfolding sort_by
  All-sort_by [] ps = tt
  All-sort_by (r ∷ rs) ps =
      let (p, rest) = All-insert_by r (sort_by newer rs) ps in (p, All-sort_by rs rest)

-- From the newest to the oldest.
abbrev Falling : List Run → Type 0
Falling [] = Unit
Falling (r ∷ rs) = All (λ q. q.seq ≤ r.seq) rs × Falling rs

All-mono : (n k : ℕ) (rs : List Run) → n ≤ k → All (λ q. q.seq ≤ n) rs → All (λ q. q.seq ≤ k) rs
All-mono n k [] h ps = tt
All-mono n k (q ∷ rs) h ps = (omega (arith, ps.0), All-mono n k rs h ps.1)

insert_by-Falling : (r : Run) (rs : List Run) → Falling rs → Falling (insert_by newer r rs)
unfolding insert_by
insert_by-Falling r [] f = (tt, tt)
insert_by-Falling r (q ∷ rs) f = elim (Bool-cases (newer q r)) [
  | inl e ↦
      rw e (
        insert_by-All (λ x. x.seq ≤ q.seq) r rs (ground (arith, e)) f.0,
        insert_by-Falling r rs f.1,
      )
  | inr e ↦ rw e ((ground (arith, e), All-mono q.seq r.seq rs (ground (arith, e)) f.0), f)
]

sort_by-Falling : (rs : List Run) → Falling (sort_by newer rs)
unfolding sort_by
sort_by-Falling [] = tt
sort_by-Falling (r ∷ rs) = insert_by-Falling r (sort_by newer rs) (sort_by-Falling rs)

-- The run is one of the list.
abbrev pub Among : Run → List Run → Type 0
Among r [] = ⊥
Among r (q ∷ qs) = (q ≡ r) ⊎ Among r qs

All-Among : (P : Run → Type 0) (r : Run) (rs : List Run) → All P rs → Among r rs → P r
All-Among P r [] ps m = absurd m
All-Among P r (q ∷ rs) ps (inl e) = subst P e ps.0
All-Among P r (q ∷ rs) ps (inr m) = All-Among P r rs ps.1 m

All-inr : (q : Run) (rs xs : List Run) → All (λ r. Among r rs) xs → All (λ r. Among r (q ∷ rs)) xs
All-inr q rs [] ps = tt
All-inr q rs (x ∷ xs) ps = (inr ps.0, All-inr q rs xs ps.1)

Among-all : (rs : List Run) → All (λ r. Among r rs) rs
Among-all [] = tt
Among-all (r ∷ rs) = (inl refl, All-inr r rs rs (Among-all rs))

-- What a scan for a run that is ready is to find in a list: the newest of those, if there is one.
abbrev pub Newest : (Run → Bool) → List Run → Option Run → Type 0
Newest ready rs none = All (λ r. ready r ≡ false) rs
Newest ready rs (some r) =
    (ready r ≡ true) × Among r rs × All (λ q. ready q ≡ true → q.seq ≤ r.seq) rs

bounded :
    (ready : Run → Bool) (n : ℕ) (rs : List Run)
    → All (λ q. q.seq ≤ n) rs
    → All (λ q. ready q ≡ true → q.seq ≤ n) rs
bounded ready n [] ps = tt
bounded ready n (q ∷ rs) ps = ((λ e. ps.0), bounded ready n rs ps.1)

first_ready-Newest :
    (ready : Run → Bool) (rs : List Run) → Falling rs → Newest ready rs (first_ready ready rs)
unfolding first_ready
first_ready-Newest ready [] f = tt
first_ready-Newest ready (r ∷ rs) f = elim (Bool-cases (ready r)) [
  | inl e ↦ rw e (e, inl refl, ((λ t. omega arith), bounded ready r.seq rs f.0))
  | inr e ↦ rw e (later ready r rs (first_ready ready rs) e (first_ready-Newest ready rs f.1))
]
  where
    later :
        (ready : Run → Bool) (r : Run) (rs : List Run) (o : Option Run)
        → ready r ≡ false
        → Newest ready rs o
        → Newest ready (r ∷ rs) o
    later ready r rs none e h = (e, h)
    later ready r rs (some q) e h = (h.0, inr h.1, ((λ t. absurd (cc)), h.2))

-- The scan finds the newest run of the session whose batch is decided and not folded, whatever the
-- order in which the store lists the runs, and past newer ones that are folded or wait; it finds
-- nothing only if there is none.
pub decided_but_unfolded_run-Newest :
    (m : MemStore) (session : String)
    → Newest
        (is_ready m (by_run (suspended_batches_for_session m session) []))
        (runs_for_session m session)
        (decided_but_unfolded_run m session)
unfolding decided_but_unfolded_run
decided_but_unfolded_run-Newest m session =
    let ready = is_ready m (by_run (suspended_batches_for_session m session) []) in
    let rs = runs_for_session m session in
    back ready rs (first_ready ready (sort_by newer rs))
      (first_ready-Newest ready (sort_by newer rs) (sort_by-Falling rs))
  where
    back :
        (ready : Run → Bool) (rs : List Run) (o : Option Run)
        → Newest ready (sort_by newer rs) o
        → Newest ready rs o
    back ready rs none h = All-sort_by (λ r. ready r ≡ false) rs h
    back ready rs (some r) h = (
      h.0,
      All-Among (λ q. Among q rs) r (sort_by newer rs)
          (sort_by-All (λ q. Among q rs) rs (Among-all rs)) h.1,
      All-sort_by (λ q. ready q ≡ true → q.seq ≤ r.seq) rs h.2,
    )
