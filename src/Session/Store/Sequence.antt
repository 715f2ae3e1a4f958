-- ===== src/Session/Store/Sequence.antt =====
-- The numbers of a session's runs (internal/session/memstore.go).
use nowhere_agent.Base.{
  Bool-cases, inl, inr, ℕ, suc, ◌+◌, ◌≡◌, refl, String, false, List, [], ◌∷◌, ◌++◌, arith, length,
  length-append, if◌then◌else◌, str_eq, eq_iff, eq_refl, contains, map,
}
use nowhere_agent.Base.Dict.{Dict, insert, lookup-insert}
use nowhere_agent.Session.Types.{Run}
use nowhere_agent.Session.Store.Runs.{
  MemStore, create_run, next_run_seq, runs_of, runs_for_session, entries,
}

-- `CreateRun` with the number that `NextRunSeq` gives.
unfoldable pub start_run : MemStore → String → String → ℕ → MemStore
start_run m id session now = (create_run m id session (next_run_seq m session) now).0

-- `n`, `n + 1` and so on, one for each run.
abbrev pub numbers_from : ℕ → List Run → List ℕ
numbers_from n [] = []
numbers_from n (r ∷ rs) = n ∷ numbers_from (suc n) rs

-- Each session's runs are numbered from 1 in order.
abbrev pub IsNumbered : MemStore → Type 0
IsNumbered m =
    (session : String)
    → (map (λ r. r.seq) (runs_for_session m session) ≡ numbers_from 1 (runs_for_session m session))
      × (length (runs_for_session m session) ≡ length (entries session m.by_session))

-- A run with a new id is not among those that a session has.
runs_of-insert :
    (runs : Dict Run) (id : String) (r : Run) (ids : List String)
    → contains id ids ≡ false
    → runs_of (insert id r runs) ids ≡ runs_of runs ids
unfolding runs_of
runs_of-insert runs id r [] h = refl
runs_of-insert runs id r (j ∷ ids) h =
    ground
      (arith, runs_of-insert runs id r ids, lookup-insert id j r runs, eq_iff id j, eq_iff j id)

runs_of-append :
    (runs : Dict Run) (xs ys : List String)
    → runs_of runs (xs ++ ys) ≡ runs_of runs xs ++ runs_of runs ys
unfolding runs_of
runs_of-append runs [] ys = refl
runs_of-append runs (x ∷ xs) ys = ground (arith, runs_of-append runs xs ys)

numbers_append :
    (n : ℕ) (rs : List Run) (r : Run)
    → map (λ r. r.seq) rs ≡ numbers_from n rs
    → r.seq ≡ n + length rs
    → map (λ r. r.seq) (rs ++ r ∷ []) ≡ numbers_from n (rs ++ r ∷ [])
numbers_append n [] r h k = ground arith
numbers_append n (x ∷ rs) r h k = ground (arith, numbers_append (suc n) rs r)

-- Only the session's own list changes, at its end.
start_run_frame :
    (m : MemStore) (id session : String) (now : ℕ) (s : String)
    → contains id (entries s m.by_session) ≡ false
    → let m' = start_run m id session now in
      let r = (create_run m id session (next_run_seq m session) now).1 in
      (entries s m'.by_session
        ≡ (if str_eq session s then entries s m.by_session ++ id ∷ [] else entries s m.by_session))
      × (runs_for_session m' s
          ≡ (if str_eq session s then runs_for_session m s ++ r ∷ [] else runs_for_session m s))
unfolding start_run create_run runs_for_session runs_of
start_run_frame m id session now s fresh =
    let r = (create_run m id session (next_run_seq m session) now).1 in
    let ids = entries s m.by_session in
    ground (
      arith,
      fresh,
      lookup-insert session s (entries session m.by_session ++ id ∷ []) m.by_session,
      eq_iff session s,
      runs_of-insert m.runs id r ids fresh,
      runs_of-append (insert id r m.runs) ids (id ∷ []),
      lookup-insert id id r m.runs,
      eq_refl id,
    )

-- Starting a run with a new id keeps the runs of every session numbered 1, 2 and so on.
start_run-IsNumbered :
    (m : MemStore) (id session : String) (now : ℕ)
    → ((s : String) → contains id (entries s m.by_session) ≡ false)
    → IsNumbered m
    → IsNumbered (start_run m id session now)
unfolding next_run_seq create_run
start_run-IsNumbered m id session now fresh num s =
    let r = (create_run m id session (next_run_seq m session) now).1 in
    let (numbered, sized) = num s in
    let (frame, frame') = start_run_frame m id session now s (fresh s) in
    let rs = runs_for_session m s in
    elim (Bool-cases (str_eq session s)) [
      | inl e ↦ ground (
        arith,
        numbered,
        sized,
        frame,
        frame',
        e,
        eq_iff session s,
        numbers_append 1 rs r numbered,
        length-append rs (r ∷ []),
        length-append (entries s m.by_session) (id ∷ []),
      )
      | inr e ↦ ground (arith, numbered, sized, frame, frame', e)
    ]
