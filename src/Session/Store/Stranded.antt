-- ===== src/Session/Store/Stranded.antt =====
-- The reconciliation of internal/session/memstore.go after a restart.
use nowhere_agent.Base.{
  ℕ, ◌≡◌, refl, String, List, [], ◌∷◌, Option, none, some, arith, length, if◌then◌else◌,
}
use nowhere_agent.Base.Dict.{Dict, lookup}
use nowhere_agent.Session.Types.{Run, run_failed, active}
use nowhere_agent.Session.Store.Runs.{
  MemStore, fail_runs, fail_stranded_runs, active_runs, runs_of, runs_for_session, active_run,
  first_active, entries,
}

-- A run as the reconciliation leaves it.
unfoldable pub failed_if_active : ℕ → Option Run → Option Run
failed_if_active now none = none
failed_if_active now (some r) =
    some (if active r.status then record r { status = run_failed; finished_at = some now } else r)

lookup-fail_runs :
    (runs : Dict Run) (now : ℕ) (id : String)
    → lookup id (fail_runs runs now).0 ≡ failed_if_active now (lookup id runs)
unfolding fail_runs lookup failed_if_active
lookup-fail_runs [] now id = refl
lookup-fail_runs ((j, r) ∷ rest) now id = ground (arith, lookup-fail_runs rest now id)

fail_runs_count :
    (runs : Dict Run) (now : ℕ)
    → ((fail_runs runs now).1 ≡ length (active_runs runs))
      × (active_runs (fail_runs runs now).0 ≡ [])
unfolding fail_runs
fail_runs_count [] now = (refl, refl)
fail_runs_count ((j, r) ∷ rest) now = ground (arith, fail_runs_count rest now)

runs_of_inactive :
    (runs : Dict Run) (now : ℕ) (ids : List String)
    → first_active (runs_of (fail_runs runs now).0 ids) ≡ none
unfolding runs_of failed_if_active
runs_of_inactive runs now [] = refl
runs_of_inactive runs now (id ∷ ids) =
    ground (arith, runs_of_inactive runs now ids, lookup-fail_runs runs now id)

-- After the reconciliation no run is active, so that no session is blocked; it reports how many it
-- failed, each finished now, and leaves every finished run alone.
pub fail_stranded_lem :
    (m : MemStore) (now : ℕ)
    → let (m', n) = fail_stranded_runs m now in
      (n ≡ length (active_runs m.runs))
      × (active_runs m'.runs ≡ [])
      × ((session : String) → active_run m' session ≡ none)
      × ((id : String) → lookup id m'.runs ≡ failed_if_active now (lookup id m.runs))
unfolding fail_stranded_runs active_run runs_for_session
fail_stranded_lem m now =
    let (counted, cleared) = fail_runs_count m.runs now in
    (
      counted,
      cleared,
      (λ session. runs_of_inactive m.runs now (entries session m.by_session)),
      (λ id. lookup-fail_runs m.runs now id),
    )
