-- ===== src/Session/Runtime/Tests.antt =====
-- The theorems on the runtime at one session, and a race that the store's index decides.
use nowhere_agent.Base.{ℕ, ◌≡◌, refl, String, Bool, true, false, none, some, ◌⊎◌, [], ◌∷◌}
use nowhere_agent.Base.Dict.{lookup, insert, delete}
use nowhere_agent.Session.Types.{Run, run_running, run_done, active}
use nowhere_agent.Session.Store.{
  MemStore, new_mem_store, create_session, get_session, active_run, next_run_seq, create_run,
  update_run, update_run_status, runs_of, runs_for_session,
}
use nowhere_agent.Session.Runtime.{
  RunState, run_active, returned, refused, started, completed, start_run, complete_run_for_run, Env,
  System, begin, proceed, update, go, boot, Reach, here, next, advance, insert_run, release, alone,
}
use nowhere_agent.Session.Runtime.Actives.{Good}
use nowhere_agent.Session.Runtime.Moves.{Live, held_id}
use nowhere_agent.Session.Runtime.Single.{Ends, Reach-single, Step-keeps}
use nowhere_agent.Session.Runtime.Lost.{store_failure-blocks}
use nowhere_agent.Session.Runtime.Restart.{complete-start}

abbrev store : MemStore
store = (create_session new_mem_store "s1" "u" "one" 1).0

store-Good : Good store
unfolding create_session lookup
store-Good = record {
  named = λ i r l. cc;
  listed = λ i r l. cc;
  real = λ i session c. cc;
  single = λ i j q r k l a b e. cc;
}

abbrev env : String → Env
env id = record { answers = true; fresh_id = id; now = 5 }

running : Unit {0}
unfolding advance insert_run release alone go create_session get_session active_run next_run_seq
    create_run update_run update_run_status runs_of runs_for_session lookup insert delete
running = tt

-- The first thread starts a run, and its steps go on until the run is created, marked, registered.
abbrev called : System
called = record (boot store) { calls = update (boot store).calls 0 (start_run "s1") }

abbrev step : System → System
step = go true 0 (env "r1")

abbrev created_one : System
created_one = step (step (step (step (step called))))

abbrev registered_one : System
registered_one = go true 0 (env "r2") (go true 0 (env "r2") created_one)

reached_created : Reach true (boot store) created_one
unfolding running
reached_created =
    next
      (next
        (next
          (next (next (next here (begin 0 (start_run "s1") tt tt)) (proceed 0 (env "r1") refl))
            (proceed 0 (env "r1") refl))
          (proceed 0 (env "r1") refl))
        (proceed 0 (env "r1") refl))
      (proceed 0 (env "r1") refl)

reached_registered : Reach true (boot store) registered_one
unfolding running
reached_registered =
    next (next reached_created (proceed 0 (env "r2") refl)) (proceed 0 (env "r2") refl)

abbrev first_run : Run
first_run = record (create_run store "r1" "s1" 1 5).1 { status = run_running }

in_memory : lookup "s1" registered_one.shared.runs ≡ some (record { run = first_run })
unfolding running
in_memory = refl

Reach-single_example :
    ((i j : String) (q r : Run)
      → lookup i registered_one.shared.store.runs ≡ some q
      → lookup j registered_one.shared.store.runs ≡ some r
      → active q.status ≡ true
      → active r.status ≡ true
      → q.session ≡ r.session
      → i ≡ j)
    × ((session : String) (rs : RunState)
        → lookup session registered_one.shared.runs ≡ some rs
        → Live registered_one.shared.store rs.run.id session)
Reach-single_example = Reach-single store-Good reached_registered

-- Another thread starts a run of the same session.
Step-keeps_example :
    let t = record registered_one { calls = update registered_one.calls 1 (start_run "s1") } in
    (lookup "s1" t.shared.runs ≡ some (record { run = first_run }))
    ⊎ ((i : ℕ) × Ends (registered_one.calls i) "s1" first_run.id)
unfolding running
Step-keeps_example =
    Step-keeps "s1" (record { run = first_run }) store-Good reached_registered
      (begin 1 (start_run "s1") tt tt) in_memory

abbrev silent : Env
silent = record { answers = false; fresh_id = "r2"; now = 5 }

-- The store fails to mark the run that was created as running.
store_failure-blocks_example :
    let t = go true 0 silent created_one in
    (session : String) × Live t.shared.store "r1" session
    × (lookup session t.shared.runs ≡ none)
    × ((j : ℕ) (y : String) → held_id (t.calls j) ≡ some y → Live t.shared.store y session → ⊥)
unfolding running
store_failure-blocks_example =
    store_failure-blocks 0 "r1" silent store-Good reached_created refl refl refl here

complete-start_example :
    let (s', p) =
      alone true (env "r2") 2 (complete_run_for_run "s1" "r1" run_done) registered_one.shared in
    let (s'', q) = alone true (env "r3") 7 (start_run "s1") s' in
    (p ≡ returned completed)
    × ((r : Run) × (q ≡ returned (started r))
        × (r.session ≡ "s1")
        × (r.status ≡ run_running)
        × (lookup "s1" s''.runs ≡ some (record { run = r })))
unfolding running
complete-start_example =
    complete-start "s1" (record { run = first_run })
      (create_session new_mem_store "s1" "u" "one" 1).1 run_done (env "r2") (env "r3") store-Good
      reached_registered in_memory refl refl refl refl refl

-- Two threads that start in step: without the index both runs are active, with it one is refused.
abbrev both : Bool → System
both unique =
    let turn = λ (s : System). go unique 1 (env "r2") (go unique 0 (env "r1") s) in
    turn (turn (turn (turn (turn (record (boot store) { calls = λ i. start_run "s1" })))))

without_index :
    (runs_for_session (both false).shared.store "s1")
    ≡ (create_run store "r1" "s1" 1 5).1 ∷ (create_run store "r2" "s1" 1 5).1 ∷ []
unfolding running
without_index = refl

with_index : (both true).calls 1 ≡ returned (refused run_active)
unfolding running
with_index = refl
