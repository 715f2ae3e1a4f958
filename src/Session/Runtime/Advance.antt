-- ===== src/Session/Runtime/Advance.antt =====
-- What every step of a call keeps.
use nowhere_agent.Base.{
  ◌≡◌, refl, true, false, not, none, ◌⊎◌, inl, inr, if◌then◌else◌, Bool-cases, Option-cases,
  both_branches,
}
use nowhere_agent.Base.Dict.{lookup}
use nowhere_agent.Session.Types.{run_cancelled, is_active, Result, ok, err, StoreError}
use nowhere_agent.Session.Store.{get_session, active_run, next_run_seq}
use nowhere_agent.Session.Runtime.{
  cancelled, refused, Point, start_run, complete_run_for_run, cancel_run, found, unlocked, inactive,
  numbered, created, registering, captured, released, returned, Env, Shared, advance, run_active,
  session_ended, not_found, store_failed, completed,
}
use nowhere_agent.Session.Runtime.Actives.{Good}
use nowhere_agent.Session.Runtime.Moves.{Holds, Registered, Free, Moved}
use nowhere_agent.Session.Runtime.Kinds.{
  quiet, release-Moved, insert_run-Moved, mark_running, register, settle,
}

Result-cases :
    {A : Type 0} (r : Result A) → ((a : A) × (r ≡ ok a)) ⊎ ((e : StoreError) × (r ≡ err e))
Result-cases (ok a) = inl (a, refl)
Result-cases (err e) = inr (e, refl)

module _ (s : Shared) (good : Good s.store) (registered : Registered s) where
  -- One step of a call, in a store that refuses a second active run.
  pub advance-Moved :
      (env : Env) (p : Point)
      → lookup env.fresh_id s.store.runs ≡ none
      → Holds s.store p
      → Free s p
      → let (s', p') = advance true env p s in Moved s p s' p'
  unfolding advance
  advance-Moved env (start_run session) fresh h free = elim (Bool-cases env.answers) [
    | inr a ↦
        rw a (quiet s good registered (start_run session) (returned (refused store_failed)) refl tt)
    | inl a ↦ elim (Result-cases (get_session s.store session)) [
      | inr (e, l) ↦
          rw (a, l)
            (quiet s good registered (start_run session) (returned (refused not_found)) refl tt)
      | inl (ss, l) ↦
          rw (a, l)
            (both_branches (λ (x : Shared × Point). Moved s (start_run session) x.0 x.1)
              (is_active ss.status)
              (quiet s good registered (start_run session) (found session) refl tt)
              (quiet s good registered (start_run session) (returned (refused session_ended)) refl
                tt))
    ]
  ]
  advance-Moved env (found session) fresh h free = elim (Option-cases (lookup session s.runs)) [
    | inl e ↦ rw (advance, e) (quiet s good registered (found session) (unlocked session) refl tt)
    | inr (rs, e) ↦
        rw (advance, e)
          (quiet s good registered (found session) (returned (refused run_active)) refl tt)
  ]
  advance-Moved env (unlocked session) fresh h free = elim (Bool-cases env.answers) [
    | inr a ↦
        rw a (quiet s good registered (unlocked session) (returned (refused store_failed)) refl tt)
    | inl a ↦ elim (Option-cases (active_run s.store session)) [
      | inl e ↦ rw (a, e) (quiet s good registered (unlocked session) (inactive session) refl tt)
      | inr (r, e) ↦
          rw (a, e)
            (quiet s good registered (unlocked session) (returned (refused run_active)) refl tt)
    ]
  ]
  advance-Moved env (inactive session) fresh h free = elim (Bool-cases env.answers) [
    | inr a ↦
        rw a (quiet s good registered (inactive session) (returned (refused store_failed)) refl tt)
    | inl a ↦ rw a (
        quiet s good registered (inactive session) (numbered session (next_run_seq s.store session))
          refl tt)
  ]
  advance-Moved env (numbered session n) fresh h free =
      both_branches (λ (x : Shared × Point). Moved s (numbered session n) x.0 x.1) (not env.answers)
        (quiet s good registered (numbered session n) (returned (refused store_failed)) refl tt)
        (insert_run-Moved s good registered (numbered session n) env session n fresh)
  advance-Moved env (created r) fresh h free = elim (Bool-cases env.answers) [
    | inr a ↦ rw a (quiet s good registered (created r) (returned (refused store_failed)) refl tt)
    | inl a ↦ rw a (mark_running s good registered r env.now h free)
  ]
  advance-Moved env (registering r) fresh h free = register s good registered r h
  advance-Moved env (complete_run_for_run session id status) fresh h free =
      release-Moved s good registered (complete_run_for_run session id status) false session id
        status
  advance-Moved env (cancel_run session) fresh h free =
      elim (Option-cases (lookup session s.runs)) [
        | inl e ↦
            rw (advance, e)
              (quiet s good registered (cancel_run session) (returned (cancelled false)) refl tt)
        | inr (rs, e) ↦
            rw (advance, e)
              (quiet s good registered (cancel_run session) (captured session rs.run.id) refl tt)
      ]
  advance-Moved env (captured session id) fresh h free =
      release-Moved s good registered (captured session id) true session id run_cancelled
  advance-Moved env (released cancels id status) fresh h free = elim (Bool-cases env.answers) [
    | inr a ↦ rw a (
        quiet s good registered (released cancels id status) (returned (refused store_failed)) refl
          tt)
    | inl a ↦ rw a (
        settle s good registered cancels id status env.now
          (if cancels then cancelled true else completed) h.0 free)
  ]
  advance-Moved env (returned o) fresh h free =
      quiet s good registered (returned o) (returned o) refl tt
