-- ===== src/Session/Recovery.antt =====
-- What a session's registry asks of the stores before a submission, internal/session/registry.go:
-- BatchFoldState and DecidedButUnfoldedRun.
pub mod Newest
use nowhere_agent.Base.{
  ℕ, ltb, String, Bool, true, false, ◌&&◌, List, [], ◌∷◌, Option, none, some, length, str_eq,
  if◌then◌else◌,
}
use nowhere_agent.Base.Dict.{Dict, lookup, insert}
use nowhere_agent.Session.Types.{Run, SuspendedBatch, ok, err}
use nowhere_agent.Session.Orders.{sort_by}
use nowhere_agent.Session.Store.{MemStore, runs_for_session}
use nowhere_agent.Session.Gate.{
  pending_approvals_for_run, suspended_batch_for_run, suspended_batches_for_session,
}

abbrev pub is_none {ℓ} : {A : Type ℓ} → Option A → Bool
is_none none = true
is_none (some x) = false

abbrev pub is_empty {ℓ} : {A : Type ℓ} → List A → Bool
is_empty [] = true
is_empty (x ∷ xs) = false

-- Whether the batch of the run is folded, and how many of its interactions are pending.
unfoldable pub batch_fold_state : MemStore → String → Bool × ℕ
batch_fold_state m run = (
  (elim (suspended_batch_for_run m run) [
    | err e ↦ false
    | ok snap ↦ elim snap.folded_seq [ none ↦ false | some seq ↦ true ]
  ]),
  length (pending_approvals_for_run m run),
)

unfoldable pub by_run : List SuspendedBatch → Dict SuspendedBatch → Dict SuspendedBatch
by_run [] found = found
by_run (b ∷ bs) found = by_run bs (insert b.run b found)

-- Whether the scan stops at a run: its batch is not folded, and waits for no verdict.
unfoldable pub is_ready : MemStore → Dict SuspendedBatch → Run → Bool
is_ready m batches r = elim (lookup r.id batches) [
  | none ↦ false
  | some snap ↦ is_none snap.folded_seq && is_empty (pending_approvals_for_run m r.id)
]

unfoldable pub first_ready : (Run → Bool) → List Run → Option Run
first_ready ready [] = none
first_ready ready (r ∷ rs) = let rest = first_ready ready rs in if ready r then some r else rest

abbrev pub newer : Run → Run → Bool
newer a b = ltb b.seq a.seq

unfoldable pub decided_but_unfolded_run : MemStore → String → Option Run
decided_but_unfolded_run m session =
    let batches = by_run (suspended_batches_for_session m session) [] in
    first_ready (is_ready m batches) (sort_by newer (runs_for_session m session))
