-- ===== src/Session/Gate.antt =====
-- The interactions and the suspended batches of the in-memory store: the MemStore parts of
-- internal/session/approval.go and batch.go.
pub mod Once
use nowhere_agent.Base.{
  ℕ, suc, String, Bool, true, false, ◌&&◌, ◌||◌, ◌==◌, List, [], ◌∷◌, Option, none, some, keep, ltb,
  if◌then◌else◌, str_eq, map, not,
}
use nowhere_agent.Base.Dict.{Dict, lookup, insert, has}
use nowhere_agent.Session.Types.{
  Interaction, InteractionStatus, pending, resolved, rejected, expired, is_pending, SuspendedBatch,
  Result, ok, err, no_pending_approval, no_suspended_batch,
}
use nowhere_agent.Base.TextOrder.{text_less}
use nowhere_agent.Session.Orders.{sort_by}
use nowhere_agent.Session.Store.{MemStore}

-- The order of `sortInteractions`.
unfoldable pub queued_before : Interaction → Interaction → Bool
queued_before a b =
    if not (a.seq == 0) && not (b.seq == 0)
    then ltb a.seq b.seq
    else if a.created_at == b.created_at
    then text_less a.id b.id
    else ltb a.created_at b.created_at

abbrev pub sort_interactions : List Interaction → List Interaction
sort_interactions = sort_by queued_before

-- `createApprovalLocked`; `fresh` is what `uuid.NewString` returns.
unfoldable pub create_approval : MemStore → Interaction → String → ℕ → MemStore × Interaction
create_approval m a fresh now =
    let a' : Interaction = record a {
      id = if str_eq a.id "" then fresh else a.id;
      status = pending;
      created_at = now;
      seq = suc m.approval_seq;
    } in
    (record m { approval_seq = suc m.approval_seq; approvals = insert a'.id a' m.approvals }, a')

unfoldable pub interactions : MemStore → List Interaction
interactions m = map (λ e. e.1) m.approvals

-- The loop of `PendingApprovalForSession`.
unfoldable pub queue_head : String → Option Interaction → List Interaction → Option Interaction
queue_head session head [] = head
queue_head session head (a ∷ as') =
    queue_head session
      (if str_eq a.session session && is_pending a.status
        then elim head [
          | none ↦ some a
          | some h ↦
              if ltb a.created_at h.created_at || (a.created_at == h.created_at && ltb a.seq h.seq)
              then some a
              else some h
        ]
        else head)
      as'

unfoldable pub pending_approval_for_session : MemStore → String → Option Interaction
pending_approval_for_session m session = queue_head session none (interactions m)

unfoldable pub pending_approvals_for_session : MemStore → String → List Interaction
pending_approvals_for_session m session =
    sort_interactions (keep (λ a. str_eq a.session session && is_pending a.status) (interactions m))

unfoldable pub pending_approvals_for_run : MemStore → String → List Interaction
pending_approvals_for_run m run =
    sort_interactions (keep (λ a. str_eq a.run run && is_pending a.status) (interactions m))

unfoldable pub approvals_for_run : MemStore → String → List Interaction
approvals_for_run m run = sort_interactions (keep (λ a. str_eq a.run run) (interactions m))

unfoldable pub get_approval : MemStore → String → Result Interaction
get_approval m id = elim (lookup id m.approvals) [ none ↦ err no_pending_approval | some a ↦ ok a ]

unfoldable pub decide_approval :
    MemStore → String → Bool → Option String → ℕ → MemStore × Result Interaction
decide_approval m id approve result now = elim (lookup id m.approvals) [
  | none ↦ (m, err no_pending_approval)
  | some a ↦
      if is_pending a.status
      then (let a' : Interaction = record a {
        decided_at = some now;
        result = result;
        status = if approve then resolved else rejected;
      } in
          (record m { approvals = insert id a' m.approvals }, ok a'))
      else (m, err no_pending_approval)
]

abbrev pub expires : Interaction → ℕ → Bool
expires a cutoff = is_pending a.status && ltb a.created_at cutoff

-- The loop of `SweepExpiredInteractions`: the interactions after it, and how many it expired.
unfoldable pub sweep : Dict Interaction → ℕ → Dict Interaction × ℕ
sweep [] cutoff = ([], 0)
sweep ((id, a) ∷ rest) cutoff =
    let (rest', n) = sweep rest cutoff in
    if expires a cutoff
    then ((id, record a { status = expired }) ∷ rest', suc n)
    else ((id, a) ∷ rest', n)

unfoldable pub sweep_expired_interactions : MemStore → ℕ → MemStore × ℕ
sweep_expired_interactions m cutoff =
    let (approvals, n) = sweep m.approvals cutoff in (record m { approvals = approvals }, n)

unfoldable pub create_interaction_batch :
    MemStore → SuspendedBatch → Interaction → String → ℕ → MemStore × Interaction
create_interaction_batch m batch a fresh now =
    let batches =
      if has batch.run m.batches
      then m.batches
      else insert batch.run (record batch { created_at = now }) m.batches in
    create_approval (record m { batches = batches }) a fresh now

unfoldable pub suspended_batch_for_run : MemStore → String → Result SuspendedBatch
suspended_batch_for_run m run = elim (lookup run m.batches) [
  | none ↦ err no_suspended_batch
  | some b ↦ ok b
]

unfoldable pub suspended_batches_for_session : MemStore → String → List SuspendedBatch
suspended_batches_for_session m session =
    keep (λ b. str_eq b.session session) (map (λ e. e.1) m.batches)

unfoldable pub mark_batch_folded : MemStore → String → ℕ → Result MemStore
mark_batch_folded m run seq = elim (lookup run m.batches) [
  | none ↦ err no_suspended_batch
  | some b ↦ ok (record m { batches = insert run (record b { folded_seq = some seq }) m.batches })
]
