-- ===== src/Context/Pairing/Repair.antt =====
-- The repair of internal/contextmgmt/pairing.go meets the contract, whatever the conversation.
use mathlib.Core.List.{append-nil}
use nowhere_agent.Base.{
  ◌+◌, ◌≤◌, ◌≡◌, String, List, [], ◌∷◌, ◌++◌, arith, count, count-append, inl, inr,
}
use nowhere_agent.Provider.{Message}
use nowhere_agent.Context.Pairing.{
  PairState, init_state, ensure_non_empty, pair_messages, ensure_pairing,
}
use nowhere_agent.Context.Pairing.Steps.{
  flushed, uses, results, role_cases, pair_messages-assistant, pair_messages-user,
  pair_messages-nil,
}
use nowhere_agent.Context.Pairing.Contract.{
  use_ids, result_ids, answers, calls, AllAnswered, Contract, answers-flush_message,
  calls-flush_message, AllAnswered-flush_message, use_ids-ensure_non_empty,
  result_ids-ensure_non_empty, pending-use_blocks, seen_use-use_blocks, pending-result_blocks,
}

-- What is pending was called, and no id was called twice.
record Inv (s : PairState) : Type 0 where
  called : (id : String) → count id s.pending ≤ count id s.seen_use
  distinct : (id : String) → count id s.seen_use ≤ 1

uses-Inv : (s : PairState) (m : Message) → Inv s → Inv (uses s m).1
uses-Inv s m v = record {
  called = λ id. ground (
    arith,
    pending-use_blocks (flushed s) m.content,
    seen_use-use_blocks id (flushed s) m.content (v.distinct id),
  );
  distinct = λ id. (seen_use-use_blocks id (flushed s) m.content (v.distinct id)).1;
}

results-Inv : (s : PairState) (m : Message) → Inv s → Inv (flushed (results s m).1)
results-Inv s m v = record {
  called = λ id. omega arith;
  distinct = λ id. ground (arith, v.distinct id, v.called id, pending-result_blocks id s m.content);
}

module _ (id : String) where
  -- The answers that come next are those that are pending.
  count-answers :
      (s : PairState) (ms : List Message)
      → Inv s
      → count id (answers (pair_messages s ms)) ≡ count id s.pending
  count-answers s [] v = rw (pair_messages-nil, answers-flush_message, append-nil)
  count-answers s (m ∷ ms) v = elim (role_cases m) [
    | inl e ↦
        rw (pair_messages-assistant s m ms e, answers-flush_message)
          (ground (arith, append-nil s.pending))
    | inr e ↦
        let t = (results s m).1 in
        let rest = pair_messages (flushed t) ms in
        rw (pair_messages-user s m ms e) (
          ground (
            arith,
            answers-flush_message t.pending rest,
            count-append id (result_ids (ensure_non_empty (results s m).0))
                (t.pending ++ answers rest),
            count-append id t.pending (answers rest),
            count-answers (flushed t) ms (results-Inv s m v),
            result_ids-ensure_non_empty (results s m).0,
            pending-result_blocks id s m.content,
            v.called id,
            v.distinct id,
          ))
  ]

  -- A call that was seen is not made again.
  count-calls :
      (s : PairState) (ms : List Message)
      → Inv s
      → count id (calls (pair_messages s ms)) + count id s.seen_use ≤ 1
  count-calls s [] v = rw (pair_messages-nil, calls-flush_message) (ground (arith, v.distinct id))
  count-calls s (m ∷ ms) v = elim (role_cases m) [
    | inl e ↦
        let u = uses s m in
        rw (pair_messages-assistant s m ms e, calls-flush_message)
          (ground (
            arith,
            use_ids-ensure_non_empty u.0,
            count-append id (use_ids (ensure_non_empty u.0)) (calls (pair_messages u.1 ms)),
            seen_use-use_blocks id (flushed s) m.content (v.distinct id),
            count-calls u.1 ms (uses-Inv s m v),
          ))
    | inr e ↦
        let t = (results s m).1 in
        rw (pair_messages-user s m ms e) (
          ground (
            arith,
            calls-flush_message t.pending (pair_messages (flushed t) ms),
            count-calls (flushed t) ms (results-Inv s m v),
            pending-result_blocks id s m.content,
            v.called id,
            v.distinct id,
          ))
  ]

AllAnswered-pair_messages :
    (s : PairState) (ms : List Message) → Inv s → AllAnswered (pair_messages s ms)
AllAnswered-pair_messages s [] v = rw pair_messages-nil (AllAnswered-flush_message s.pending [] tt)
AllAnswered-pair_messages s (m ∷ ms) v = elim (role_cases m) [
  | inl e ↦
      let u = uses s m in
      rw (pair_messages-assistant s m ms e) (
        AllAnswered-flush_message s.pending _ (
          λ _ id. ground (
            arith,
            count-answers id u.1 ms (uses-Inv s m v),
            pending-use_blocks (flushed s) m.content,
            use_ids-ensure_non_empty u.0,
          ),
          AllAnswered-pair_messages u.1 ms (uses-Inv s m v),
        ))
  | inr e ↦
      let t = (results s m).1 in
      rw (pair_messages-user s m ms e) (
        λ h. ground arith,
        AllAnswered-flush_message t.pending _
            (AllAnswered-pair_messages (flushed t) ms (results-Inv s m v)),
      )
]

init-Inv : Inv init_state
init-Inv = record { called = λ id. omega arith; distinct = λ id. omega arith }

-- Whatever messages come in, the repaired ones meet the provider's contract: no tool result stands
-- before the first assistant message, the results between an assistant message and the next one
-- answer exactly the tool calls of the former, each as often as it is called, and no id is called
-- twice in the conversation.
pub ensure_pairing-Contract : (msgs : List Message) → Contract (ensure_pairing msgs)
unfolding ensure_pairing
ensure_pairing-Contract msgs = record {
  no_orphan = λ id. count-answers id init_state msgs init-Inv;
  answered = AllAnswered-pair_messages init_state msgs init-Inv;
  distinct = λ id. ground (arith, count-calls id init_state msgs init-Inv);
}
