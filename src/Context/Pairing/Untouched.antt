-- ===== src/Context/Pairing/Untouched.antt =====
-- What internal/contextmgmt/pairing.go leaves as it is.
use nowhere_agent.Base.{
  ◌+◌, ◌≤◌, ◌≡◌, ◌≢◌, refl, String, List, [], ◌∷◌, ◌++◌, arith, count, count-append, inl, inr,
  subst,
}
use nowhere_agent.Provider.{Block, Message, user, assistant}
use nowhere_agent.Context.Pairing.{
  PairState, init_state, flush_message, ensure_non_empty, pair_messages, ensure_pairing,
}
use nowhere_agent.Context.Pairing.Steps.{
  flushed, uses, results, with_content, role_cases, pair_messages-assistant, pair_messages-user,
  pair_messages-nil,
}
use nowhere_agent.Context.Pairing.Contract.{
  use_ids, result_ids, calls, pending-use_blocks, seen_use-use_blocks, pending-result_blocks,
}
use nowhere_agent.Context.Pairing.Settled.{
  answered_by, owed_after, Settled, Fresh, empty_of_count, use_blocks_same, result_blocks_same,
  count-seen_result,
}

ensure_non_empty-same : (bs : List Block) → bs ≢ [] → ensure_non_empty bs ≡ bs
unfolding ensure_non_empty
ensure_non_empty-same [] h = absurd (h refl)
ensure_non_empty-same (b ∷ bs) h = refl

with_content-same :
    (m : Message) (bs : List Block) → bs ≡ m.content → m.content ≢ [] → with_content m bs ≡ m
with_content-same m bs e h = ground (arith, ensure_non_empty-same m.content h)

flush_message-nil : (ids : List String) → ids ≡ [] → flush_message ids ≡ []
unfolding flush_message
flush_message-nil ids e = rw e

abbrev Room : PairState → List Message → Type 0
Room s ms = (id : String) → count id s.seen_use + count id (calls ms) ≤ 1

module _ (s : PairState) (m : Message) (ms : List Message) (f : Fresh s)
    (room : Room s (m ∷ ms)) where
  uses-same :
      m.role ≡ assistant
      → ((uses s m).0 ≡ m.content)
        × Fresh (uses s m).1
        × Room (uses s m).1 ms
        × (owed_after m ≡ (uses s m).1.pending)
  uses-same e = (
    same.0,
    record {
      once = λ id. ground (
        arith,
        same,
        f.once id,
        pending-use_blocks (flushed s) m.content,
        count-append id s.pending s.seen_result,
        seen_use-use_blocks id (flushed s) m.content (seen_once id),
      );
    },
    λ id. ground (
      arith,
      same,
      room_uses id,
      count-append id (use_ids m.content) (calls ms),
      seen_use-use_blocks id (flushed s) m.content (seen_once id),
    ),
    ground (arith, same, pending-use_blocks (flushed s) m.content),
  )
    where
      room_uses : (id : String) → count id s.seen_use + count id (use_ids m.content ++ calls ms) ≤ 1
      room_uses id = ground (arith, room id)

      seen_once : (id : String) → count id s.seen_use ≤ 1
      seen_once id = omega (arith, room id)

      same : ((uses s m).0 ≡ m.content) × ((uses s m).1.seen_result ≡ (flushed s).seen_result)
      same =
          use_blocks_same (flushed s) m.content
            (λ id. omega (arith, room_uses id, count-append id (use_ids m.content) (calls ms)))

  results-same :
      m.role ≡ user
      → ((id : String) → count id (answered_by m) ≡ count id s.pending)
      → ((results s m).0 ≡ m.content)
        × ((results s m).1.pending ≡ [])
        × Fresh (flushed (results s m).1)
        × Room (flushed (results s m).1) ms
        × (owed_after m ≡ [])
  results-same e h = (
    same,
    done,
    record {
      once = λ id. ground (
        arith,
        done,
        f.once id,
        count-seen_result id s m.content,
        pending-result_blocks id s m.content (pending_once id),
      );
    },
    λ id. ground (arith, room id, pending-result_blocks id s m.content (pending_once id)),
    ground arith,
  )
    where
      pending_once : (id : String) → count id s.pending ≤ 1
      pending_once id = omega (arith, room id, f.once id)

      wanted : (id : String) → count id (result_ids m.content) ≡ count id s.pending
      wanted id = ground (arith, h id)

      same : (results s m).0 ≡ m.content
      same =
          result_blocks_same s m.content (λ id. omega (arith, wanted id))
            (λ id. omega (arith, room id, f.once id))

      done : (results s m).1.pending ≡ []
      done = empty_of_count _ (λ id.
          ground (arith, same, wanted id, pending-result_blocks id s m.content (pending_once id)))

pair_messages-Settled :
    (s : PairState) (ms : List Message)
    → Fresh s
    → Room s ms
    → Settled s.pending ms
    → pair_messages s ms ≡ ms
pair_messages-Settled s [] f room h =
    rw pair_messages-nil (ground (arith, flush_message-nil s.pending h))
pair_messages-Settled s (m ∷ ms) f room h = elim (role_cases m) [
  | inl e ↦
      let (same, fresh, room', owed) = uses-same s m ms f room e in
      let none_owed = empty_of_count s.pending (λ id. ground (arith, h.1 id)) in
      rw (pair_messages-assistant s m ms e) (
        ground (
          arith,
          flush_message-nil s.pending none_owed,
          with_content-same m (uses s m).0 same h.0,
          pair_messages-Settled (uses s m).1 ms fresh room'
              (subst (λ ids. Settled ids ms) owed h.2),
        ))
  | inr e ↦
      let (same, done, fresh, room', owed) = results-same s m ms f room e h.1 in
      rw (pair_messages-user s m ms e) (
        ground (
          arith,
          flush_message-nil (results s m).1.pending done,
          with_content-same m (results s m).0 same h.0,
          pair_messages-Settled (flushed (results s m).1) ms fresh room'
              (subst (λ ids. Settled ids ms) owed h.2),
        ))
]

-- A conversation that already answers every call in the message after it, and calls no id twice,
-- is left as it is.
pub ensure_pairing-Settled :
    (msgs : List Message)
    → Settled [] msgs
    → ((id : String) → count id (calls msgs) ≤ 1)
    → ensure_pairing msgs ≡ msgs
unfolding ensure_pairing
ensure_pairing-Settled msgs h once =
    pair_messages-Settled init_state msgs (record { once = λ id. omega arith })
      (λ id. omega (arith, once id)) h
