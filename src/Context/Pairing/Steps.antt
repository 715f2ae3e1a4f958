-- ===== src/Context/Pairing/Steps.antt =====
-- What one round of the loop of internal/contextmgmt/pairing.go does, for each role.
use mathlib.Core.List.{append_assoc, append-nil}
use nowhere_agent.Base.{◌≡◌, sym, false, List, [], ◌∷◌, ◌++◌, arith, ◌⊎◌}
use nowhere_agent.Provider.{Block, Message, user, assistant, is_tool_result}
use nowhere_agent.Context.Pairing.{
  PairState, flush_message, flush_pending, ensure_non_empty, use_block, result_block, filter_blocks,
  pair_message, pair_messages, ensure_pairing, init_state,
}

-- The states between two messages, and the content that a message gets.
abbrev pub flushed : PairState → PairState
flushed s = record s { pending = []; seen_result = s.pending ++ s.seen_result }

abbrev pub uses : PairState → Message → List Block × PairState
uses s m = filter_blocks use_block (flushed s) m.content

abbrev pub results : PairState → Message → List Block × PairState
results s m = filter_blocks result_block s m.content

abbrev pub with_content : Message → List Block → Message
with_content m bs = record m { content = ensure_non_empty bs }

pub role_cases : (m : Message) → (m.role ≡ assistant) ⊎ (m.role ≡ user)
role_cases m = ground arith

pub pair_messages-assistant :
    (s : PairState) (m : Message) (ms : List Message)
    → m.role ≡ assistant
    → pair_messages s (m ∷ ms)
      ≡ flush_message s.pending ++ with_content m (uses s m).0 ∷ pair_messages (uses s m).1 ms
unfolding pair_messages pair_message flush_pending
pair_messages-assistant s m ms e = ground (
  arith,
  append_assoc (flush_message s.pending) (with_content m (uses s m).0 ∷ [])
      (pair_messages (uses s m).1 ms),
)

pub pair_messages-user :
    (s : PairState) (m : Message) (ms : List Message)
    → m.role ≡ user
    → let r = results s m in
      pair_messages s (m ∷ ms)
      ≡ with_content m r.0 ∷ (flush_message r.1.pending ++ pair_messages (flushed r.1) ms)
unfolding pair_messages pair_message flush_pending
pair_messages-user s m ms e = ground arith

pub pair_messages-nil : (s : PairState) → pair_messages s [] ≡ flush_message s.pending ++ []
unfolding pair_messages flush_pending
pair_messages-nil s = sym (append-nil _)

-- The first block of a leading user message stays where it is, unless it is a tool result.
pub first_stays :
    (m : Message) (b : Block) (bs : List Block) (ms : List Message)
    → m.role ≡ user
    → m.content ≡ b ∷ bs
    → is_tool_result b ≡ false
    → (rest : List Message) × (kept : List Block) × (ensure_pairing (m ∷ ms)
        ≡ record m { content = b ∷ kept } ∷ rest)
unfolding ensure_pairing filter_blocks result_block ensure_non_empty
first_stays m b bs ms u e plain =
    let r = results init_state m in
    (
      flush_message r.1.pending ++ pair_messages (flushed r.1) ms,
      (filter_blocks result_block init_state bs).0,
      rw (pair_messages-user init_state m ms u) (ground arith),
    )
