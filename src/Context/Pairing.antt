-- ===== src/Context/Pairing.antt =====
-- Repair of tool pairing, internal/contextmgmt/pairing.go. The output list, which the code only
-- appends to, is what a step returns; the two maps of seen ids are lists of texts.
pub mod Contract
pub mod Steps
pub mod Measure
pub mod Repair
pub mod Settled
pub mod Untouched
pub mod Late
use nowhere_agent.Base.{
  String, Bool, true, false, not, List, [], ◌∷◌, ◌++◌, map, contains, keep, str_eq, if◌then◌else◌,
}
use nowhere_agent.Provider.{
  Block, BlockType, Message, user, assistant, empty_block, text_block, is_tool_use, is_tool_result,
}

pub record PairState : Type 0 where
  pub seen_use : List String
  pub seen_result : List String
  pub pending : List String

abbrev pub init_state : PairState
init_state = record { seen_use = []; seen_result = []; pending = [] }

-- The synthesized answer to a tool call that has none.
abbrev pub interrupted : String → Block
interrupted id = record (empty_block BlockType.tool_result) {
  tool_result_id = id;
  tool_content = "[Tool use interrupted]";
  is_error = true;
}

-- One message that answers all of the ids; none if there are none.
unfoldable pub flush_message : List String → List Message
flush_message [] = []
flush_message (id ∷ ids) = record { role = user; content = map interrupted (id ∷ ids) } ∷ []

-- With nothing pending this appends nothing and leaves the state as it is.
unfoldable pub flush_pending : PairState → List Message × PairState
unfolding flush_message
flush_pending s =
    (flush_message s.pending, record s { pending = []; seen_result = s.pending ++ s.seen_result })

unfoldable pub ensure_non_empty : List Block → List Block
ensure_non_empty [] = text_block "[Orphaned tool result removed]" ∷ []
ensure_non_empty (b ∷ bs) = b ∷ bs

unfoldable pub is_pending : List String → String → Bool
is_pending pending id = contains id pending

unfoldable pub remove_pending : List String → String → List String
remove_pending pending id = keep (λ p. not (str_eq p id)) pending

-- Whether a block of an assistant message stays, and the state after it.
unfoldable pub use_block : PairState → Block → Bool × PairState
use_block s b =
    if is_tool_use b
    then (if contains b.tool_use_id s.seen_use then (false, s) else (
      true,
      record s { seen_use = b.tool_use_id ∷ s.seen_use; pending = s.pending ++ b.tool_use_id ∷ [] },
    ))
    else (true, s)

-- Whether a block of a user message stays, and the state after it.
unfoldable pub result_block : PairState → Block → Bool × PairState
unfolding is_pending remove_pending
result_block s b =
    if is_tool_result b
    then (if contains b.tool_result_id s.seen_result
        then (false, s)
        else if is_pending s.pending b.tool_result_id
        then (
          true,
          record s {
            seen_result = b.tool_result_id ∷ s.seen_result;
            pending = remove_pending s.pending b.tool_result_id;
          },
        )
        else (false, s))
    else (true, s)

-- The loop over the blocks of one message.
unfoldable pub filter_blocks :
    (PairState → Block → Bool × PairState) → PairState → List Block → List Block × PairState
filter_blocks step s [] = ([], s)
filter_blocks step s (b ∷ bs) =
    let (stays, s') = step s b in
    let (kept, s'') = filter_blocks step s' bs in (if stays then b ∷ kept else kept, s'')

-- One round of the loop over the messages: what it appends to the output, and the state after it.
unfoldable pub pair_message : PairState → Message → List Message × PairState
pair_message s m = elim m.role [
  | assistant ↦
      let (flushed, s') = flush_pending s in
      let (content, s'') = filter_blocks use_block s' m.content in
      (flushed ++ record m { content = ensure_non_empty content } ∷ [], s'')
  | user ↦
      let (content, s') = filter_blocks result_block s m.content in
      let (flushed, s'') = flush_pending s' in
      (record m { content = ensure_non_empty content } ∷ flushed, s'')
]

unfoldable pub pair_messages : PairState → List Message → List Message
pair_messages s [] = (flush_pending s).0
pair_messages s (m ∷ ms) = let (out, s') = pair_message s m in out ++ pair_messages s' ms

unfoldable pub ensure_pairing : List Message → List Message
ensure_pairing msgs = pair_messages init_state msgs
