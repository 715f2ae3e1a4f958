-- ===== src/Context/Pairing/Contract.antt =====
-- The provider's contract on tool calls, and that the repair of internal/contextmgmt/pairing.go
-- meets it.
use mathlib.Core.List.{append-nil, append_assoc}
use nowhere_agent.Base.{
  ◌+◌, ◌≤◌, ◌≡◌, refl, String, true, List, [], ◌∷◌, ◌++◌, map, arith, count, count_absent,
  count_present, str_eq, eq_iff, if◌then◌else◌, ap, sym,
}
use nowhere_agent.Provider.{Block, Message, is_tool_use, is_tool_result, is_assistant}
use nowhere_agent.Context.Pairing.{
  PairState, interrupted, flush_message, ensure_non_empty, remove_pending, use_block, result_block,
  filter_blocks,
}

-- The ids of the tool calls among the blocks, in order.
abbrev pub use_ids : List Block → List String
use_ids [] = []
use_ids (b ∷ bs) = if is_tool_use b then b.tool_use_id ∷ use_ids bs else use_ids bs

-- The ids that the tool results among the blocks answer, in order.
abbrev pub result_ids : List Block → List String
result_ids [] = []
result_ids (b ∷ bs) = if is_tool_result b then b.tool_result_id ∷ result_ids bs else result_ids bs

-- The results that stand before the next assistant message.
abbrev pub answers : List Message → List String
answers [] = []
answers (m ∷ ms) = if is_assistant m then [] else result_ids m.content ++ answers ms

-- All calls of a conversation.
abbrev pub calls : List Message → List String
calls [] = []
calls (m ∷ ms) = if is_assistant m then use_ids m.content ++ calls ms else calls ms

-- Every call of every assistant message is answered before the next assistant message as often as
-- it is made, and nothing else is answered there.
abbrev pub AllAnswered : List Message → Type 0
AllAnswered [] = Unit
AllAnswered (m ∷ ms) =
    (is_assistant m ≡ true → (id : String) → count id (answers ms) ≡ count id (use_ids m.content))
    × AllAnswered ms

-- The whole contract: no result before the first call, all calls answered, no id called twice.
pub record Contract (ms : List Message) : Type 0 where
  pub no_orphan : (id : String) → count id (answers ms) ≡ 0
  pub answered : AllAnswered ms
  pub distinct : (id : String) → count id (calls ms) ≤ 1

result_ids-interrupted : (ids : List String) → result_ids (map interrupted ids) ≡ ids
result_ids-interrupted [] = refl
result_ids-interrupted (id ∷ ids) = ap (◌∷◌ id) (result_ids-interrupted ids)

-- A flush answers what is pending.
pub answers-flush_message :
    (ids : List String) (ms : List Message) → answers (flush_message ids ++ ms) ≡ ids ++ answers ms
unfolding flush_message
answers-flush_message [] ms = refl
answers-flush_message (id ∷ ids) ms = ap (λ xs. id ∷ xs ++ answers ms) (result_ids-interrupted ids)

pub calls-flush_message :
    (ids : List String) (ms : List Message) → calls (flush_message ids ++ ms) ≡ calls ms
unfolding flush_message
calls-flush_message [] ms = refl
calls-flush_message (id ∷ ids) ms = refl

pub AllAnswered-flush_message :
    (ids : List String) (ms : List Message) → AllAnswered ms → AllAnswered (flush_message ids ++ ms)
unfolding flush_message
AllAnswered-flush_message [] ms h = h
AllAnswered-flush_message (id ∷ ids) ms h = (λ e k. cc, h)

pub use_ids-ensure_non_empty : (bs : List Block) → use_ids (ensure_non_empty bs) ≡ use_ids bs
unfolding ensure_non_empty
use_ids-ensure_non_empty [] = refl
use_ids-ensure_non_empty (b ∷ bs) = refl

pub result_ids-ensure_non_empty :
    (bs : List Block) → result_ids (ensure_non_empty bs) ≡ result_ids bs
unfolding ensure_non_empty
result_ids-ensure_non_empty [] = refl
result_ids-ensure_non_empty (b ∷ bs) = refl

-- Of an assistant message exactly the calls that stay become pending.
pub pending-use_blocks :
    (s : PairState) (bs : List Block)
    → (filter_blocks use_block s bs).1.pending
      ≡ s.pending ++ use_ids (filter_blocks use_block s bs).0
unfolding filter_blocks use_block
pending-use_blocks s [] = sym (append-nil s.pending)
pending-use_blocks s (b ∷ bs) = ground (
  arith,
  pending-use_blocks (use_block s b).1 bs,
  append_assoc s.pending (b.tool_use_id ∷ [])
      (use_ids (filter_blocks use_block (use_block s b).1 bs).0),
)

module _ (id : String) where
  pub count-remove_pending :
      (ids : List String) (k : String)
      → count id (remove_pending ids k) ≡ (if str_eq k id then 0 else count id ids)
  unfolding remove_pending
  count-remove_pending [] k = ground arith
  count-remove_pending (x ∷ ids) k =
      ground (arith, count-remove_pending ids k, eq_iff x k, eq_iff x id, eq_iff k id)

  pub seen_use-use_blocks :
      (s : PairState) (bs : List Block)
      → count id s.seen_use ≤ 1
      → let r = filter_blocks use_block s bs in
        (count id r.1.seen_use ≡ count id (use_ids r.0) + count id s.seen_use)
        × (count id r.1.seen_use ≤ 1)
  unfolding filter_blocks use_block
  seen_use-use_blocks s [] h = (omega arith, h)
  seen_use-use_blocks s (b ∷ bs) h = ground (
    arith,
    seen_use-use_blocks (use_block s b).1 bs,
    count_absent b.tool_use_id s.seen_use,
    eq_iff b.tool_use_id id,
  )

  -- Of a user message the results that stay are those that are no longer pending.
  pub pending-result_blocks :
      (s : PairState) (bs : List Block)
      → count id s.pending ≤ 1
      → let r = filter_blocks result_block s bs in
        (count id (result_ids r.0) + count id r.1.pending ≡ count id s.pending)
        × (r.1.seen_use ≡ s.seen_use)
  unfolding filter_blocks result_block
  pending-result_blocks s [] h = (omega arith, refl)
  pending-result_blocks s (b ∷ bs) h = ground (
    arith,
    pending-result_blocks (result_block s b).1 bs,
    count_present b.tool_result_id s.pending,
    count-remove_pending s.pending b.tool_result_id,
    eq_iff b.tool_result_id id,
  )
