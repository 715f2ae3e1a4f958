-- ===== src/Context/Pairing/Settled.antt =====
-- Conversations in which every call is answered at once, and what the loops of
-- internal/contextmgmt/pairing.go over one message do there.
use nowhere_agent.Base.{
  ◌+◌, ◌≤◌, ◌≡◌, ◌≢◌, refl, String, true, List, [], ◌∷◌, arith, count, count_present, count_absent,
  eq_iff, eq_refl, if◌then◌else◌,
}
use nowhere_agent.Provider.{Block, Message, is_assistant}
use nowhere_agent.Context.Pairing.{PairState, use_block, result_block, filter_blocks, is_pending}
use nowhere_agent.Context.Pairing.Contract.{use_ids, result_ids, count-remove_pending}

-- What a message answers, and what is owed after it.
abbrev pub answered_by : Message → List String
answered_by m = if is_assistant m then [] else result_ids m.content

abbrev pub owed_after : Message → List String
owed_after m = if is_assistant m then use_ids m.content else []

-- No message is empty, and each answers exactly what the one before it calls; `owed` is what is
-- called before the first.
abbrev pub Settled : List String → List Message → Type 0
Settled owed [] = owed ≡ []
Settled owed (m ∷ ms) =
    (m.content ≢ [])
    × ((id : String) → count id (answered_by m) ≡ count id owed)
    × Settled (owed_after m) ms

-- No id that was answered or is pending was called more than once.
pub record Fresh (s : PairState) : Type 0 where
  pub once : (id : String) → count id s.seen_result + count id s.pending ≤ count id s.seen_use

pub empty_of_count : (ids : List String) → ((id : String) → count id ids ≡ 0) → ids ≡ []
empty_of_count [] h = refl
empty_of_count (x ∷ ids) h = ground (arith, h x, eq_refl x)

-- One block at a time: it stays, and the premise holds for the rest.
module _ (s : PairState) (b : Block) (bs : List Block)
    (room : (id : String) → count id s.seen_use + count id (use_ids (b ∷ bs)) ≤ 1) where
  use_block_stays : ((use_block s b).0 ≡ true) × ((use_block s b).1.seen_result ≡ s.seen_result)
  unfolding use_block
  use_block_stays =
      ground
        (arith, count_present b.tool_use_id s.seen_use, room b.tool_use_id, eq_refl b.tool_use_id)

  use_block_room : (id : String) → count id (use_block s b).1.seen_use + count id (use_ids bs) ≤ 1
  unfolding use_block
  use_block_room id = ground (arith, room id, count_absent id s.seen_use)

pub use_blocks_same :
    (s : PairState) (bs : List Block)
    → ((id : String) → count id s.seen_use + count id (use_ids bs) ≤ 1)
    → let r = filter_blocks use_block s bs in (r.0 ≡ bs) × (r.1.seen_result ≡ s.seen_result)
unfolding filter_blocks
use_blocks_same s [] h = (refl, refl)
use_blocks_same s (b ∷ bs) h = ground (
  arith,
  use_block_stays s b bs h,
  use_blocks_same (use_block s b).1 bs (use_block_room s b bs h),
)

module _ (s : PairState) (b : Block) (bs : List Block)
    (wanted : (id : String) → count id (result_ids (b ∷ bs)) ≤ count id s.pending)
    (once : (id : String) → count id s.seen_result + count id s.pending ≤ 1) where
  result_block_stays : (result_block s b).0 ≡ true
  unfolding result_block is_pending
  result_block_stays = ground (
    arith,
    count_present b.tool_result_id s.seen_result,
    count_absent b.tool_result_id s.pending,
    wanted b.tool_result_id,
    once b.tool_result_id,
    eq_refl b.tool_result_id,
  )

  result_block_wanted :
      (id : String) → count id (result_ids bs) ≤ count id (result_block s b).1.pending
  unfolding result_block is_pending
  result_block_wanted id = ground (
    arith,
    wanted id,
    once id,
    count-remove_pending id s.pending b.tool_result_id,
    eq_iff b.tool_result_id id,
  )

  result_block_once :
      (id : String)
      → count id (result_block s b).1.seen_result + count id (result_block s b).1.pending ≤ 1
  unfolding result_block is_pending
  result_block_once id = ground (
    arith,
    once id,
    count-remove_pending id s.pending b.tool_result_id,
    count_present b.tool_result_id s.pending,
    eq_iff b.tool_result_id id,
  )

pub result_blocks_same :
    (s : PairState) (bs : List Block)
    → ((id : String) → count id (result_ids bs) ≤ count id s.pending)
    → ((id : String) → count id s.seen_result + count id s.pending ≤ 1)
    → (filter_blocks result_block s bs).0 ≡ bs
unfolding filter_blocks
result_blocks_same s [] h k = refl
result_blocks_same s (b ∷ bs) h k = ground (
  arith,
  result_block_stays s b bs h k,
  result_blocks_same (result_block s b).1 bs (result_block_wanted s b bs h k)
      (result_block_once s b bs h k),
)

pub count-seen_result :
    (id : String) (s : PairState) (bs : List Block)
    → let r = filter_blocks result_block s bs in
      count id r.1.seen_result + count id r.1.pending ≤ count id s.seen_result + count id s.pending
unfolding filter_blocks result_block is_pending
count-seen_result id s [] = omega arith
count-seen_result id s (b ∷ bs) = ground (
  arith,
  count-seen_result id (result_block s b).1 bs,
  count-remove_pending id s.pending b.tool_result_id,
  count_present b.tool_result_id s.pending,
  eq_iff b.tool_result_id id,
)
