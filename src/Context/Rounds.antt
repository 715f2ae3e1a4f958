-- ===== src/Context/Rounds.antt =====
-- Cut-safe rounds, internal/contextmgmt/rounds.go, with `SummaryPrefix` and `IsSummary` of
-- internal/contextmgmt/compress.go, on which the dropping of rounds depends.

pub mod Partition
pub mod Drops
pub mod Summary
pub mod Cuts
use Prim.Native.String.{◌++◌ as append}
use text.Mathlib.Text.{starts_with}
use nowhere_agent.Base.{
  ℕ, zero, suc, ◌+◌, String, Bool, true, false, not, ◌&&◌, ◌||◌, List, [], ◌∷◌, Option, none, some,
  contains, str_eq, length, drop, ltb, leb, if◌then◌else◌,
}
use nowhere_agent.Provider.{
  Block, BlockType, Message, user, assistant, is_tool_use, is_tool_result, is_assistant,
}
use nowhere_agent.Context.Pairing.{ensure_pairing}

-- `start` is the index of the first message, `end` is one past the last.
pub record Round : Type 0 where
  pub start : ℕ
  pub end : ℕ

-- The set of the ids of a message's calls; the map is a list without repetitions.
unfoldable pub tool_use_ids : List Block → List String
tool_use_ids [] = []
tool_use_ids (b ∷ bs) =
    let ids = tool_use_ids bs in
    if is_tool_use b && not (str_eq b.tool_use_id "") && not (contains b.tool_use_id ids)
    then b.tool_use_id ∷ ids
    else ids

unfoldable pub is_tool_result_msg : List Block → Bool
is_tool_result_msg [] = false
is_tool_result_msg (b ∷ bs) = is_tool_result b || is_tool_result_msg bs

unfoldable pub count_answered : List Block → List String → ℕ
count_answered [] want = 0
count_answered (b ∷ bs) want =
    let n = count_answered bs want in
    if is_tool_result b && contains b.tool_result_id want then suc n else n

-- The inner loop from index `j` on, which is the end of the round so far; the list is what stands
-- from `j` on.
unfoldable pub answers_end : List String → ℕ → ℕ → List Message → ℕ
answers_end ids answered j [] = j
answers_end ids answered j (m ∷ ms) =
    let next = answers_end ids (answered + count_answered m.content ids) (j + 1) ms in
    if ltb answered (length ids) && is_tool_result_msg m.content then next else j

-- The round that begins with `m` at index `i`; `ms` is what follows `m`.
unfoldable pub round_at : ℕ → Message → List Message → Round
round_at i m ms =
    let ids = tool_use_ids m.content in
    record {
      start = i;
      end = if is_assistant m && ltb 0 (length ids) then answers_end ids 0 (i + 1) ms else i + 1;
    }

-- The outer loop; `i` is at most the number of messages, and the fuel is at least what is left.
unfoldable pub group_from : ℕ → ℕ → List Message → List Round
group_from zero i msgs = []
group_from (suc fuel) i msgs = elim (drop i msgs) [
  | [] ↦ []
  | m ∷ ms ↦ let r = round_at i m ms in r ∷ group_from fuel r.end msgs
]

unfoldable pub group_rounds : List Message → List Round
group_rounds msgs = group_from (length msgs) 0 msgs

abbrev pub summary_prefix : String
summary_prefix = "[Earlier conversation summarized]\n"

unfoldable pub is_summary : Message → Bool
is_summary m = elim m.content [
  | [] ↦ false
  | b ∷ bs ↦
      not (is_assistant m)
      && (elim b.type [ BlockType.text ↦ true | _ ↦ false ])
      && starts_with b.text summary_prefix
]

-- The second result is `ok`; where it is false the first is the messages as they were.
unfoldable pub drop_oldest_round : List Message → List Message × Bool
drop_oldest_round msgs = elim (group_rounds msgs) [
  | [] ↦ (msgs, false)
  | r ∷ rs ↦ elim rs [ [] ↦ (msgs, false) | _ ↦ (ensure_pairing (drop r.end msgs), true) ]
]

-- `msgs[0]` followed by `msgs[n:]`.
unfoldable pub head_and_from : ℕ → List Message → List Message
head_and_from n [] = []
head_and_from n (m ∷ ms) = m ∷ drop n (m ∷ ms)

unfoldable pub leads_with_summary : List Message → Bool
leads_with_summary [] = false
leads_with_summary (m ∷ ms) = is_summary m

unfoldable pub drop_oldest_keeping_summary : List Message → List Message × Bool
drop_oldest_keeping_summary msgs = elim (group_rounds msgs) [
  | [] ↦ (msgs, false)
  | r ∷ rs ↦ elim rs [
    | [] ↦ (msgs, false)
    | r1 ∷ _ ↦
        if leads_with_summary msgs
        then (ensure_pairing (head_and_from r1.end msgs), true)
        else (msgs, false)
  ]
]

unfoldable pub drop_oldest_round_preserving_summary : List Message → List Message × Bool
drop_oldest_round_preserving_summary msgs = elim (group_rounds msgs) [
  | [] ↦ (msgs, false)
  | r ∷ rs ↦ elim rs [
    | [] ↦ (msgs, false)
    | r1 ∷ rest ↦
        if leads_with_summary msgs
        then (elim rest [
          | [] ↦ (msgs, false)
          | _ ↦ (ensure_pairing (head_and_from r1.end msgs), true)
        ])
        else (ensure_pairing (drop r.end msgs), true)
  ]
]
