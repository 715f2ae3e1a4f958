-- ===== src/Context/Tests.antt =====
-- The theorems on internal/contextmgmt at conversations that meet their hypotheses, and runs.
use nowhere_agent.Base.{
  ℕ, ◌*◌, ◌/◌, ◌≤◌, ◌≡◌, refl, String, true, List, [], ◌∷◌, ◌++◌, Option, none, some, arith, ltb,
  length, drop, count, All, eq_iff,
}
use nowhere_agent.Base.Int.{pos, clamp}
use nowhere_agent.Provider.{Block, BlockType, Message, user, assistant, empty_block, text_message}
use nowhere_agent.Context.Pairing.{
  interrupted, flush_message, flush_pending, ensure_non_empty, is_pending, remove_pending,
  use_block, result_block, filter_blocks, pair_message, pair_messages, ensure_pairing,
}
use nowhere_agent.Context.Pairing.Contract.{Contract, calls}
use nowhere_agent.Context.Pairing.Repair.{ensure_pairing-Contract}
use nowhere_agent.Context.Pairing.Settled.{Settled}
use nowhere_agent.Context.Pairing.Untouched.{ensure_pairing-Settled}
use nowhere_agent.Context.Pairing.Late.{ensure_pairing-late}
use nowhere_agent.Context.Rounds.{
  tool_use_ids, is_tool_result_msg, count_answered, answers_end, round_at, group_from, group_rounds,
  is_summary, leads_with_summary, head_and_from,
}
use nowhere_agent.Context.Rounds.Partition.{Covers, group_rounds-Covers}
use nowhere_agent.Context.Rounds.Cuts.{Named, group_rounds-Settled}
use nowhere_agent.Context.Tokens.{
  add, tokens, count_input, count_block, count_blocks, count_messages, estimate_tokens, input_bytes,
  block_bytes, blocks_bytes, content_bytes,
}
use nowhere_agent.Context.Compress.{
  Floats, Policy, CompressionCache, Outcome, ok, panic, should_compress, compress_with_cache,
}
use nowhere_agent.Context.Compress.Views.{
  IsView, Fits, compress_with_cache-IsView, compress_with_cache-panic,
}
use nowhere_agent.Context.Compress.Coverage.{Coherent, compress_with_cache-Coherent}

pairing : Unit {0}
unfolding flush_message flush_pending ensure_non_empty is_pending remove_pending use_block
    result_block filter_blocks pair_message pair_messages ensure_pairing
pairing = tt

rounds : Unit {0}
unfolding tool_use_ids is_tool_result_msg count_answered answers_end round_at group_from
    group_rounds is_summary leads_with_summary head_and_from
rounds = tt

estimates : Unit {0}
unfolding add tokens count_input count_block count_blocks count_messages estimate_tokens input_bytes
    block_bytes blocks_bytes content_bytes should_compress
estimates = tt

abbrev call : String → Block
call id = record (empty_block BlockType.tool_use) { tool_use_id = id; tool_name = "search" }

abbrev answer : String → Block
answer id = record (empty_block BlockType.tool_result) {
  tool_result_id = id;
  tool_content = "found";
}

abbrev calls_t1 : Message
calls_t1 = record { role = assistant; content = call "t1" ∷ [] }

abbrev answers_t1 : Message
answers_t1 = record { role = user; content = answer "t1" ∷ [] }

abbrev settled : List Message
settled = text_message user "hi" ∷ calls_t1 ∷ answers_t1 ∷ text_message assistant "done" ∷ []

-- A call that was cancelled, and an answer to a call that is gone.
abbrev damaged : List Message
damaged = answers_t1 ∷ calls_t1 ∷ text_message assistant "never mind" ∷ []

damaged_repair :
    ensure_pairing damaged
    ≡ text_message user "[Orphaned tool result removed]"
      ∷ calls_t1
      ∷ record { role = user; content = interrupted "t1" ∷ [] }
      ∷ text_message assistant "never mind"
      ∷ []
unfolding pairing
damaged_repair = refl

ensure_pairing-Contract_example : Contract (ensure_pairing damaged)
ensure_pairing-Contract_example = ensure_pairing-Contract damaged

settled-Settled : Settled [] settled
settled-Settled =
    (λ e. cc, λ id. refl, (λ e. cc, λ id. refl, (λ e. cc, λ id. refl, (λ e. cc, λ id. refl, refl))))

settled_distinct : (id : String) → count id (calls settled) ≤ 1
settled_distinct id = ground (arith, eq_iff "t1" id)

ensure_pairing-Settled_example : ensure_pairing settled ≡ settled
ensure_pairing-Settled_example = ensure_pairing-Settled settled settled-Settled settled_distinct

abbrev asks : Message
asks = record {
  role = assistant;
  content = record (empty_block BlockType.tool_use) { tool_use_id = "t1" } ∷ [];
}

ensure_pairing-late_example : ¬ Settled [] (
    ensure_pairing
      (text_message user "hello" ∷ asks ∷ text_message user "stop" ∷ text_message user "go" ∷ []))
ensure_pairing-late_example =
    (ensure_pairing-late "t1" (text_message user "hello" ∷ []) asks (text_message user "stop")
      (text_message user "go" ∷ []) refl refl (λ e. absurd (ground (arith, e))) refl refl
      (omega arith)).1

settled_grouping :
    group_rounds settled
    ≡ record { start = 0; end = 1 }
      ∷ record { start = 1; end = 3 }
      ∷ record { start = 3; end = 4 }
      ∷ []
unfolding rounds
settled_grouping = refl

group_rounds-Covers_example : Covers 0 (group_rounds settled) 4
group_rounds-Covers_example = group_rounds-Covers settled

settled-Named : Named settled
settled-Named = (refl, (refl, (refl, (refl, tt))))

group_rounds-Settled_example : All (λ r. Settled [] (drop r.start settled)) (group_rounds settled)
group_rounds-Settled_example = group_rounds-Settled settled settled-Named settled-Settled

-- A percentage stands for the threshold.
abbrev percent : Floats ℕ
percent = record { positive = λ x. ltb 0 x; scale = λ z x. pos (clamp z * x / 100) }

abbrev policy : Policy ℕ
policy = record { max_tokens = pos 4; threshold = 50; keep_recent = pos 1 }

abbrev summarize : List Message → Outcome String
summarize ms = ok "s"

settled_over : should_compress percent settled policy ≡ true
unfolding estimates
settled_over = refl

settled_rounds : 1 ≤ length (group_rounds settled) × (2 ≤ length (group_rounds settled))
unfolding rounds
settled_rounds = (omega arith, omega arith)

compress_with_cache-IsView_example :
    (view : List Message) × (cache' : Option CompressionCache) × (compress_with_cache percent
        summarize settled policy none
      ≡ (ok view, cache'))
    × IsView view
    × Fits percent policy view
compress_with_cache-IsView_example =
    compress_with_cache-IsView percent policy summarize (λ ms. ("s", refl)) settled none
      (omega arith) settled_over settled_rounds.1

abbrev keep_none : Policy ℕ
keep_none = record policy { keep_recent = pos 0 }

keep_none_over : should_compress percent settled keep_none ≡ true
unfolding estimates
keep_none_over = refl

compress_with_cache-panic_example :
    compress_with_cache percent summarize settled keep_none none ≡ (panic, none)
compress_with_cache-panic_example =
    compress_with_cache-panic percent keep_none summarize (text_message user "hi")
      (calls_t1 ∷ answers_t1 ∷ text_message assistant "done" ∷ []) none refl keep_none_over

abbrev cache : Option CompressionCache
cache = some (record { covered = 1; covered_bytes = 2; summary = "s" })

cache-Coherent : Coherent cache settled
unfolding estimates
cache-Coherent = (omega arith, refl)

compress_with_cache-Coherent_example :
    Coherent
      (compress_with_cache percent summarize settled policy cache).1
      (settled ++ text_message user "more" ∷ [])
compress_with_cache-Coherent_example =
    compress_with_cache-Coherent percent policy summarize settled (text_message user "more" ∷ [])
      cache cache-Coherent
