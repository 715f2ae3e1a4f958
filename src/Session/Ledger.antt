-- ===== src/Session/Ledger.antt =====
-- The steps, the usage and the events of a run (internal/session/memstore.go). The counts of
-- `provider.Usage` are added as Go adds 64-bit integers.
pub mod Steps
pub mod Events
use nowhere_agent.Base.{
  ℕ, zero, reverse, suc, ◌+◌, ◌*◌, ◌%◌, ◌≡◌, refl, String, Bool, true, false, not, List, [], ◌∷◌,
  ◌++◌, Option, none, some, arith, length, take, keep, if◌then◌else◌,
}
use nowhere_agent.Base.Int.{ℤ, pos, negsuc, is_positive, clamp}
use nowhere_agent.Base.Dict.{Dict, lookup, insert}
pub use nowhere_agent.Provider.{word, add_usage}
use nowhere_agent.Session.Types.{
  Usage, Event, RunStep, StepKind, step_assistant, step_tool, step_overflow_compact, UsageRecord,
}
use nowhere_agent.Session.Orders.{int_less, sort_by}
use nowhere_agent.Session.Store.{MemStore, entries}

abbrev pub same_kind : StepKind → StepKind → Bool
same_kind step_assistant step_assistant = true
same_kind step_tool step_tool = true
same_kind step_overflow_compact step_overflow_compact = true
same_kind _ _ = false

-- The attempt that a step of this kind behind the given ones is.
abbrev pub attempt_after : StepKind → List RunStep → ℕ
attempt_after kind [] = 1
attempt_after kind (s ∷ ss) =
    if same_kind s.kind kind then suc (attempt_after kind ss) else attempt_after kind ss

-- The id of the message that a step is to produce.
abbrev pub message_id : StepKind → Option ℤ → ℕ → Option ℤ
message_id step_overflow_compact given taken = none
message_id step_assistant (some id) taken = some id
message_id step_assistant none taken = some (negsuc taken)
message_id step_tool (some id) taken = some id
message_id step_tool none taken = some (negsuc taken)

unfoldable pub append_run_step :
    MemStore → String → StepKind → String → Option ℤ → ℕ → MemStore × RunStep
append_run_step m run kind tool_call result_message now =
    let steps = entries run m.steps in
    let st : RunStep = record {
      id = length steps + 1;
      run = run;
      seq = length steps + 1;
      kind = kind;
      attempt = attempt_after kind steps;
      result_message = message_id kind result_message (length m.usage_records + length steps);
      tool_call = tool_call;
      created_at = now;
    } in
    (record m { steps = insert run (steps ++ st ∷ []) m.steps }, st)

-- The loop of `LatestRunSteps` over the steps from the last to the first, with room for `n`.
unfoldable pub latest : ℕ → List RunStep → List RunStep
latest zero ss = []
latest (suc n) [] = []
latest (suc n) (s ∷ ss) =
    let next = latest n ss in
    let same = latest (suc n) ss in
    if same_kind s.kind step_overflow_compact then same else s ∷ next

unfoldable pub latest_run_steps : MemStore → String → ℤ → List RunStep
latest_run_steps m run limit =
    latest (if is_positive limit then clamp limit else 1) (reverse (entries run m.steps))

unfoldable pub append_usage_record : MemStore → UsageRecord → ℕ → MemStore
append_usage_record m rec now =
    let records = entries rec.run m.usage_records in
    record m {
      usage_records =
          insert rec.run (records ++ record rec { id = length records + 1; created_at = now } ∷ [])
            m.usage_records;
    }

unfoldable pub sum_records : Usage → List UsageRecord → Usage
sum_records u [] = u
sum_records u (r ∷ rs) = sum_records (add_usage u r.usage) rs

unfoldable pub sum_usage : MemStore → String → Usage
sum_usage m run =
    sum_records (record { input = 0; output = 0; cache_read = 0; cache_write = 0; reasoning = 0 })
      (entries run m.usage_records)

unfoldable pub append_event : MemStore → Event → ℕ → MemStore
append_event m e now = record m {
  events = insert e.run (entries e.run m.events ++ record e { created_at = now } ∷ []) m.events;
}

abbrev pub offset_less : Event → Event → Bool
offset_less d e = int_less d.offset e.offset

unfoldable pub events_after : MemStore → String → ℤ → List Event
events_after m run after =
    sort_by offset_less (keep (λ e. int_less after e.offset) (entries run m.events))
