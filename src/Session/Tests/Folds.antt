-- ===== src/Session/Tests/Folds.antt =====
-- The commit of a fold, and the scan for a batch to fold, at a session with one suspended run.
use nowhere_agent.Base.{◌≡◌, refl, String, [], ◌∷◌, none, some, ◌⊎◌, length, str_eq, if◌then◌else◌}
use nowhere_agent.Base.Int.{pos}
use nowhere_agent.Base.Dict.{lookup, insert}
use nowhere_agent.Provider.{BlockType, assistant, empty_block}
use nowhere_agent.Session.Types.{Run, run_done, Interaction, rejected, SuspendedBatch}
use nowhere_agent.Session.Orders.{sort_by, insert_by}
use nowhere_agent.Session.Store.{MemStore, new_mem_store, entries, runs_for_session, runs_of}
use nowhere_agent.Session.Gate.{
  pending_approvals_for_run, approvals_for_run, interactions, suspended_batch_for_run,
  suspended_batches_for_session, mark_batch_folded,
}
use nowhere_agent.Session.Messages.{
  MemMessageStore, new_mem_message_store, append_message, messages_tail, tail_from,
}
use nowhere_agent.Session.Fold.{
  Reader, calls_in, scan_batch, suspended_batch_calls, fold_results, fold_slots, fold_slot,
  fold_interaction, fold_approval, fold_content, to_dispatch, fill,
}
use nowhere_agent.Session.Fold.Commit.{
  Stores, fold_history, commit_fold, fold_unfolded, fold_batch, truncate_blocks, truncate_block,
}
use nowhere_agent.Session.Fold.Commit.Once.{IsFolded, OneMore, fold_batch-Settles}
use nowhere_agent.Session.Recovery.{by_run, is_ready, first_ready, decided_but_unfolded_run}
use nowhere_agent.Session.Recovery.Newest.{Newest, decided_but_unfolded_run-Newest}

abbrev reader : Reader
reader = record {
  payload_args = λ payload. [];
  client_answer = λ text. none;
  compact = λ text. some text;
  output_violation = λ tool answer. none;
}

abbrev run : String → Run
run id = record {
  id = id;
  session = "s";
  seq = if str_eq id "r1" then 1 else 2;
  status = run_done;
  created_at = 1;
  finished_at = some 2;
  team = "";
  model = "";
  usage = none;
}

abbrev snapshot : SuspendedBatch
snapshot = record {
  run = "r1";
  session = "s";
  message_seq = none;
  tool_calls = "t" ∷ [];
  folded_seq = none;
  created_at = 1;
}

abbrev denied : Interaction
denied = record {
  id = "i";
  run = "r1";
  session = "s";
  tool_call = "t";
  tool_name = "echo";
  payload = "";
  kind = "approval";
  status = rejected;
  result = none;
  created_at = 1;
  decided_at = some 1;
  seq = 1;
}

-- The second run has suspended nothing.
abbrev store : MemStore
store = record new_mem_store {
  runs = ("r1", run "r1") ∷ ("r2", run "r2") ∷ [];
  by_session = ("s", "r1" ∷ "r2" ∷ []) ∷ [];
  approvals = ("i", denied) ∷ [];
  batches = ("r1", snapshot) ∷ [];
}

abbrev messages : MemMessageStore
messages =
    (append_message new_mem_message_store
      (record {
        id = pos 0;
        session = "s";
        run = "r1";
        seq = 0;
        role = assistant;
        content =
            record (empty_block BlockType.tool_use) { tool_use_id = "t"; tool_name = "echo" } ∷ [];
        created_at = 0;
        usage = none;
        metadata = none;
      })
      1).0

abbrev before : Stores
before = record { store = store; messages = messages }

abbrev after : Stores
after = (fold_batch reader (λ n. "0") (λ calls. []) [] none before "s" "r1" 3).0

folding : Unit {0}
unfolding fold_batch fold_unfolded fold_history commit_fold truncate_blocks truncate_block
    suspended_batch_for_run approvals_for_run interactions messages_tail tail_from append_message
    suspended_batch_calls scan_batch calls_in fold_results fold_slots fold_slot fold_interaction
    fold_approval fold_content to_dispatch fill mark_batch_folded lookup insert sort_by insert_by
folding = tt

-- The fold returns, and answers the call in a second message.
fold_returns : length (entries "s" after.messages.by_session) ≡ 2
unfolding folding
fold_returns = refl

fold_batch-Settles_example :
    IsFolded reader (λ n. "0") after "s" "r1"
    × ((after ≡ before) ⊎ OneMore reader (λ n. "0") before after "s" "r1")
unfolding folding
fold_batch-Settles_example =
    fold_batch-Settles reader (λ n. "0") (λ calls. []) [] none before "s" "r1" 3

finds_the_first : decided_but_unfolded_run store "s" ≡ some (run "r1")
unfolding decided_but_unfolded_run first_ready is_ready by_run suspended_batches_for_session
    pending_approvals_for_run interactions runs_for_session runs_of lookup insert sort_by insert_by
finds_the_first = refl

decided_but_unfolded_run-Newest_example :
    Newest
      (is_ready store (by_run (suspended_batches_for_session store "s") []))
      (runs_for_session store "s")
      (decided_but_unfolded_run store "s")
decided_but_unfolded_run-Newest_example = decided_but_unfolded_run-Newest store "s"
