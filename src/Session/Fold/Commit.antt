-- ===== src/Session/Fold/Commit.antt =====
-- Deciding an interaction, and folding a decided batch into the record: RecordDecision, FoldBatch and
-- Decide of internal/session/fold.go over the two stores in memory, with
-- internal/contextmgmt/truncate.go. A text is taken for its bytes.
pub mod Once
use Prim.Native.String.{◌++◌ as append, len, slice}
use nowhere_agent.Base.{
  ℕ, ◌-◌, ltb, leb, String, Bool, true, false, not, List, [], ◌∷◌, ◌++◌, Option, none, some, ◌⊎◌,
  inl, inr, length, drop, map, if◌then◌else◌,
}
use nowhere_agent.Base.Int.{pos}
use nowhere_agent.Provider.{Block, Message, user, text_message, is_tool_result}
use nowhere_agent.Agent.{Call, ToolResult, Registry, GateFunc}
use nowhere_agent.Session.Types.{Interaction, SuspendedBatch, Result, ok, err}
use nowhere_agent.Session.Store.{MemStore}
use nowhere_agent.Session.Gate.{
  decide_approval, pending_approvals_for_run, approvals_for_run, suspended_batch_for_run,
  mark_batch_folded,
}
use nowhere_agent.Session.Messages.{
  StoredMessage, MemMessageStore, append_message, messages_tail, stored_messages_to_provider,
}
use nowhere_agent.Session.Fold.{Reader, suspended_batch_calls, fold_results, fold_content}

-- `MaxToolResultChars`
abbrev pub max_tool_result_chars : ℕ
max_tool_result_chars = 20000

-- `TruncateBlocksForPersistence`, with the numbers in its marker.
unfoldable pub truncate_block : (ℕ → String) → Block → Block
truncate_block decimal b =
    if not (is_tool_result b)
    then b
    else if leb (len b.tool_content) max_tool_result_chars
    then b
    else record b {
      tool_content = append (slice b.tool_content 0 max_tool_result_chars) (
          append "\n\n... [" (
            append (decimal (len b.tool_content - max_tool_result_chars)) " bytes truncated] ..."));
    }

unfoldable pub truncate_blocks : (ℕ → String) → List Block → List Block
truncate_blocks decimal = map (truncate_block decimal)

-- The two stores of a registry.
pub record Stores : Type 0 where
  pub store : MemStore
  pub messages : MemMessageStore

-- `RecordDecision`: the interaction, and whether its batch is complete.
unfoldable pub record_decision :
    MemStore → String → Bool → Option String → ℕ → MemStore × Result (Interaction × Bool)
record_decision m id approve result now =
    let (m', decided) = decide_approval m id approve result now in
    elim decided [
      | err e ↦ (m', err e)
      | ok ap ↦ elim (pending_approvals_for_run m' ap.run) [
        | [] ↦ (m', ok (ap, true))
        | p ∷ ps ↦ (m', ok (ap, false))
      ]
    ]

abbrev pub fold_history_limit : ℕ
fold_history_limit = 2000

abbrev pub truncation_notice : Message
truncation_notice =
    text_message user
      "[Earlier conversation truncated — the beginning of this conversation was not loaded for this run.]"

unfoldable pub fold_history : MemMessageStore → String → List StoredMessage × List Message
fold_history messages session =
    let stored = messages_tail messages session (pos 0) (pos 2001) in
    let newest = drop (length stored - fold_history_limit) stored in
    if ltb fold_history_limit (length stored)
    then (newest, truncation_notice ∷ stored_messages_to_provider newest)
    else (stored, stored_messages_to_provider stored)

module _ (reader : Reader) (decimal : ℕ → String) where
  abbrev pub fold_message : String → String → List Block → StoredMessage
  fold_message session run content = record {
    id = pos 0;
    session = session;
    run = run;
    seq = 0;
    role = user;
    content = truncate_blocks decimal content;
    created_at = 0;
    usage = none;
    metadata = none;
  }

  -- The end of `FoldBatch`, where the store is no `FoldCommitter`.
  unfoldable pub commit_fold :
      Stores → String → String → List Message → List Block → ℕ → Stores × (List Message ⊎ String)
  commit_fold s session run history content now =
      let (messages, appended) = append_message s.messages (fold_message session run content) now in
      elim (mark_batch_folded s.store run appended.seq) [
        | err e ↦ (record s { messages = messages }, inr "mark batch folded")
        | ok store ↦ (
          record { store = store; messages = messages },
          inl (history ++ record { role = user; content = content } ∷ []),
        )
      ]

  module _ (exec : List Call → List ToolResult) (tools : Registry) (gate : Option GateFunc) where
    -- The calls of a batch that is not folded yet.
    unfoldable pub fold_unfolded :
        Stores
        → String
        → String
        → SuspendedBatch
        → List Interaction
        → ℕ
        → Stores × (List Message ⊎ String)
    fold_unfolded s session run snap batch now =
        let (stored, history) = fold_history s.messages session in
        elim (suspended_batch_calls stored run snap) [
          | inr e ↦ (s, inr e)
          | inl calls ↦ elim (fold_results reader exec tools gate batch calls) [
            | inr e ↦ (s, inr e)
            | inl results ↦ commit_fold s session run history (fold_content calls results) now
          ]
        ]

    unfoldable pub fold_batch : Stores → String → String → ℕ → Stores × (List Message ⊎ String)
    fold_batch s session run now = elim (suspended_batch_for_run s.store run) [
      | err e ↦ (s, inr "fold batch: no suspended batch for run")
      | ok snap ↦ elim (approvals_for_run s.store run) [
        | [] ↦ (s, inr "no interactions for run")
        | ap ∷ aps ↦ elim snap.folded_seq [
          | some seq ↦ (s, inl (fold_history s.messages session).1)
          | none ↦ fold_unfolded s session run snap (ap ∷ aps) now
        ]
      ]
    ]

    -- `Decide`: no history while the batch is not complete.
    unfoldable pub decide :
        Stores
        → String
        → Bool
        → Option String
        → ℕ
        → Stores × (Interaction × Option (List Message) ⊎ String)
    decide s id approve result now =
        let (store, decision) = record_decision s.store id approve result now in
        let s' : Stores = record s { store = store } in
        elim decision [
          | err e ↦ (s', inr "no pending approval")
          | ok answer ↦
              let (ap, complete) = answer in
              if not complete
              then (s', inl (ap, none))
              else (let (s'', folded) = fold_batch s' ap.session ap.run now in
                  elim folded [
                    | inr e ↦ (s'', inr e)
                    | inl history ↦ (s'', inl (ap, some history))
                  ])
        ]
