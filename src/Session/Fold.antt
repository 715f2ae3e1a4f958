-- ===== src/Session/Fold.antt =====
-- Folding a suspended batch back into the conversation, internal/session/fold.go and interaction.go.
-- The registry and the executor are not nil; the JSON of payloads and results is read by the
-- surroundings' `payload_args` and `client_answer`.
pub mod Commit
pub mod Dispatch
pub mod Rebuilt
use Prim.Native.String.{◌++◌ as append}
use nowhere_agent.Base.{
  ℕ, String, Bool, true, false, not, ◌&&◌, ◌||◌, List, [], ◌∷◌, Option, none, some, ◌⊎◌, inl, inr,
  reverse, str_eq, if◌then◌else◌,
}
use nowhere_agent.Base.Dict.{Dict, insert, lookup}
use nowhere_agent.Provider.{Block, BlockType, Message, user, empty_block, is_tool_use, is_assistant}
use nowhere_agent.Agent.{Args, Call, ToolResult, Tool, Registry, GateFunc}
use nowhere_agent.Agent.Tools.{failure, strip_description, empty_tool_result_placeholder}
use nowhere_agent.Session.Types.{Interaction, InteractionStatus, SuspendedBatch, resolved}
use nowhere_agent.Session.Messages.{StoredMessage, from_assistant}

-- The calls in the blocks of an assistant message, in their order.
unfoldable pub calls_in : List Block → List Call
calls_in [] = []
calls_in (b ∷ bs) =
    let rest = calls_in bs in
    if is_tool_use b && not (str_eq b.tool_use_id "")
    then record {
      id = b.tool_use_id;
      name = b.tool_name;
      args = b.tool_input;
      args_error = b.args_error;
    }
      ∷ rest
    else rest

abbrev pub same_ids : List Call → List String → Bool
same_ids [] [] = true
same_ids [] (id ∷ ids) = false
same_ids (c ∷ cs) [] = false
same_ids (c ∷ cs) (id ∷ ids) = str_eq c.id id && same_ids cs ids

-- The scan of `suspendedBatchCalls` over the stored messages, the newest first; its errors are told
-- apart by their texts' first words.
unfoldable pub scan_batch : String → List String → List StoredMessage → List Call ⊎ String
scan_batch run ids [] = inr "fold batch: no tool_use-bearing assistant message"
scan_batch run ids (m ∷ ms) =
    let rest = scan_batch run ids ms in
    let calls = calls_in m.content in
    if from_assistant m && str_eq m.run run
    then (elim calls [
      | [] ↦ rest
      | c ∷ cs ↦
          if same_ids (c ∷ cs) ids
          then inl (c ∷ cs)
          else inr "fold batch: suspended message tool_use IDs do not match the snapshot"
    ])
    else rest

unfoldable pub suspended_batch_calls :
    List StoredMessage → String → SuspendedBatch → List Call ⊎ String
suspended_batch_calls stored run snap = scan_batch run snap.tool_calls (reverse stored)

-- The answer to a call that is not executed, or nothing.
unfoldable pub refuse : Registry → Option GateFunc → Call → Option ToolResult
refuse tools gate c = elim (lookup c.name tools) [
  | none ↦ none
  | some tool ↦ elim (tool.violation (strip_description c.args)) [
    | some violation ↦ some (failure (append "invalid tool arguments: " violation))
    | none ↦ elim gate [
      | none ↦ none
      | some check ↦
          let (deny, reason) = check tool in
          if deny then some (failure (append "permission denied: " reason)) else none
    ]
  ]
]

abbrev pub is_resolved : InteractionStatus → Bool
is_resolved status = elim status [ resolved ↦ true | _ ↦ false ]

abbrev pub by_call : List Interaction → Dict Interaction → Dict Interaction
by_call [] found = found
by_call (ap ∷ batch) found = by_call batch (insert ap.tool_call ap found)

-- What a client returned for a tool that runs there: `json.Marshal` of its output, and its error.
pub record ClientAnswer : Type 0 where
  pub output : Option String
  pub error : String

-- `json.Unmarshal` of a payload and of a client's answer, `json.Marshal` of a user's answer, and
-- `ValidateOutput` of a client's answer against the schema of a tool, if that declares one.
pub record Reader : Type 0 where
  pub payload_args : String → Args
  pub client_answer : String → Option ClientAnswer
  pub compact : String → Option String
  pub output_violation : Tool → ClientAnswer → Option String

abbrev pub success : String → ToolResult
success content = record {
  content = content;
  is_error = false;
  nested = none;
  generative_ui = none;
}

-- The calls to execute together, and where their results go.
unfoldable pub to_dispatch : List (ToolResult ⊎ Call) → List Call
to_dispatch [] = []
to_dispatch (inl result ∷ slots) = to_dispatch slots
to_dispatch (inr call ∷ slots) = call ∷ to_dispatch slots

unfoldable pub fill : List (ToolResult ⊎ Call) → List ToolResult → List ToolResult
fill [] got = []
fill (inl result ∷ slots) got = result ∷ fill slots got
fill (inr call ∷ slots) [] = []
fill (inr call ∷ slots) (r ∷ got) = r ∷ fill slots got

module _ (reader : Reader) (exec : List Call → List ToolResult) (tools : Registry) where
  -- `toolApprovalHandler.Fold`; the executor returns a result.
  unfoldable pub fold_approval : Interaction → Bool → ToolResult ⊎ String
  fold_approval ap approve =
      let call : Call = record {
        id = ap.tool_call;
        name = ap.tool_name;
        args = reader.payload_args ap.payload;
        args_error = "";
      } in
      if not approve
      then inl (failure (append "the user denied permission to run " ap.tool_name))
      else elim (exec (call ∷ [])) [ [] ↦ inr "index out of range" | r ∷ rs ↦ inl r ]

  -- `askUserHandler.Fold`
  unfoldable pub fold_answer : Interaction → Bool → ToolResult
  fold_answer ap approve =
      let encoded : Option String = elim ap.result [
        | none ↦ none
        | some answer ↦ if str_eq answer "" then none else reader.compact answer
      ] in
      if not approve
      then success "the user skipped these questions (no answer given)"
      else elim encoded [
        | none ↦ failure "the user answered (unparseable response)"
        | some text ↦ success text
      ]

  -- The end of `clientToolHandler.Fold`.
  unfoldable pub client_output : String → ClientAnswer → ToolResult
  client_output name answer = elim answer.output [
    | none ↦ failure (append "client output for " (append name " could not be encoded"))
    | some text ↦
        if str_eq text "" || str_eq text "null"
        then success empty_tool_result_placeholder
        else success text
  ]

  -- `clientToolHandler.Fold`; no result at all cannot be read either.
  unfoldable pub fold_client : Interaction → ToolResult
  fold_client ap =
      let name = ap.tool_name in
      let read : Option ClientAnswer = elim ap.result [
        | none ↦ none
        | some text ↦ reader.client_answer text
      ] in
      elim read [
        | none ↦ failure (append "client returned an unparseable result for " name)
        | some answer ↦
            if not (str_eq answer.error "")
            then failure
                (append "client-side tool " (append name (append " failed: " answer.error)))
            else elim (lookup name tools) [
              | none ↦ client_output name answer
              | some tool ↦ elim (reader.output_violation tool answer) [
                | none ↦ client_output name answer
                | some violation ↦ failure (
                    append "client output for " (
                      append name
                        (append " does not match its declared output schema: " violation)))
              ]
            ]
      ]

  unfoldable pub fold_interaction : Interaction → ToolResult ⊎ String
  fold_interaction ap =
      let approve = is_resolved ap.status in
      let answer = fold_answer ap approve in
      let client = fold_client ap in
      if str_eq ap.kind "" || str_eq ap.kind "approval"
      then fold_approval ap approve
      else if str_eq ap.kind "ask_user"
      then inl answer
      else if str_eq ap.kind "client_tool"
      then inl client
      else inr (append "no interaction handler registered for kind " ap.kind)

  -- What becomes of a call in the first pass over the batch: its result, the call to execute, or the
  -- error that ends the fold.
  unfoldable pub fold_slot : Option GateFunc → Dict Interaction → Call → ToolResult ⊎ Call ⊎ String
  fold_slot gate found c =
      if not (str_eq c.args_error "")
      then inl (failure (append "invalid tool arguments: " c.args_error))
      else elim (lookup c.id found) [
        | none ↦ elim (refuse tools gate c) [
          | some result ↦ inl result
          | none ↦ inr (inl (record c { args = strip_description c.args }))
        ]
        | some ap ↦ elim (fold_interaction ap) [ inl result ↦ inl result | inr e ↦ inr (inr e) ]
      ]

  unfoldable pub fold_slots :
      Option GateFunc → Dict Interaction → List Call → List (ToolResult ⊎ Call) ⊎ String
  fold_slots gate found [] = inl []
  fold_slots gate found (c ∷ cs) =
      let rest = fold_slots gate found cs in
      elim (fold_slot gate found c) [
        | inl result ↦ elim rest [ inl slots ↦ inl (inl result ∷ slots) | inr e ↦ inr e ]
        | inr other ↦ elim other [
          | inl call ↦ elim rest [ inl slots ↦ inl (inr call ∷ slots) | inr e ↦ inr e ]
          | inr e ↦ inr e
        ]
      ]

  unfoldable pub fold_results :
      Option GateFunc → List Interaction → List Call → List ToolResult ⊎ String
  fold_results gate batch cs = elim (fold_slots gate (by_call batch []) cs) [
    | inl slots ↦ inl (fill slots (exec (to_dispatch slots)))
    | inr e ↦ inr e
  ]

-- The content of the message that carries the folded results.
unfoldable pub fold_content : List Call → List ToolResult → List Block
fold_content [] rs = []
fold_content (c ∷ cs) [] = []
fold_content (c ∷ cs) (r ∷ rs) =
    record (empty_block BlockType.tool_result) {
      tool_result_id = c.id;
      tool_content = if str_eq r.content "" then empty_tool_result_placeholder else r.content;
      is_error = r.is_error;
      tool_messages = r.nested;
    }
    ∷ fold_content cs rs
