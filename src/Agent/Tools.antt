-- ===== src/Agent/Tools.antt =====
-- Gating, dispatching and answering tool calls, internal/agent/loop.go. The frames that a tool pushes
-- while it runs are left out.
pub mod Answers
pub mod Dispatch
use Prim.Native.String.{◌++◌ as append}
use text.Mathlib.Text.{starts_with}
use nowhere_agent.Base.{
  ℕ, suc, ◌+◌, ◌/◌, String, Bool, true, false, not, ◌&&◌, List, [], ◌∷◌, ◌++◌, Option, none, some,
  ◌⊎◌, inl, inr, keep, map, str_eq, if◌then◌else◌,
}
use nowhere_agent.Base.Dict.{lookup, keys}
use nowhere_agent.Base.TextOrder.{text_less}
use nowhere_agent.Base.Sorting.{sort_by}
use nowhere_agent.Provider.{
  Block, BlockType, Message, user, StopReason, stop_unknown, stop_end_turn, stop_tool_use,
  stop_max_tokens, stop_stop_sequence, stop_other, empty_block, at_least,
}
use nowhere_agent.Agent.Types.{
  Surroundings, Args, Call, ToolResult, Tool, Registry, Interaction, ToolCall, ToolHandler,
  ToolMiddleware, GateFunc, RunState, kind_tool_result, kind_generative_ui, kind_message,
}
use nowhere_agent.Agent.Emit.{send_detached}

abbrev pub failure : String → ToolResult
failure content = record { content = content; is_error = true; nested = none; generative_ui = none }

unfoldable pub is_approval_reason : String → Bool
is_approval_reason reason = starts_with reason "approval required: "

unfoldable pub strip_description : Args → Args
strip_description = keep (λ arg. not (str_eq arg.0 "description"))

-- `ValidateArgs` on the stripped arguments.
abbrev pub violation_of : Tool → Call → Option String
violation_of t c = t.violation (strip_description c.args)

abbrev pub join : List String → String
join [] = ""
join (x ∷ []) = x
join (x ∷ y ∷ ys) = append x (append ", " (join (y ∷ ys)))

unfoldable pub names : Registry → List String
names tools = sort_by text_less (keys tools)

abbrev pub unknown_tool : Registry → String → ToolResult
unknown_tool tools name = failure (
    append "unknown tool: "
      (append name (append " (available tools: " (append (join (names tools)) ")"))))

-- `GateGroup.eval`; the gates are not nil.
unfoldable pub eval_gates : List GateFunc → GateFunc
eval_gates [] tool = (false, "")
eval_gates (gate ∷ gates) tool =
    let (deny, reason) = gate tool in
    let rest = eval_gates gates tool in if deny then (true, reason) else rest

-- The kind of interaction that a call needs before the run can go on.
unfoldable pub interaction_kind : Registry → Option GateFunc → Call → Option String
interaction_kind tools gate c =
    let asked = str_eq c.name "ask_user" in
    if not (str_eq c.args_error "") then none else elim (lookup c.name tools) [
      | none ↦ if asked then some "ask_user" else none
      | some tool ↦ elim (violation_of tool c) [
        | some violation ↦ none
        | none ↦
            if asked
            then some "ask_user"
            else if tool.client_side
            then some "client_tool"
            else elim gate [
              | none ↦ none
              | some check ↦
                  let (deny, reason) = check tool in
                  if deny && is_approval_reason reason then some "approval" else none
            ]
      ]
    ]

-- The loop of `interactionGate` from position `i` of the batch on.
unfoldable pub gate_from :
    (ℕ → String) → Registry → Option GateFunc → List Call → ℕ → List Call → List Interaction
gate_from fresh tools gate batch i [] = []
gate_from fresh tools gate batch i (c ∷ cs) =
    let rest = gate_from fresh tools gate batch (suc i) cs in
    elim (interaction_kind tools gate c) [
      | none ↦ rest
      | some kind ↦
          record {
            id = fresh i;
            kind = kind;
            tool_call = c.id;
            tool_name = c.name;
            input = c.args;
            batch = batch;
          }
          ∷ rest
    ]

unfoldable pub interaction_gate :
    (ℕ → String) → Registry → Option GateFunc → List Call → List Interaction
interaction_gate fresh tools gate calls = gate_from fresh tools gate calls 0 calls

-- The screen of `dispatch`: the answer to a call that is not executed, or the call to execute.
unfoldable pub screen : Registry → Option GateFunc → Call → ToolResult ⊎ ToolCall
screen tools gate c =
    if not (str_eq c.args_error "")
    then inl (failure (append "invalid tool arguments: " c.args_error))
    else elim (lookup c.name tools) [
      | none ↦ inl (unknown_tool tools c.name)
      | some tool ↦ elim (violation_of tool c) [
        | some violation ↦ inl (failure (append "invalid tool arguments: " violation))
        | none ↦
            let live : ToolCall = record {
              call = record c { args = strip_description c.args };
              tool = tool;
            } in
            elim gate [
              | none ↦ inr live
              | some check ↦
                  let (deny, reason) = check tool in
                  if deny then inl (failure (append "permission denied: " reason)) else inr live
            ]
      ]
    ]

-- `chainTool`: the first middleware is the outermost, and a panic of one becomes its result.
unfoldable pub chain_tool : List ToolMiddleware → ToolHandler → ToolHandler
chain_tool [] inner = inner
chain_tool (m ∷ ms) inner = λ c. elim (m.wrap (chain_tool ms inner) c) [
  | inl result ↦ result
  | inr panic ↦ failure (append "tool middleware \"" (append m.name (append "\" panicked: " panic)))
]

-- `realToolCall`; the registry finds the tool that the screen has found.
unfoldable pub real_tool_call : Registry → ToolHandler
real_tool_call tools c = elim (lookup c.call.name tools) [
  | none ↦ unknown_tool tools c.call.name
  | some tool ↦ tool.call c.call.args
]

-- The calls run concurrently, and each result goes to the place of its call.
unfoldable pub dispatch_with :
    ToolHandler → Registry → Option GateFunc → List Call → List ToolResult
dispatch_with handler tools gate [] = []
dispatch_with handler tools gate (c ∷ cs) =
    (elim (screen tools gate c) [ inl result ↦ result | inr live ↦ handler live ])
    ∷ dispatch_with handler tools gate cs

unfoldable pub dispatch :
    List ToolMiddleware → Registry → Option GateFunc → List Call → List ToolResult
dispatch wrap tools gate calls =
    dispatch_with (chain_tool wrap (real_tool_call tools)) tools gate calls

-- `ToolExecutor`, for calls that the fold has screened.
unfoldable pub tool_executor : List ToolMiddleware → Registry → List Call → List ToolResult
tool_executor wrap tools [] = []
tool_executor wrap tools (c ∷ cs) =
    (elim (lookup c.name tools) [
      | none ↦ unknown_tool tools c.name
      | some tool ↦
          chain_tool wrap (real_tool_call tools)
            (record { call = record c { args = strip_description c.args }; tool = tool })
    ])
    ∷ tool_executor wrap tools cs

-- One and the same answer to every call of a batch that is not executed.
abbrev pub fail_all : String → List Call → List ToolResult
fail_all content = map (λ c. failure content)

abbrev pub empty_tool_result_placeholder : String
empty_tool_result_placeholder = "(no output)"

-- The block of one result; the lists of `toolResultMessage` are as long as each other.
unfoldable pub result_blocks : List Call → List ToolResult → List Block
result_blocks [] rs = []
result_blocks (c ∷ cs) [] = []
result_blocks (c ∷ cs) (r ∷ rs) =
    record (empty_block BlockType.tool_result) {
      tool_result_id = c.id;
      tool_content = if str_eq r.content "" then empty_tool_result_placeholder else r.content;
      is_error = r.is_error;
      tool_messages = r.nested;
      generative_ui = r.generative_ui;
    }
    ∷ result_blocks cs rs

abbrev pub tool_result_message : List Call → List ToolResult → Message
tool_result_message calls results = record { role = user; content = result_blocks calls results }

module _ (env : Surroundings) where
  -- The loop of `recordToolResults` over the results.
  unfoldable pub send_results : List Call → List ToolResult → RunState → RunState
  send_results [] rs s = s
  send_results (c ∷ cs) [] s = s
  send_results (c ∷ cs) (r ∷ rs) s =
      let s' = send_detached env (kind_tool_result c.id c.name r.content r.is_error) s in
      send_results cs rs (elim r.generative_ui [
        | none ↦ s'
        | some spec ↦ send_detached env (kind_generative_ui spec) s'
      ])

  unfoldable pub record_tool_results : List Call → List ToolResult → RunState → RunState
  record_tool_results calls results s =
      let s' = send_results calls results s in
      let msg = tool_result_message calls results in
      send_detached env (kind_message msg none) (record s' { produced = s'.produced ++ msg ∷ [] })
