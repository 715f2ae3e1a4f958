-- ===== src/Session/Fold/Dispatch.antt =====
-- The fold of internal/session/fold.go against the live dispatch of internal/agent/loop.go.
use Prim.Native.String.{◌++◌ as append}
use nowhere_agent.Base.{
  ◌≡◌, refl, sym, ap, ◌∙◌, String, true, false, not, List, [], ◌∷◌, map, Option, none, some, ◌⊎◌,
  inl, inr, arith, Bool-cases, Option-cases, Sum-cases, str_eq, if◌then◌else◌,
}
use nowhere_agent.Base.Dict.{Dict, lookup}
use nowhere_agent.Provider.{Block}
use nowhere_agent.Agent.{Args, Call, ToolResult, Registry, Tool, ToolMiddleware, GateFunc}
use nowhere_agent.Agent.Tools.{
  screen, tool_executor, strip_description, chain_tool, real_tool_call, result_blocks, failure,
  unknown_tool,
}
use nowhere_agent.Session.Types.{Interaction}
use nowhere_agent.Session.Fold.{
  Reader, refuse, by_call, fold_interaction, fold_slot, fold_slots, to_dispatch, fill, fold_results,
  fold_content,
}

strip_description-strip_description :
    (args : Args) → strip_description (strip_description args) ≡ strip_description args
unfolding strip_description
strip_description-strip_description [] = refl
strip_description-strip_description (arg ∷ args) =
    ground (arith, strip_description-strip_description args)

module _ (reader : Reader) (wrap : List ToolMiddleware) (tools : Registry) (gate : Option GateFunc)
    (found : Dict Interaction) where
  abbrev exec : List Call → List ToolResult
  exec = tool_executor wrap tools

  -- The answer that a live run would give to the call, with the gate of the fold.
  abbrev pub live_answer : Call → ToolResult
  live_answer c = elim (screen tools gate c) [
    | inl result ↦ result
    | inr live ↦ chain_tool wrap (real_tool_call tools) live
  ]

  -- The answer to a call, and the answers to a batch: one call after the other, each at once.
  abbrev pub answer : Call → ToolResult ⊎ String
  answer c =
      if not (str_eq c.args_error "") then inl (live_answer c) else elim (lookup c.id found) [
        | none ↦ inl (live_answer c)
        | some ap ↦ fold_interaction reader exec tools ap
      ]

  abbrev pub answer_each : List Call → List ToolResult ⊎ String
  answer_each [] = inl []
  answer_each (c ∷ cs) =
      let rest = answer_each cs in
      elim (answer c) [
        | inr e ↦ inr e
        | inl r ↦ elim rest [ inl rs ↦ inl (r ∷ rs) | inr e ↦ inr e ]
      ]

  -- What the executor does with one call.
  abbrev run_one : Call → ToolResult
  run_one c = elim (lookup c.name tools) [
    | none ↦ unknown_tool tools c.name
    | some tool ↦
        chain_tool wrap (real_tool_call tools)
          (record { call = record c { args = strip_description c.args }; tool = tool })
  ]

  abbrev executed : ToolResult ⊎ Call ⊎ String → ToolResult ⊎ String
  executed (inl r) = inl r
  executed (inr (inl call)) = inl (run_one call)
  executed (inr (inr e)) = inr e

  live_answer-unread :
      (c : Call)
      → str_eq c.args_error "" ≡ false
      → live_answer c ≡ failure (append "invalid tool arguments: " c.args_error)
  unfolding screen
  live_answer-unread c a = rw (live_answer, screen, a) refl

  run_one-unknown :
      (c : Call)
      → lookup c.name tools ≡ none
      → run_one (record c { args = strip_description c.args }) ≡ unknown_tool tools c.name
  run_one-unknown c t = rw (run_one, t) refl

  run_one-known :
      (c : Call) (tool : Tool)
      → lookup c.name tools ≡ some tool
      → run_one (record c { args = strip_description c.args })
        ≡ chain_tool wrap
            (real_tool_call tools)
            (record { call = record c { args = strip_description c.args }; tool = tool })
  run_one-known c tool t = rw (run_one, t, strip_description-strip_description c.args) refl

  -- A call with neither an interaction nor an error is screened as a live run would screen it.
  abbrev plain_slot : Call → ToolResult ⊎ Call ⊎ String
  plain_slot c = elim (refuse tools gate c) [
    | some result ↦ inl result
    | none ↦ inr (inl (record c { args = strip_description c.args }))
  ]

  executed-plain_slot :
      (c : Call) → str_eq c.args_error "" ≡ true → executed (plain_slot c) ≡ inl (live_answer c)
  unfolding screen refuse
  executed-plain_slot c a = elim (Option-cases (lookup c.name tools)) [
    | inl t ↦ rw (plain_slot, live_answer, refuse, screen, a, t) (ap inl (run_one-unknown c t))
    | inr (tool, t) ↦ elim (Option-cases (tool.violation (strip_description c.args))) [
      | inr (violation, v) ↦ rw (plain_slot, live_answer, refuse, screen, a, t, v) refl
      | inl v ↦ elim (Option-cases gate) [
        | inl g ↦
            rw (plain_slot, live_answer, refuse, screen, a, t, v, g)
              (ap inl (run_one-known c tool t))
        | inr (check, g) ↦ elim (Bool-cases (check tool).0) [
          | inl d ↦ rw (plain_slot, live_answer, refuse, screen, a, t, v, g, d) refl
          | inr d ↦
              rw (plain_slot, live_answer, refuse, screen, a, t, v, g, d)
                (ap inl (run_one-known c tool t))
        ]
      ]
    ]
  ]

  executed-fold_slot : (c : Call) → executed (fold_slot reader exec tools gate found c) ≡ answer c
  unfolding fold_slot
  executed-fold_slot c = elim (Bool-cases (str_eq c.args_error "")) [
    | inr a ↦ rw (fold_slot, a) (ap inl (sym (live_answer-unread c a)))
    | inl a ↦ elim (Option-cases (lookup c.id found)) [
      | inr (ap, f) ↦ elim (Sum-cases (fold_interaction reader exec tools ap)) [
        | inl (r, e) ↦ rw (fold_slot, a, f, e) refl
        | inr (r, e) ↦ rw (fold_slot, a, f, e) refl
      ]
      | inl f ↦ rw (fold_slot, a, f) (executed-plain_slot c a)
    ]
  ]

  abbrev finish : List (ToolResult ⊎ Call) ⊎ String → List ToolResult ⊎ String
  finish (inl slots) = inl (fill slots (exec (to_dispatch slots)))
  finish (inr e) = inr e

  finish_eta :
      (slots : List (ToolResult ⊎ Call) ⊎ String)
      → ((elim slots as (λ x. List ToolResult ⊎ String) [
        | inl more ↦ inl (fill more (exec (to_dispatch more)))
        | inr e ↦ inr e
      ])
          ≡ finish slots)
  finish_eta (inl more) = refl
  finish_eta (inr e) = refl

  -- The first pass and the execution after it, for one more call.
  abbrev cons_slot :
      ToolResult ⊎ Call ⊎ String
      → List (ToolResult ⊎ Call) ⊎ String
      → List (ToolResult ⊎ Call) ⊎ String
  cons_slot (inl result) (inl slots) = inl (inl result ∷ slots)
  cons_slot (inl result) (inr e) = inr e
  cons_slot (inr (inl call)) (inl slots) = inl (inr call ∷ slots)
  cons_slot (inr (inl call)) (inr e) = inr e
  cons_slot (inr (inr e)) rest = inr e

  abbrev cons_answer : ToolResult ⊎ String → List ToolResult ⊎ String → List ToolResult ⊎ String
  cons_answer (inr e) rest = inr e
  cons_answer (inl r) (inl rs) = inl (r ∷ rs)
  cons_answer (inl r) (inr e) = inr e

  finish-cons_slot :
      (slot : ToolResult ⊎ Call ⊎ String) (rest : List (ToolResult ⊎ Call) ⊎ String)
      → finish (cons_slot slot rest) ≡ cons_answer (executed slot) (finish rest)
  unfolding fill to_dispatch tool_executor
  finish-cons_slot (inl r) (inl slots) = refl
  finish-cons_slot (inl r) (inr e) = refl
  finish-cons_slot (inr (inl call)) (inl slots) = refl
  finish-cons_slot (inr (inl call)) (inr e) = refl
  finish-cons_slot (inr (inr e)) rest = refl

  fold_slots-cons :
      (c : Call) (cs : List Call)
      → fold_slots reader exec tools gate found (c ∷ cs)
        ≡ cons_slot
            (fold_slot reader exec tools gate found c)
            (fold_slots reader exec tools gate found cs)
  unfolding fold_slots
  fold_slots-cons c cs = ground arith

  answer_each-cons :
      (c : Call) (cs : List Call) → answer_each (c ∷ cs) ≡ cons_answer (answer c) (answer_each cs)
  answer_each-cons c cs = ground arith

  pub fold_slots-answer_each :
      (cs : List Call) → finish (fold_slots reader exec tools gate found cs) ≡ answer_each cs
  unfolding fold_slots fill to_dispatch tool_executor
  fold_slots-answer_each [] = refl
  fold_slots-answer_each (c ∷ cs) =
      ap finish (fold_slots-cons c cs)
      ∙ finish-cons_slot (fold_slot reader exec tools gate found c) _
      ∙ ap (λ a. cons_answer a (finish (fold_slots reader exec tools gate found cs)))
          (executed-fold_slot c)
      ∙ ap (cons_answer (answer c)) (fold_slots-answer_each cs)
      ∙ sym (answer_each-cons c cs)

-- The fold answers the calls of a batch in their order as one call after the other would be answered:
-- a call whose arguments were not read as a live run answers it, a call with an interaction with
-- what that comes to, and every other call as a live run would answer it, screened by the schema and
-- by the gate and executed through the same middlewares. The first interaction that cannot be folded
-- ends it with its error.
pub fold_results-answer_each :
    (reader : Reader) (wrap : List ToolMiddleware) (tools : Registry) (gate : Option GateFunc)
    (batch : List Interaction) (cs : List Call)
    → fold_results reader (tool_executor wrap tools) tools gate batch cs
      ≡ answer_each reader wrap tools gate (by_call batch []) cs
unfolding fold_results
fold_results-answer_each reader wrap tools gate batch cs =
    finish_eta reader wrap tools gate (by_call batch []) _
    ∙ fold_slots-answer_each reader wrap tools gate (by_call batch []) cs

abbrev pub without_generative_ui : Block → Block
without_generative_ui b = record b { generative_ui = none }

-- What the fold persists is what a live run would, but for the generative UI of the results, which
-- it leaves out.
pub fold_content-result_blocks :
    (cs : List Call) (rs : List ToolResult)
    → fold_content cs rs ≡ map without_generative_ui (result_blocks cs rs)
unfolding fold_content result_blocks
fold_content-result_blocks [] rs = refl
fold_content-result_blocks (c ∷ cs) [] = refl
fold_content-result_blocks (c ∷ cs) (r ∷ rs) = ground (arith, fold_content-result_blocks cs rs)
