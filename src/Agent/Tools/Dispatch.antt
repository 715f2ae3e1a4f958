-- ===== src/Agent/Tools/Dispatch.antt =====
-- Which calls reach a tool, internal/agent/loop.go.
use nowhere_agent.Base.{
  All, ◌≡◌, refl, ap, ◌∙◌, subst, true, false, List, [], ◌∷◌, Option, none, some, ◌⊎◌, inl, inr,
  Option-cases, Bool-cases, Sum-cases, str_eq,
}
use nowhere_agent.Base.Dict.{lookup}
use nowhere_agent.Agent.Types.{
  Args, Call, ToolResult, Tool, Registry, ToolCall, ToolHandler, GateFunc,
}
use nowhere_agent.Agent.Tools.{screen, dispatch_with, strip_description}

-- The gate, if there is one, does not deny the tool.
abbrev pub Permits : Option GateFunc → Tool → Type 0
Permits none tool = Unit
Permits (some check) tool = (check tool).0 ≡ false

-- A call that may be executed: its arguments were read, its tool is registered under its name, the
-- arguments have the tool's schema, the gate does not deny the tool, and no argument is called
-- description, which is taken for the one that the loop adds.
pub record Authorized (tools : Registry) (gate : Option GateFunc) (c : ToolCall) : Type 0 where
  pub was_read : str_eq c.call.args_error "" ≡ true
  pub registered : lookup c.call.name tools ≡ some c.tool
  pub has_schema : c.tool.violation c.call.args ≡ none
  pub permitted : Permits gate c.tool
  pub undescribed : All (λ arg. str_eq arg.0 "description" ≡ false) c.call.args

strip_description_lem :
    (args : Args) → All (λ arg. str_eq arg.0 "description" ≡ false) (strip_description args)
unfolding strip_description
strip_description_lem [] = tt
strip_description_lem (arg ∷ args) = elim (Bool-cases (str_eq arg.0 "description")) [
  | inl e ↦ rw e (strip_description_lem args)
  | inr e ↦ rw e (e, strip_description_lem args)
]

abbrev Screened : Registry → Option GateFunc → ToolResult ⊎ ToolCall → Type 0
Screened tools gate (inl result) = Unit
Screened tools gate (inr live) = Authorized tools gate live

screen-Screened :
    (tools : Registry) (gate : Option GateFunc) (c : Call)
    → Screened tools gate (screen tools gate c)
unfolding screen
screen-Screened tools gate c = elim (Bool-cases (str_eq c.args_error "")) [
  | inr a ↦ rw (screen, a) tt
  | inl a ↦ elim (Option-cases (lookup c.name tools)) [
    | inl t ↦ rw (screen, a, t) tt
    | inr (tool, t) ↦ elim (Option-cases (tool.violation (strip_description c.args))) [
      | inr (violation, v) ↦ rw (screen, a, t, v) tt
      | inl v ↦ elim gate as (λ g. Screened tools g (screen tools g c)) [
        | none ↦
            rw (screen, a, t, v)
              (record {
                was_read = a;
                registered = t;
                has_schema = v;
                permitted = tt;
                undescribed = strip_description_lem c.args;
              })
        | some check ↦ elim (Bool-cases (check tool).0) [
          | inl d ↦ rw (screen, a, t, v, d) tt
          | inr d ↦
              rw (screen, a, t, v, d)
                (record {
                  was_read = a;
                  registered = t;
                  has_schema = v;
                  permitted = d;
                  undescribed = strip_description_lem c.args;
                })
        ]
      ]
    ]
  ]
]

-- The answers to a batch depend only on what the handler does with calls that may be executed: two
-- handlers that agree on the calls whose arguments were read, have the schema of the tool that is
-- registered under their name and do not name a description, and which the gate does not deny, give
-- the same answers.
pub dispatch_with-Authorized :
    (tools : Registry) (gate : Option GateFunc) (h h' : ToolHandler) (cs : List Call)
    → ((c : ToolCall) → Authorized tools gate c → h c ≡ h' c)
    → dispatch_with h tools gate cs ≡ dispatch_with h' tools gate cs
unfolding dispatch_with
dispatch_with-Authorized tools gate h h' [] k = refl
dispatch_with-Authorized tools gate h h' (c ∷ cs) k =
    let rest = dispatch_with-Authorized tools gate h h' cs k in
    elim (Sum-cases (screen tools gate c)) [
      | inl (r, e) ↦ rw e (ap (◌∷◌ r) rest)
      | inr (live, e) ↦ rw e (
          ap (λ r. r ∷ dispatch_with h tools gate cs)
            (k live (subst (Screened tools gate) e (screen-Screened tools gate c)))
          ∙ ap (λ rs. h' live ∷ rs) rest)
    ]
