-- ===== src/Permission/Verdicts.antt =====
-- What the gates of Permission.antt do to a call.
use Prim.Native.String.{◌++◌ as append}
use text.Mathlib.TextPositions.{starts_with-append}
use nowhere_agent.Base.{
  ◌≡◌, refl, sym, ◌∙◌, subst, arith, String, Bool, true, false, not, ◌&&◌, ◌||◌, none, some, inl,
  inr, str_eq, eq_iff, if◌then◌else◌, Bool-cases,
}
use nowhere_agent.Base.Dict.{lookup}
use nowhere_agent.Agent.{Call, ToolResult, Tool, Registry, ToolCall, GateFunc}
use nowhere_agent.Agent.Tools.{
  screen, interaction_kind, is_approval_reason, eval_gates, violation_of, strip_description,
  failure,
}
use nowhere_agent.Permission.{
  Policy, allow, ask, deny, check, decision_for, clamp_permission_decision, policy_for, lifts_ask,
  with_risk, env_reason, permit_ask, permit_env, permit,
}

-- The decision of the settings for a tool.
abbrev pub decided : Policy → Tool → String
decided settings tool = check (policy_for settings) tool

-- The tool waits for an approval.
abbrev pub awaits : Policy → String → Tool → Bool
awaits settings mode tool = str_eq (decided settings tool) ask && not (lifts_ask mode)

permit_lem :
    (s : Policy) (mode : String) (s' : Policy) (tool : Tool)
    → permit s mode s' tool ≡ (
        if awaits s mode tool
        then (true, append "approval required: " (with_risk tool))
        else if str_eq (decided s' tool) deny
        then (true, env_reason tool)
        else (false, ""))
unfolding permit eval_gates permit_ask permit_env
permit_lem s mode s' tool = ground arith

-- A call that the loop itself would run: its arguments were read and fit the schema of a tool of the
-- server, and it is not the question to the user.
pub record Runnable (tools : Registry) (c : Call) (tool : Tool) : Type 0 where
  pub was_read : str_eq c.args_error "" ≡ true
  pub registered : lookup c.name tools ≡ some tool
  pub has_schema : violation_of tool c ≡ none
  pub no_question : str_eq c.name "ask_user" ≡ false
  pub on_server : tool.client_side ≡ false

-- The settings decide through the clamp, also for a risk that is not known.
decided_lem :
    (s : Policy) (tool : Tool)
    → decided s tool ≡ clamp_permission_decision (decision_for s tool.risk)
unfolding check policy_for decision_for clamp_permission_decision
decided_lem s tool = elim (Bool-cases (str_eq tool.risk "read_only")) [
  | inl a ↦ rw (decision_for, a) refl
  | inr a ↦ elim (Bool-cases (str_eq tool.risk "sandbox_write")) [
    | inl b ↦ rw (decision_for, a, b) refl
    | inr b ↦ elim (Bool-cases (str_eq tool.risk "network")) [
      | inl c ↦ rw (decision_for, a, b, c) refl
      | inr c ↦ elim (Bool-cases (str_eq tool.risk "external_write")) [
        | inl d ↦ rw (decision_for, a, b, c, d) refl
        | inr d ↦ rw (decision_for, a, b, c, d) refl
      ]
    ]
  ]
]

abbrev Clamped : String → Type 0
Clamped v =
    (str_eq (clamp_permission_decision v) ask ≡ str_eq v ask)
    × (str_eq (clamp_permission_decision v) deny ≡ not (str_eq v allow || str_eq v ask))

clamp-Clamped : (v : String) → Clamped v
unfolding clamp_permission_decision
clamp-Clamped v = elim (Bool-cases (str_eq v allow)) [
  | inl e ↦ subst Clamped (sym ((eq_iff v allow).0 e)) (refl, refl)
  | inr e ↦ elim (Bool-cases (str_eq v ask)) [
    | inl f ↦ subst Clamped (sym ((eq_iff v ask).0 f)) (refl, refl)
    | inr f ↦ elim (Bool-cases (str_eq v deny)) [
      | inl g ↦ subst Clamped (sym ((eq_iff v deny).0 g)) (refl, refl)
      | inr g ↦ rw (e, f, g) (refl, refl)
    ]
  ]
]

ask-ne-allow : (v : String) → str_eq v ask ≡ true → str_eq v allow ≡ false
ask-ne-allow v e = subst (λ v. str_eq v allow ≡ false) (sym ((eq_iff v ask).0 e)) refl

-- The call as it is executed.
abbrev pub as_executed : Call → Tool → ToolCall
as_executed c tool = record { call = record c { args = strip_description c.args }; tool = tool }

abbrev pub refusal : String → ToolResult
refusal reason = failure (append "permission denied: " reason)

-- What a gate makes of a call that the loop could run.
gated :
    (tools : Registry) (gate : GateFunc) (c : Call) (tool : Tool)
    → Runnable tools c tool
    → (interaction_kind tools (some gate) c
        ≡ (if (gate tool).0 && is_approval_reason (gate tool).1 then some "approval" else none))
      × (screen tools (some gate) c
          ≡ (if (gate tool).0 then inl (refusal (gate tool).1) else inr (as_executed c tool)))
unfolding interaction_kind screen
gated tools gate c tool r =
    rw (r.was_read, r.registered, r.has_schema, r.no_question) (simp r.on_server, refl)

approval-IsApproval :
    (text : String) → is_approval_reason (append "approval required: " text) ≡ true
unfolding is_approval_reason
approval-IsApproval text = starts_with-append "approval required: " text

-- With no change of the settings between the gates, the text of the setting for the tool's risk
-- decides what becomes of a call that the loop could run: on ask the run waits for an approval,
-- unless the session's mode lifts it; on allow, or ask with the mode, the call is executed; on any
-- other text, also one that is no decision at all, it is refused, and the mode lifts nothing. The
-- tool's name is taken not to begin like the reason of an approval.
pub permit-governs :
    (tools : Registry) (c : Call) (tool : Tool) (s : Policy) (mode : String)
    → Runnable tools c tool
    → is_approval_reason (env_reason tool) ≡ false
    → let v = decision_for s tool.risk in
      (interaction_kind tools (some (permit s mode s)) c
        ≡ (if str_eq v ask && not (lifts_ask mode) then some "approval" else none))
      × (screen tools (some (permit s mode s)) c ≡ (
          if str_eq v allow || str_eq v ask && lifts_ask mode
          then inr (as_executed c tool)
          else inl (
              refusal (
                if str_eq v ask
                then append "approval required: " (with_risk tool)
                else env_reason tool))))
permit-governs tools c tool s mode r plain =
    let v = decision_for s tool.risk in
    let (asks, denies) = clamp-Clamped v in
    let h = permit_lem s mode s tool in
    let d = decided_lem s tool in
    let (kind, screened) = gated tools (permit s mode s) c tool r in
    rw (kind, screened, h, d, asks, denies)
      (elim (Bool-cases (str_eq v ask)) [
        | inl e ↦ elim (Bool-cases (lifts_ask mode)) [
          | inl l ↦ rw (e, l, ask-ne-allow v e) (refl, refl)
          | inr l ↦ rw (e, l, ask-ne-allow v e, approval-IsApproval (with_risk tool)) (refl, refl)
        ]
        | inr e ↦ elim (Bool-cases (str_eq v allow)) [
          | inl a ↦ rw (e, a) (refl, refl)
          | inr a ↦ rw (e, a, plain) (refl, refl)
        ]
      ])

-- The gates read the settings one after the other: where the setting for a tool's risk is on deny
-- when the first one reads it and on ask when the second one does, the call is executed, although
-- both settings stand against it and nobody has approved it.
pub permit-torn :
    (tools : Registry) (c : Call) (tool : Tool) (s s' : Policy) (mode : String)
    → Runnable tools c tool
    → decision_for s tool.risk ≡ deny
    → decision_for s' tool.risk ≡ ask
    → (interaction_kind tools (some (permit s mode s')) c ≡ none)
      × (screen tools (some (permit s mode s')) c ≡ inr (as_executed c tool))
unfolding clamp_permission_decision
permit-torn tools c tool s s' mode r first second =
    let d : decided s tool ≡ deny = decided_lem s tool ∙ (rw first refl) in
    let d' : decided s' tool ≡ ask = decided_lem s' tool ∙ (rw second refl) in
    let (kind, screened) = gated tools (permit s mode s') c tool r in
    rw (kind, screened, permit_lem s mode s' tool, d, d') (refl, refl)
