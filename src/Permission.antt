-- ===== src/Permission.antt =====
-- The execution permission of internal/permission/permission.go, and the gates that
-- cmd/server/wire_chat.go and main.go build from it. A risk and a decision are texts, as there. A
-- setting is read again by each gate, so that the two may see different policies.
pub mod Verdicts
mod Tests
use Prim.Native.String.{◌++◌ as append}
use nowhere_agent.Base.{String, Bool, true, false, not, ◌||◌, [], ◌∷◌, str_eq, if◌then◌else◌}
use nowhere_agent.Agent.{Tool, GateFunc}
use nowhere_agent.Agent.Tools.{eval_gates}

abbrev pub allow : String
allow = "allow"

abbrev pub ask : String
ask = "ask"

abbrev pub deny : String
deny = "deny"

-- A decision for each risk, or the text of a setting for each.
pub record Policy : Type 0 where
  pub read_only : String
  pub sandbox_write : String
  pub network : String
  pub external_write : String

abbrev pub default_policy : Policy
default_policy = record {
  read_only = allow;
  sandbox_write = allow;
  network = allow;
  external_write = ask;
}

unfoldable pub decision_for : Policy → String → String
decision_for p risk =
    if str_eq risk "read_only"
    then p.read_only
    else if str_eq risk "sandbox_write"
    then p.sandbox_write
    else if str_eq risk "network"
    then p.network
    else if str_eq risk "external_write"
    then p.external_write
    else ask

unfoldable pub check : Policy → Tool → String
check p tool = decision_for p tool.risk

unfoldable pub clamp_permission_decision : String → String
clamp_permission_decision v = if str_eq v allow || str_eq v ask || str_eq v deny then v else deny

-- The policy of the settings as they are now.
unfoldable pub policy_for : Policy → Policy
policy_for settings = record {
  read_only = clamp_permission_decision settings.read_only;
  sandbox_write = clamp_permission_decision settings.sandbox_write;
  network = clamp_permission_decision settings.network;
  external_write = clamp_permission_decision settings.external_write;
}

-- Whether the session's mode lifts the approval gate.
abbrev pub lifts_ask : String → Bool
lifts_ask mode = str_eq mode "allow_all"

abbrev pub with_risk : Tool → String
with_risk tool = append tool.name (append " (risk: " (append tool.risk ")"))

abbrev pub env_reason : Tool → String
env_reason tool = append (with_risk tool) " is not permitted by policy"

unfoldable pub permit_ask : Policy → String → GateFunc
permit_ask p mode tool =
    if not (str_eq (check p tool) ask)
    then (false, "")
    else if lifts_ask mode
    then (false, "")
    else (true, append "approval required: " (with_risk tool))

unfoldable pub permit_env : Policy → GateFunc
permit_env p tool =
    if not (str_eq (check p tool) deny) then (false, "") else (true, env_reason tool)

-- The gate group: the settings that the approval gate reads, the mode of the session, and the
-- settings that the hard gate reads.
unfoldable pub permit : Policy → String → Policy → GateFunc
permit settings mode settings' =
    eval_gates (permit_ask (policy_for settings) mode ∷ permit_env (policy_for settings') ∷ [])
