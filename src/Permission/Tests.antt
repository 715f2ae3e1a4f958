-- ===== src/Permission/Tests.antt =====
-- The theorems on the execution permission at a registry of one tool.
use nowhere_agent.Base.{◌≡◌, refl, false, [], ◌∷◌, none, some, inl, inr}
use nowhere_agent.Base.Dict.{lookup}
use nowhere_agent.Agent.{Call, Tool, Registry}
use nowhere_agent.Agent.Tools.{screen, interaction_kind, is_approval_reason}
use nowhere_agent.Permission.{Policy, deny, default_policy, decision_for, env_reason, permit}
use nowhere_agent.Permission.Verdicts.{Runnable, as_executed, refusal, permit-governs, permit-torn}

abbrev mail : Tool
mail = record {
  name = "mail";
  risk = "external_write";
  client_side = false;
  violation = λ args. none;
  call = λ args. record { content = "sent"; is_error = false; nested = none; generative_ui = none };
}

abbrev tools : Registry
tools = ("mail", mail) ∷ []

abbrev send : Call
send = record { id = "c1"; name = "mail"; args = []; args_error = "" }

runnable : Runnable tools send mail
unfolding lookup
runnable = record {
  was_read = refl;
  registered = refl;
  has_schema = refl;
  no_question = refl;
  on_server = refl;
}

plain : is_approval_reason (env_reason mail) ≡ false
unfolding is_approval_reason
plain = refl

-- A setting that is no decision.
abbrev misspelt : Policy
misspelt = record default_policy { external_write = "alow" }

permit-governs_example :
    (interaction_kind tools (some (permit misspelt "allow_all" misspelt)) send ≡ none)
    × (screen tools (some (permit misspelt "allow_all" misspelt)) send
        ≡ inl (refusal (env_reason mail)))
unfolding decision_for
permit-governs_example = permit-governs tools send mail misspelt "allow_all" runnable plain

abbrev closed : Policy
closed = record default_policy { external_write = deny }

permit-torn_example :
    (interaction_kind tools (some (permit closed "auto" default_policy)) send ≡ none)
    × (screen tools (some (permit closed "auto" default_policy)) send ≡ inr (as_executed send mail))
unfolding decision_for
permit-torn_example = permit-torn tools send mail closed default_policy "auto" runnable refl refl
