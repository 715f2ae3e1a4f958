-- ===== src/Agent/Tools/Answers.antt =====
-- The answers to a batch of calls, internal/agent/loop.go.
use nowhere_agent.Base.{◌≡◌, refl, ap, String, List, [], ◌∷◌, arith, length, Option}
use nowhere_agent.Context.Pairing.Contract.{result_ids}
use nowhere_agent.Agent.Types.{Call, ToolResult, Registry, ToolMiddleware, GateFunc}
use nowhere_agent.Agent.Tools.{fail_all, dispatch_with, dispatch, result_blocks}
use nowhere_agent.Agent.Stream.Calls.{ids}

pub length-dispatch :
    (wrap : List ToolMiddleware) (tools : Registry) (gate : Option GateFunc) (cs : List Call)
    → length (dispatch wrap tools gate cs) ≡ length cs
unfolding dispatch dispatch_with
length-dispatch wrap tools gate [] = refl
length-dispatch wrap tools gate (c ∷ cs) = ground (arith, length-dispatch wrap tools gate cs)

pub length-fail_all : (content : String) (cs : List Call) → length (fail_all content cs) ≡ length cs
length-fail_all content [] = refl
length-fail_all content (c ∷ cs) = ground (arith, length-fail_all content cs)

-- The message answers the calls of the batch, in their order.
pub result_ids-result_blocks :
    (cs : List Call) (rs : List ToolResult)
    → length rs ≡ length cs
    → result_ids (result_blocks cs rs) ≡ ids cs
unfolding result_blocks
result_ids-result_blocks [] rs e = refl
result_ids-result_blocks (c ∷ cs) [] e = absurd (ground (arith, e))
result_ids-result_blocks (c ∷ cs) (r ∷ rs) e =
    ap (λ xs. c.id ∷ xs) (result_ids-result_blocks cs rs (ground (arith, e)))
