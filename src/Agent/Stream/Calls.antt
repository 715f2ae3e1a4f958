-- ===== src/Agent/Stream/Calls.antt =====
-- The calls and the blocks of a message that internal/agent/loop.go assembles from a stream.
use mathlib.Core.List.{append-nil, map-append}
use nowhere_agent.Base.{◌≡◌, refl, String, List, [], ◌∷◌, none, some, ◌++◌, map, arith}
use nowhere_agent.Provider.{Block, event_error, block_start, block_delta, block_stop, message_stop}
use nowhere_agent.Context.Pairing.Contract.{use_ids}
use nowhere_agent.Agent.Types.{Surroundings, Call, RunState, Delivery, event, context_done}
use nowhere_agent.Agent.Stream.{new_turn, consume}
use nowhere_agent.Agent.Stream.Whole.{AllStarts, consume-Sound, block_of, call_of}

abbrev pub ids : List Call → List String
ids = map (λ c. c.id)

pub use_ids-append : (bs ds : List Block) → use_ids (bs ++ ds) ≡ use_ids bs ++ use_ids ds
use_ids-append [] ds = refl
use_ids-append (b ∷ bs) ds = ground (arith, use_ids-append bs ds)

AllStarts-Unit : (ds : List Delivery) → AllStarts (λ b. Unit) ds
AllStarts-Unit [] = tt
AllStarts-Unit (context_done ∷ ds) = AllStarts-Unit ds
AllStarts-Unit (event (block_start i (some b)) ∷ ds) = (tt, AllStarts-Unit ds)
AllStarts-Unit (event (block_start i none) ∷ ds) = AllStarts-Unit ds
AllStarts-Unit (event (event_error e) ∷ ds) = AllStarts-Unit ds
AllStarts-Unit (event (block_delta i d s) ∷ ds) = AllStarts-Unit ds
AllStarts-Unit (event (block_stop i) ∷ ds) = AllStarts-Unit ds
AllStarts-Unit (event (message_stop s u) ∷ ds) = AllStarts-Unit ds

-- Whatever a provider streams and whatever the emitter takes, the calls of the turn are, in order,
-- those of the tool calls among the blocks of the message, by their ids.
pub consume-ids :
    (env : Surroundings) (ds : List Delivery) (s : RunState)
    → let t = (consume env ds new_turn s).turn in ids t.calls ≡ use_ids t.content
consume-ids env ds s =
    (consume-Sound env (λ b. Unit) (λ bs cs. ids cs ≡ use_ids bs)
      (λ a bs cs _ h. (
        λ e. ground (
          arith,
          h,
          e,
          use_ids-append bs (block_of env a ∷ []),
          map-append (λ c. c.id) cs (call_of env a ∷ []),
        ),
        λ e. ground (arith, h, e, use_ids-append bs (block_of env a ∷ []), append-nil (use_ids bs)),
      ))
      ds new_turn s (AllStarts-Unit ds) (tt, refl)).1
