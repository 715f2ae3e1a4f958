-- ===== src/Session/Tests/Talks.antt =====
-- Interactions and messages of internal/session on small histories.
use nowhere_agent.Base.{
  ℕ, ◌≡◌, refl, String, Bool, true, List, [], ◌∷◌, Option, none, some, arith, get_elem?, take, drop,
  keep,
}
use nowhere_agent.Base.Int.{pos, negsuc, is_positive}
use nowhere_agent.Base.Dict.{lookup, insert}
use nowhere_agent.Provider.{user}
use nowhere_agent.Session.Types.{
  Interaction, InteractionStatus, rejected, ok, err, no_pending_approval,
}
use nowhere_agent.Session.Store.{MemStore, new_mem_store}
use nowhere_agent.Session.Gate.{decide_approval, get_approval}
use nowhere_agent.Session.Gate.Once.{GateCall, decide, sweep_before, apply_all, decided_once}
use nowhere_agent.Session.Messages.{
  StoredMessage, MemMessageStore, new_mem_message_store, append_message, messages_for,
  messages_page,
}
use nowhere_agent.Session.Messages.Append.{InOrder, append_message-InOrder, messages_page-drop}

-- An interaction with the given status, alone in its store.
abbrev asked : InteractionStatus → Interaction
asked status = record {
  id = "i";
  run = "r";
  session = "s";
  tool_call = "t";
  tool_name = "n";
  payload = "{}";
  kind = "approval";
  status = status;
  result = none;
  created_at = 1;
  decided_at = none;
  seq = 1;
}

abbrev holding : InteractionStatus → MemStore
holding status = record new_mem_store { approvals = ("i", asked status) ∷ []; approval_seq = 1 }

held : (status : InteractionStatus) → lookup "i" (holding status).approvals ≡ some (asked status)
unfolding lookup
held status = refl

abbrev calls : List GateCall
calls = decide "i" true none 5 ∷ sweep_before 9 ∷ []

decided_once_example :
    (get_approval (apply_all (holding rejected) calls) "i" ≡ ok (asked rejected))
    × ((approve : Bool) (result : Option String) (now : ℕ)
        → decide_approval (apply_all (holding rejected) calls) "i" approve result now
          ≡ (apply_all (holding rejected) calls, err no_pending_approval))
decided_once_example =
    decided_once (holding rejected) calls "i" (asked rejected) (held rejected) refl refl

abbrev said : StoredMessage
said = record {
  id = pos 0;
  session = "s";
  run = "r";
  seq = 0;
  role = user;
  content = [];
  created_at = 0;
  usage = none;
  metadata = none;
}

abbrev reserved : StoredMessage
reserved = record said { id = negsuc 0 }

-- A message, one with an id that a step has reserved, and a third.
abbrev said_once : MemMessageStore
said_once = (append_message new_mem_message_store said 1).0

abbrev said_twice : MemMessageStore
said_twice = (append_message said_once reserved 2).0

abbrev talk : MemMessageStore
talk = (append_message said_twice said 3).0

said_once-InOrder : InOrder 0 0 1 (messages_for said_once "s")
unfolding append_message lookup insert InOrder
said_once-InOrder = (refl, omega arith, omega arith)

append_message-InOrder_example : InOrder 0 0 said_twice.next (messages_for said_twice "s")
unfolding append_message
append_message-InOrder_example =
    append_message-InOrder said_once reserved "s" 2 refl said_once-InOrder

talk-InOrder : InOrder 0 0 talk.next (messages_for talk "s")
unfolding append_message
talk-InOrder =
    append_message-InOrder said_twice said "s" 3 refl
      (append_message-InOrder said_once reserved "s" 2 refl said_once-InOrder)

abbrev first_said : StoredMessage
first_said = (append_message new_mem_message_store said 1).1

first_at : get_elem? (messages_for talk "s") 0 ≡ some first_said
unfolding append_message lookup insert
first_at = refl

-- The message with the reserved id is left out.
messages_page-drop_example :
    messages_page talk "s" (pos 1) (pos 2)
    ≡ take 2 (keep (λ x. is_positive x.id) (drop 1 (messages_for talk "s")))
unfolding append_message
messages_page-drop_example =
    messages_page-drop talk "s" 0 2 1 first_said talk-InOrder first_at refl (omega arith)
