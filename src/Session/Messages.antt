-- ===== src/Session/Messages.antt =====
-- The messages of a session: internal/session/memmessagestore.go, with assistantText and
-- StoredMessagesToProvider of messages.go. `strings.TrimSpace` is the parameter `trim`.
pub mod Windows
pub mod Append
use Prim.Native.String.{◌++◌ as append}
use nowhere_agent.Base.{
  ℕ, zero, reverse, suc, ◌+◌, String, Bool, true, false, not, ◌&&◌, List, [], ◌∷◌, ◌++◌, Option,
  none, some, length, keep, leb, map, if◌then◌else◌, str_eq,
}
use nowhere_agent.Base.Int.{ℤ, pos, negsuc, is_positive, clamp}
use nowhere_agent.Base.Dict.{Dict, lookup, insert}
use nowhere_agent.Provider.{Role, assistant, user, Block, BlockType, Message}
use nowhere_agent.Session.Types.{Usage}
use nowhere_agent.Session.Orders.{int_less}
use nowhere_agent.Session.Store.{entries}

pub record StoredMessage : Type 0 where
  pub id : ℤ
  pub session : String
  pub run : String
  pub seq : ℕ
  pub role : Role
  pub content : List Block
  pub created_at : ℕ
  pub usage : Option Usage
  pub metadata : Option String

pub record MemMessageStore : Type 0 where
  pub next : ℕ
  pub by_session : Dict (List StoredMessage)

abbrev pub new_mem_message_store : MemMessageStore
new_mem_message_store = record { next = 0; by_session = [] }

abbrev pub messages_for : MemMessageStore → String → List StoredMessage
messages_for m session = entries session m.by_session

-- `msg.ID == 0`
abbrev pub is_unassigned : ℤ → Bool
is_unassigned (pos zero) = true
is_unassigned (pos (suc n)) = false
is_unassigned (negsuc n) = false

unfoldable pub append_message :
    MemMessageStore → StoredMessage → ℕ → MemMessageStore × StoredMessage
append_message m msg now =
    let next = if is_unassigned msg.id then suc m.next else m.next in
    let msg' : StoredMessage = record msg {
      id = if is_unassigned msg.id then pos next else msg.id;
      seq = length (messages_for m msg.session);
      created_at = now;
    } in
    (
      record m {
        next = next;
        by_session = insert msg.session (messages_for m msg.session ++ msg' ∷ []) m.by_session;
      },
      msg',
    )

abbrev pub is_after : ℤ → StoredMessage → Bool
is_after id m = int_less id m.id

unfoldable pub messages_after : MemMessageStore → String → ℤ → List StoredMessage
messages_after m session after = keep (is_after after) (messages_for m session)

-- `len(out) >= limit`
abbrev pub reached : ℤ → ℕ → Bool
reached (pos k) n = leb k n
reached (negsuc k) n = true

-- The loop of `MessagesPage`; `n` is the length of what it has taken.
unfoldable pub page_from : ℤ → ℤ → ℕ → List StoredMessage → List StoredMessage
page_from after limit n [] = []
page_from after limit n (x ∷ xs) =
    let skipped = page_from after limit n xs in
    let taken = page_from after limit (suc n) xs in
    if is_after after x then x ∷ (if reached limit (suc n) then [] else taken) else skipped

unfoldable pub messages_page : MemMessageStore → String → ℤ → ℤ → List StoredMessage
messages_page m session after limit = page_from after limit 0 (messages_for m session)

-- Whether `MessagesTail` takes a message: the cursor counts where it is positive.
abbrev pub is_before : ℤ → StoredMessage → Bool
is_before before m = not (is_positive before && not (int_less m.id before))

-- The loop of `MessagesTail` from the last message to the first, with room for `n`.
unfoldable pub tail_from : ℤ → ℕ → List StoredMessage → List StoredMessage
tail_from before zero xs = []
tail_from before (suc n) [] = []
tail_from before (suc n) (x ∷ xs) =
    let skipped = tail_from before (suc n) xs in
    let taken = tail_from before n xs in if is_before before x then x ∷ taken else skipped

unfoldable pub messages_tail : MemMessageStore → String → ℤ → ℤ → List StoredMessage
messages_tail m session before limit =
    if is_positive limit
    then reverse (tail_from before (clamp limit) (reverse (messages_for m session)))
    else []

abbrev pub int_eq : ℤ → ℤ → Bool
int_eq m n = not (int_less m n) && not (int_less n m)

-- The first message with the id gets the metadata; `none` where no message has it.
unfoldable pub set_in : ℤ → String → List StoredMessage → Option (List StoredMessage)
set_in id metadata [] = none
set_in id metadata (x ∷ xs) =
    let rest = set_in id metadata xs in
    if int_eq x.id id
    then some (record x { metadata = some metadata } ∷ xs)
    else elim rest [ none ↦ none | some xs' ↦ some (x ∷ xs') ]

unfoldable pub set_first : ℤ → String → Dict (List StoredMessage) → Dict (List StoredMessage)
set_first id metadata [] = []
set_first id metadata ((session, xs) ∷ rest) =
    let rest' = set_first id metadata rest in
    elim (set_in id metadata xs) [ none ↦ (session, xs) ∷ rest' | some xs' ↦ (session, xs') ∷ rest ]

unfoldable pub set_message_metadata : MemMessageStore → ℤ → String → MemMessageStore
set_message_metadata m id metadata = record m { by_session = set_first id metadata m.by_session }

abbrev pub is_text : Block → Bool
is_text b = elim b.type [ BlockType.text ↦ true | _ ↦ false ]

abbrev pub joined : List Block → String
joined [] = ""
joined (b ∷ bs) = if is_text b then append b.text (joined bs) else joined bs

abbrev pub from_assistant : StoredMessage → Bool
from_assistant m = elim m.role [ assistant ↦ true | user ↦ false ]

module _ (trim : String → String) where
  unfoldable pub assistant_text : List Block → String
  assistant_text bs = trim (joined bs)

  -- The loop of `LastAssistantText` from the last message to the first, over at most `n` of the
  -- assistant's.
  unfoldable pub text_from : ℕ → List StoredMessage → String
  text_from zero xs = ""
  text_from (suc n) [] = ""
  text_from (suc n) (x ∷ xs) =
      let skipped = text_from (suc n) xs in
      let next = text_from n xs in
      if from_assistant x
      then (if str_eq (assistant_text x.content) "" then next else assistant_text x.content)
      else skipped

  unfoldable pub last_assistant_text : MemMessageStore → String → ℤ → String
  last_assistant_text m session limit =
      if is_positive limit then text_from (clamp limit) (reverse (messages_for m session)) else ""

abbrev pub first_of_run : String → List StoredMessage → Option StoredMessage
first_of_run run [] = none
first_of_run run (x ∷ xs) =
    if from_assistant x && str_eq x.run run then some x else first_of_run run xs

unfoldable pub last_assistant_message : MemMessageStore → String → String → Option StoredMessage
last_assistant_message m session run = first_of_run run (reverse (messages_for m session))

abbrev pub stored_messages_to_provider : List StoredMessage → List Message
stored_messages_to_provider = map (λ m. record { role = m.role; content = m.content })
