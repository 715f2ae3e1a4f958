-- ===== src/Session/Store.antt =====
-- The sessions and runs of internal/session/memstore.go. A `*Run` that `runs` and `bySess` share is
-- the run of its id, so `by_session` lists ids. A range over a map goes in the order of insertion.
mod Runs
mod Watermarks
unfoldable pub use Runs.*
unfoldable pub use Watermarks.*
pub mod Stranded
pub mod Sequence
pub mod Pages
pub mod State
use nowhere_agent.Base.{
  ℕ, ◌-◌, String, Bool, true, false, not, ◌&&◌, ◌||◌, ◌==◌, List, [], ◌∷◌, Option, none, some,
  length, take, get_elem?, keep, ltb, map, if◌then◌else◌, str_eq,
}
use nowhere_agent.Base.Int.{ℤ, is_positive, clamp}
use nowhere_agent.Base.Dict.{Dict, lookup, insert, delete, has}
use nowhere_agent.Session.Types.{
  Session, session_active, session_ended, is_active, SessionCursor, SessionPage, Result, ok, err,
  session_not_found, not_supported,
}
use nowhere_agent.Base.TextOrder.{text_less}
use nowhere_agent.Session.Orders.{sort_by}
use nowhere_agent.Session.Store.Runs.{MemStore}

abbrev pub values : {V : Type 0} → Dict V → List V
values = map (λ e. e.1)

unfoldable pub create_session : MemStore → String → String → String → ℕ → MemStore × Session
create_session m id user title now =
    let s : Session = record {
      id = id;
      user = user;
      title = title;
      status = session_active;
      created_at = now;
      updated_at = now;
      state = [];
    } in
    (record m { sessions = insert id s m.sessions }, s)

unfoldable pub get_session : MemStore → String → Result Session
get_session m id = elim (lookup id m.sessions) [ none ↦ err session_not_found | some s ↦ ok s ]

unfoldable pub end_session : MemStore → String → MemStore
end_session m id = elim (lookup id m.sessions) [
  | none ↦ m
  | some s ↦ record m { sessions = insert id (record s { status = session_ended }) m.sessions }
]

unfoldable pub list_idle_sessions : MemStore → ℕ → List Session
list_idle_sessions m before =
    keep (λ s. is_active s.status && ltb s.updated_at before) (values m.sessions)

-- The order of the ended sessions: by the time of the end, then by the id.
abbrev pub ended_less : Session → Session → Bool
ended_less s t =
    ltb s.updated_at t.updated_at || (s.updated_at == t.updated_at && text_less s.id t.id)

-- The sessions behind the one with the id `after`, none where it is not there.
abbrev pub rest_after : String → List Session → List Session
rest_after after [] = []
rest_after after (s ∷ ss) = if str_eq s.id after then ss else rest_after after ss

-- `ListEndedSessionsEndedBefore`
unfoldable pub list_ended_before : MemStore → ℕ → String → ℤ → List String
list_ended_before m before after limit =
    let ended =
      keep (λ s. not (is_active s.status) && ltb s.updated_at before) (values m.sessions) in
    let sorted = sort_by ended_less ended in
    let rest = if str_eq after "" then sorted else rest_after after sorted in
    map (λ s. s.id) (if is_positive limit then take (clamp limit) rest else rest)

-- `ListUndreamedSessions` and `ListUndreamedSessionsForUser`
abbrev pub list_undreamed_sessions : MemStore → Result (List Session)
list_undreamed_sessions m = err not_supported

unfoldable pub set_session_state_kv : MemStore → String → String → String → Result MemStore
set_session_state_kv m id key value = elim (lookup id m.sessions) [
  | none ↦ err session_not_found
  | some s ↦
      ok (record m {
        sessions = insert id (record s { state = insert key value s.state }) m.sessions;
      })
]

unfoldable pub session_state_kv : MemStore → String → String → Result (Option String)
session_state_kv m id key = elim (lookup id m.sessions) [
  | none ↦ err session_not_found
  | some s ↦ ok (lookup key s.state)
]

unfoldable pub session_state : MemStore → String → Result (Dict String)
session_state m id = elim (lookup id m.sessions) [
  | none ↦ err session_not_found
  | some s ↦ ok s.state
]

unfoldable pub delete_session_for_user : MemStore → String → String → Bool × MemStore
delete_session_for_user m id user = elim (lookup id m.sessions) [
  | none ↦ (false, m)
  | some s ↦
      if str_eq s.user user
      then (
        true,
        record m { sessions = insert id (record s { status = session_ended }) m.sessions },
      )
      else (false, m)
]

unfoldable pub delete_session : MemStore → String → Result MemStore
delete_session m id =
    if has id m.sessions
    then ok (record m { sessions = delete id m.sessions })
    else err session_not_found

unfoldable pub session_ids_for_user : MemStore → String → List String
session_ids_for_user m user = map (λ s. s.id) (keep (λ s. str_eq s.user user) (values m.sessions))

-- The order of the conversation list: the most recently active first, then by the id, downwards.
unfoldable pub listed_before : Session → Session → Bool
listed_before s t =
    ltb t.updated_at s.updated_at || (s.updated_at == t.updated_at && text_less t.id s.id)

-- Whether a session is strictly below the cursor.
unfoldable pub below_cursor : SessionCursor → Session → Bool
below_cursor c s =
    ltb s.updated_at c.updated_at || (s.updated_at == c.updated_at && text_less s.id c.id)

abbrev pub below : Option SessionCursor → List Session → List Session
below none ss = ss
below (some c) ss = keep (below_cursor c) ss

-- The page of at most `n` sessions; the cursor is the last one's if some are left.
unfoldable pub page_of : ℕ → List Session → SessionPage
page_of n ss =
    if ltb n (length ss)
    then record {
      sessions = take n ss;
      next_cursor = elim (get_elem? ss (n - 1)) [
        | none ↦ none
        | some s ↦ some (record { updated_at = s.updated_at; id = s.id })
      ];
    }
    else record { sessions = ss; next_cursor = none }

-- `strings.ToLower` and `strings.Contains`
module _ (to_lower : String → String) (has_part : String → String → Bool) where
  -- The sessions of the list, in its order.
  unfoldable pub listed : MemStore → String → String → List Session
  listed m user q =
      let needle = to_lower q in
      sort_by listed_before (
        keep
          (λ s.
            str_eq s.user user
            && is_active s.status
            && (str_eq needle "" || has_part (to_lower s.title) needle))
          (values m.sessions))

  unfoldable pub list_sessions_by_user :
      MemStore → String → String → ℤ → Option SessionCursor → SessionPage
  list_sessions_by_user m user q limit cursor =
      page_of (if is_positive limit then clamp limit else 25) (below cursor (listed m user q))
