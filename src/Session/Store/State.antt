-- ===== src/Session/Store/State.antt =====
-- The state dictionary of a session (internal/session/memstore.go).
use nowhere_agent.Base.{
  ◌≡◌, String, ◌&&◌, none, some, arith, if◌then◌else◌, str_eq, eq_iff, Option-cases, inl, inr,
}
use nowhere_agent.Base.Dict.{lookup, insert, lookup-insert}
use nowhere_agent.Session.Types.{Session, Result, ok, err}
use nowhere_agent.Session.Store.{set_session_state_kv, session_state_kv}
use nowhere_agent.Session.Store.Runs.{MemStore}

-- What a call leaves: the state that it returns, and the old one where it fails.
abbrev pub settle : MemStore → Result MemStore → MemStore
settle m (ok m') = m'
settle m (err e) = m

-- Setting a key of a session that exists is read back for that session and key alone, and every
-- other read is as before; where the session does not exist it fails and reads fail as before.
session_state_kv-set :
    (m : MemStore) (id id' key key' value : String)
    → session_state_kv (settle m (set_session_state_kv m id key value)) id' key'
      ≡ elim (lookup id m.sessions) [
        | none ↦ session_state_kv m id' key'
        | some s ↦
            if str_eq id id' && str_eq key key'
            then ok (some value)
            else session_state_kv m id' key'
      ]
unfolding session_state_kv set_session_state_kv
session_state_kv-set m id id' key key' value = elim (Option-cases (lookup id m.sessions)) [
  | inl e ↦ ground (arith, e)
  | inr (s, e) ↦
      let s' : Session = record s { state = insert key value s.state } in
      ground (
        arith,
        e,
        eq_iff id id',
        lookup-insert id id' s' m.sessions,
        lookup-insert key key' value s.state,
      )
]
