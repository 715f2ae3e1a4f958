-- ===== src/Session/Broker/Log.antt =====
-- What the broker of internal/session/streambroker.go promises of one session, in terms of all the
-- frames that were published.
use nowhere_agent.Base.{
  ℕ, suc, ◌-◌, ltb, leb, String, List, [], ◌∷◌, ◌++◌, ◌&&◌, Option, none, some, length, drop, keep,
  str_eq, if◌then◌else◌,
}
use nowhere_agent.Session.Broker.{
  StreamEvent, remove_sub, is_nil, Op, op_publish, op_subscribe, op_unsub, op_settle, op_send,
  op_receive,
}

-- All frames of a stream, how many of them a settled run has left behind, and who is attached.
pub record Log : Type 0 where
  pub published : List StreamEvent
  pub settled : ℕ
  pub attached : List ℕ

abbrev pub empty_log : Log
empty_log = record { published = []; settled = 0; attached = [] }

abbrev pub or_empty : Option Log → Log
or_empty none = empty_log
or_empty (some l) = l

-- The frames with their positions from `n` on as offsets.
abbrev pub numbered : ℕ → List StreamEvent → List StreamEvent
numbered n [] = []
numbered n (ev ∷ evs) = record ev { offset = n } ∷ numbered (suc n) evs

abbrev pub last {ℓ} : {A : Type ℓ} → ℕ → List A → List A
last n xs = drop (length xs - n) xs

-- Of the frames since the last settled run the last ones, as many as the capacity.
abbrev pub retained : ℕ → Log → List StreamEvent
retained capacity l = last capacity (drop l.settled (numbered 1 l.published))

abbrev pub read_log : ℕ → ℕ → Option Log → List StreamEvent
read_log capacity after none = []
read_log capacity after (some l) = keep (λ ev. ltb after ev.offset) (retained capacity l)

-- A stream is forgotten when nobody is attached to it and no frame has come since it settled.
abbrev pub forget : Log → Option Log
forget l = if is_nil l.attached && leb (length l.published) l.settled then none else some l

abbrev pub log_settle : Log → Option Log
log_settle l = forget (record l { settled = length l.published })

-- What a step means for the session.
abbrev pub log_step : String → Op → Option Log → Option Log
log_step session (op_publish s ev) o =
    let l = or_empty o in
    if str_eq s session then some (record l { published = l.published ++ ev ∷ [] }) else o
log_step session (op_subscribe s ch buffer) o =
    let l = or_empty o in
    if str_eq s session then some (record l { attached = ch ∷ remove_sub ch l.attached }) else o
log_step session (op_unsub s ch) o =
    if str_eq s session
    then (elim o [
      | none ↦ none
      | some l ↦ forget (record l { attached = remove_sub ch l.attached })
    ])
    else o
log_step session (op_settle s) o =
    if str_eq s session then (elim o [ none ↦ none | some l ↦ log_settle l ]) else o
log_step session (op_send i) o = o
log_step session (op_receive ch) o = o

abbrev pub log_of : String → List Op → Option Log → Option Log
log_of session [] o = o
log_of session (op ∷ ops) o = log_of session ops (log_step session op o)
