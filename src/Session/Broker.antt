-- ===== src/Session/Broker.antt =====
-- The in-memory broker of live frames, internal/session/streambroker.go. What runs under the mutex is
-- one step, and so is each send of `Publish` to a subscriber after it; a channel is named by a number
-- that `make` gives it. Offsets count from 1 and are not taken to overflow.
pub mod Log
pub mod Numbers
pub mod Holds
pub mod Refines
mod Stretches
pub mod Catchup
use nowhere_agent.Base.{
  ℕ, zero, suc, ◌+◌, ◌-◌, ltb, leb, ◌==◌, String, Bool, true, false, not, ◌&&◌, List, [], ◌∷◌, ◌++◌,
  map, Option, none, some, length, take, drop, keep, get_elem?, str_eq, if◌then◌else◌,
}
use nowhere_agent.Base.Int.{ℤ, pos, is_positive, clamp}
use nowhere_agent.Base.Dict.{Dict, lookup, insert, delete}

pub record StreamEvent : Type 0 where
  pub offset : ℕ
  pub run : String
  pub kind : String
  pub payload : String

pub record LiveStream : Type 0 where
  pub next : ℕ
  pub frames : List StreamEvent
  pub subs : List ℕ

-- A channel of a subscriber, the oldest frame first.
pub record Channel : Type 0 where
  pub id : ℕ
  pub buffer : ℕ
  pub queue : List StreamEvent

-- `memBroker`, with the channels that were made and the sends that are still to come.
pub record MemBroker : Type 0 where
  pub streams : Dict LiveStream
  pub capacity : ℕ
  pub dropped : ℕ
  pub channels : List Channel
  pub sends : List (ℕ × StreamEvent)

unfoldable pub new_mem_broker : ℤ → MemBroker
new_mem_broker capacity = record {
  streams = [];
  capacity = if is_positive capacity then clamp capacity else 1024;
  dropped = 0;
  channels = [];
  sends = [];
}

abbrev pub new_stream : LiveStream
new_stream = record { next = 0; frames = []; subs = [] }

abbrev pub or_new : Option LiveStream → LiveStream
or_new none = new_stream
or_new (some ls) = ls

-- The locked part of `Publish`, on one stream.
unfoldable pub append_frame : ℕ → StreamEvent → LiveStream → LiveStream
append_frame capacity ev ls =
    let frames = ls.frames ++ record ev { offset = suc ls.next } ∷ [] in
    record ls {
      next = suc ls.next;
      frames =
          if ltb capacity (length frames) then drop (length frames - capacity) frames else frames;
    }

unfoldable pub publish : String → StreamEvent → MemBroker → ℕ × MemBroker
publish session ev b =
    let ls = append_frame b.capacity ev (or_new (lookup session b.streams)) in
    (
      ls.next,
      record b {
        streams = insert session ls b.streams;
        sends = b.sends ++ map (λ ch. (ch, record ev { offset = ls.next })) ls.subs;
      },
    )

unfoldable pub read : String → ℕ → MemBroker → List StreamEvent
read session after b = elim (lookup session b.streams) [
  | none ↦ []
  | some ls ↦ keep (λ ev. ltb after ev.offset) ls.frames
]

abbrev pub remove_sub : ℕ → List ℕ → List ℕ
remove_sub ch = keep (λ other. not (other == ch))

unfoldable pub subscribe : String → ℕ → ℕ → MemBroker → MemBroker
subscribe session ch buffer b =
    let ls = or_new (lookup session b.streams) in
    record b {
      streams = insert session (record ls { subs = ch ∷ remove_sub ch ls.subs }) b.streams;
      channels = record { id = ch; buffer = buffer; queue = [] } ∷ b.channels;
    }

abbrev pub is_nil {ℓ} : {A : Type ℓ} → List A → Bool
is_nil [] = true
is_nil (x ∷ xs) = false

-- What `Subscribe` returns with the channel.
unfoldable pub unsub : String → ℕ → MemBroker → MemBroker
unsub session ch b = elim (lookup session b.streams) [
  | none ↦ b
  | some ls ↦
      let subs = remove_sub ch ls.subs in
      record b {
        streams =
            if is_nil subs && is_nil ls.frames
            then delete session b.streams
            else insert session (record ls { subs = subs }) b.streams;
      }
]

unfoldable pub settle : String → MemBroker → MemBroker
settle session b = elim (lookup session b.streams) [
  | none ↦ b
  | some ls ↦ record b {
    streams =
        if is_nil ls.subs
        then delete session b.streams
        else insert session (record ls { frames = [] }) b.streams;
  }
]

-- A send that does not block: the channels after it, and whether the frame was dropped.
unfoldable pub offer : ℕ → StreamEvent → List Channel → Bool × List Channel
offer ch ev [] = (true, [])
offer ch ev (c ∷ cs) =
    let (lost, rest) = offer ch ev cs in
    if c.id == ch
    then (if ltb (length c.queue) c.buffer
        then (false, record c { queue = c.queue ++ ev ∷ [] } ∷ cs)
        else (true, c ∷ cs))
    else (lost, c ∷ rest)

-- The i-th of the sends that are still to come takes place.
unfoldable pub send : ℕ → MemBroker → MemBroker
send i b = elim (get_elem? b.sends i) [
  | none ↦ b
  | some (ch, ev) ↦
      let (lost, channels) = offer ch ev b.channels in
      record b {
        channels = channels;
        dropped = if lost then suc b.dropped else b.dropped;
        sends = take i b.sends ++ drop (suc i) b.sends;
      }
]

-- A subscriber takes the oldest frame from its channel.
unfoldable pub receive_from : ℕ → List Channel → List Channel
receive_from ch [] = []
receive_from ch (c ∷ cs) =
    let rest = receive_from ch cs in
    if c.id == ch then record c { queue = drop 1 c.queue } ∷ cs else c ∷ rest

-- What happens to a broker, one step at a time.
pub data Op : Type 0 where
  op_publish : String → StreamEvent → Op
  op_subscribe : String → ℕ → ℕ → Op
  op_unsub : String → ℕ → Op
  op_settle : String → Op
  op_send op_receive : ℕ → Op

unfoldable pub apply : Op → MemBroker → MemBroker
apply (op_publish session ev) b = (publish session ev b).1
apply (op_subscribe session ch buffer) b = subscribe session ch buffer b
apply (op_unsub session ch) b = unsub session ch b
apply (op_settle session) b = settle session b
apply (op_send i) b = send i b
apply (op_receive ch) b = record b { channels = receive_from ch b.channels }

-- The steps in their order.
unfoldable pub apply_all : List Op → MemBroker → MemBroker
apply_all [] b = b
apply_all (op ∷ ops) b = apply_all ops (apply op b)
