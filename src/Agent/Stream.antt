-- ===== src/Agent/Stream.antt =====
-- Assembling a message from the stream of a model, internal/agent/loop.go. The list of deliveries is
-- what the loop's `select` takes, and it ends where the provider closes the channel.
pub mod Whole
pub mod Calls
pub mod Frames
use Prim.Native.String.{◌++◌ as append}
use nowhere_agent.Base.{
  ℕ, String, Bool, true, false, not, ◌==◌, ltb, List, [], ◌∷◌, ◌++◌, Option, none, some, keep,
  str_eq, if◌then◌else◌,
}
use nowhere_agent.Base.Sorting.{sort_by}
use nowhere_agent.Provider.{
  Block, BlockType, Message, assistant, Usage, StopReason, stop_unknown, StreamEvent, event_error,
  block_start, block_delta, block_stop, message_stop, at_least, is_tool_use,
}
use nowhere_agent.Agent.Types.{
  Surroundings, Args, Call, RunState, Frame, Delivery, event, context_done, ModelResult, Failure,
  Attempt, replied, failed, ModelHandler, kind_text, kind_thinking, kind_tool_args, kind_tool_use,
}
use nowhere_agent.Agent.Emit.{emit_as, read_context}
use nowhere_agent.Base.{◌⊎◌, inl, inr}

abbrev pub is_unknown : StopReason → Bool
is_unknown stop = elim stop [ stop_unknown ↦ true | _ ↦ false ]

-- Of two counts the larger, and of two reports the larger count in each field.
abbrev pub larger : ℕ → ℕ → ℕ
larger a b = if at_least a b then a else b

unfoldable pub merge_usage : Option Usage → Option Usage → Option Usage
merge_usage none new = new
merge_usage (some old) none = some old
merge_usage (some old) (some new) = some (record {
  input = larger old.input new.input;
  output = larger old.output new.output;
  cache_read = larger old.cache_read new.cache_read;
  cache_write = larger old.cache_write new.cache_write;
  reasoning = larger old.reasoning new.reasoning;
})

pub record Accumulator : Type 0 where
  pub block : Block
  pub text : String
  pub json : String
  pub signature : String

abbrev pub new_accumulator : Block → Accumulator
new_accumulator b = record { block = b; text = ""; json = ""; signature = "" }

-- `append` and `appendSignature`
unfoldable pub accumulate : Accumulator → String → String → Accumulator
accumulate a delta sig =
    let signed : Accumulator = record a { signature = append a.signature sig } in
    elim a.block.type [
      | BlockType.text ↦ record signed { text = append a.text delta }
      | BlockType.thinking ↦ record signed { text = append a.text delta }
      | BlockType.tool_use ↦ record signed { json = append a.json delta }
      | _ ↦ signed
    ]

-- What one stream has come to: `assistant.Content`, `calls`, `end`, the blocks that are open by
-- index, and whether a frame was taken by the emitter.
pub record Turn : Type 0 where
  pub content : List Block
  pub calls : List Call
  pub stop : StopReason
  pub usage : Option Usage
  pub opened : List (ℕ × Accumulator)
  pub emitted : Bool

abbrev pub new_turn : Turn
new_turn = record {
  content = [];
  calls = [];
  stop = stop_unknown;
  usage = none;
  opened = [];
  emitted = false;
}

unfoldable pub find_open : ℕ → List (ℕ × Accumulator) → Option Accumulator
find_open i [] = none
find_open i ((j, a) ∷ more) = let rest = find_open i more in if j == i then some a else rest

abbrev pub close_open : ℕ → List (ℕ × Accumulator) → List (ℕ × Accumulator)
close_open i = keep (λ p. not (p.0 == i))

abbrev pub set_open : ℕ → Accumulator → List (ℕ × Accumulator) → List (ℕ × Accumulator)
set_open i a more = (i, a) ∷ close_open i more

-- What `consume` returns, with the state of the run.
pub record Consumed : Type 0 where
  pub error : Option String
  pub turn : Turn
  pub state : RunState

abbrev pub going : Turn → RunState → Consumed
going t s = record { error = none; turn = t; state = s }

abbrev pub failing : String → Turn → RunState → Consumed
failing e t s = record { error = some e; turn = t; state = s }

abbrev pub by_index : ℕ × Accumulator → ℕ × Accumulator → Bool
by_index p q = ltb p.0 q.0

abbrev pub duplicate_start : String → String
duplicate_start = append "provider stream contract violation: duplicate block start at index "

abbrev pub unopened_delta : String → String
unopened_delta = append "provider stream contract violation: block delta at unopened index "

module _ (env : Surroundings) where
  -- The block, with the error of its arguments on it, and that error.
  unfoldable pub finalize : Accumulator → Block × String
  finalize a = elim a.block.type [
    | BlockType.text ↦ (record a.block { text = a.text }, "")
    | BlockType.thinking ↦ (
      record a.block {
        thinking = a.text;
        thinking_signature =
            if str_eq a.signature "" then a.block.thinking_signature else a.signature;
      },
      "",
    )
    | BlockType.tool_use ↦
        if str_eq a.json "" then (a.block, "") else elim (env.parse_args a.json) [
          | some input ↦ (record a.block { tool_input = input }, "")
          | none ↦
              let e = append "tool arguments are not valid JSON: " (env.parse_error a.json) in
              (record a.block { args_error = e }, e)
        ]
    | _ ↦ (a.block, "")
  ]

  -- `track.Emit`: whether it failed, and the turn and the state after it.
  unfoldable pub track : Frame → Turn → RunState → Consumed
  track frame t s =
      let (taken, s') = emit_as env false frame s in
      if taken then going (record t { emitted = true }) s' else failing env.emit_error t s'

  unfoldable pub append_finalized : Accumulator → Turn → RunState → Turn × RunState
  append_finalized a t s =
      let (b, e) = finalize a in
      let t' : Turn = record t { content = t.content ++ b ∷ [] } in
      if is_tool_use b
      then (let call : Call = record {
        id = b.tool_use_id;
        name = b.tool_name;
        args = b.tool_input;
        args_error = e;
      } in
          let r =
            track (kind_tool_use b.tool_use_id b.tool_name b.tool_input)
              (record t' { calls = t.calls ++ call ∷ [] }) s in
          (r.turn, r.state))
      else (t', s)

  unfoldable pub finalize_all : List (ℕ × Accumulator) → Turn → RunState → Turn × RunState
  finalize_all [] t s = (t, s)
  finalize_all ((i, a) ∷ rest) t s =
      let (t', s') = append_finalized a t s in finalize_all rest t' s'

  -- The channel is closed.
  unfoldable pub close : Turn → RunState → Consumed
  close t s =
      let (done, s') = read_context env s in
      if done
      then failing env.context_error t s'
      else (let (t', s'') =
            finalize_all (sort_by by_index t.opened) (record t { opened = [] }) s' in
          going t' s'')

  -- The frame of a delta, if it has one.
  unfoldable pub delta_frame : Block → String → Option Frame
  delta_frame b delta = elim b.type [
    | BlockType.text ↦ some (kind_text delta)
    | BlockType.thinking ↦ some (kind_thinking delta)
    | BlockType.tool_use ↦
        if str_eq delta "" then none else some (kind_tool_args b.tool_use_id b.tool_name delta)
    | _ ↦ none
  ]

  unfoldable pub on_event : StreamEvent → Turn → RunState → Consumed
  on_event (event_error e) t s = failing e t s
  on_event (block_start i none) t s = going t s
  on_event (block_start i (some b)) t s = elim (find_open i t.opened) [
    | some a ↦ failing (duplicate_start (env.decimal i)) t s
    | none ↦
        let t' : Turn = record t { opened = set_open i (new_accumulator b) t.opened } in
        if is_tool_use b
        then track (kind_tool_args b.tool_use_id b.tool_name "") t' s
        else going t' s
  ]
  on_event (block_delta i delta sig) t s = elim (find_open i t.opened) [
    | none ↦ failing (unopened_delta (env.decimal i)) t s
    | some a ↦
        let t' : Turn = record t { opened = set_open i (accumulate a delta sig) t.opened } in
        elim (delta_frame a.block delta) [ none ↦ going t' s | some frame ↦ track frame t' s ]
  ]
  on_event (block_stop i) t s = elim (find_open i t.opened) [
    | none ↦ going t s
    | some a ↦
        let (t', s') = append_finalized a t s in
        going (record t' { opened = close_open i t'.opened }) s'
  ]
  on_event (message_stop stop usage) t s =
      going
        (record t {
          stop = if is_unknown stop then t.stop else stop;
          usage = elim usage [ none ↦ t.usage | some u ↦ merge_usage t.usage (some u) ];
        })
        s

  unfoldable pub consume : List Delivery → Turn → RunState → Consumed
  consume [] t s = close t s
  consume (context_done ∷ ds) t s = failing env.context_error t s
  consume (event ev ∷ ds) t s =
      let r = on_event ev t s in elim r.error [ some e ↦ r | none ↦ consume ds r.turn r.state ]

  -- The innermost handler: `provider.Stream` returns the stream or an error.
  unfoldable pub real_attempt : (RunState → List Message → List Delivery ⊎ String) → ModelHandler
  real_attempt stream s msgs = elim (stream s msgs) [
    | inr e ↦ (s, failed (record { text = append "stream: " e; mid_stream = false }))
    | inl ds ↦
        let r = consume ds new_turn s in
        elim r.error [
          | some e ↦ (r.state, failed (record { text = e; mid_stream = r.turn.emitted }))
          | none ↦ (
            r.state,
            replied (record {
              assistant = record { role = assistant; content = r.turn.content };
              calls = r.turn.calls;
              stop = r.turn.stop;
              usage = r.turn.usage;
            }),
          )
        ]
  ]
