-- ===== src/Agent/Loop.antt =====
-- The agent's loop, internal/agent/loop.go. A run is a function of its surroundings, of the provider
-- and of the loop's configuration; a failed attempt carries no result.
pub mod Texts
pub mod Run
pub mod Invariant
pub mod Endings
pub mod Replies
pub mod Iterations
pub mod Handlers
pub mod Sound
pub mod Paired
pub mod Terminal
use Prim.Native.String.{◌++◌ as append}
use nowhere_agent.Base.{
  ℕ, zero, suc, ◌+◌, String, Bool, true, false, ◌&&◌, ◌||◌, ◌==◌, ltb, not, List, [], ◌∷◌, ◌++◌,
  Option, none, some, ◌⊎◌, inl, inr, length, take, drop, reverse, keep, str_eq, if◌then◌else◌,
}
use nowhere_agent.Base.Int.{ℤ, pos, is_positive, clamp, above, minus, ◌+ℤ◌}
use nowhere_agent.Provider.{
  Block, BlockType, Message, Usage, StopReason, stop_unknown, stop_end_turn, stop_tool_use,
  stop_max_tokens, add_usage, at_least,
}
use nowhere_agent.Context.Pairing.{ensure_pairing}
use nowhere_agent.Context.Rounds.{
  drop_oldest_round, drop_oldest_round_preserving_summary, leads_with_summary,
}
use nowhere_agent.Context.Compress.{CompressionCache, advance, invalidate}
use nowhere_agent.Agent.Types.{
  Surroundings, Call, ToolResult, Registry, Interaction, RunState, ModelResult, Failure, Attempt,
  replied, failed, HookResult, fine, logged, aborts, Hook, ModelHandler, ModelMiddleware,
  ToolMiddleware, GateFunc, Ending, ended_well, ended_cancelled, ended_failed, Delivery,
  kind_message, kind_interrupt, kind_step_finish, kind_step_start, kind_overflow_recovery,
  kind_done, kind_cancelled, kind_error,
}

pub record Config : Type 0 where
  pub max_iterations : ℤ
  pub max_tokens : ℤ
  pub tools : Registry
  pub before : List Hook
  pub after_model : List Hook
  pub after_run : List Hook
  pub model_wrap : List ModelMiddleware
  pub tool_wrap : List ToolMiddleware
  pub gate_interaction : Option GateFunc
  pub gate_execute : Option GateFunc

-- The default of `New`.
unfoldable pub with_default : Config → Config
with_default cfg = elim cfg.max_iterations [
  | pos n ↦ if n == 0 then record cfg { max_iterations = pos 25 } else cfg
  | _ ↦ cfg
]

-- `UsageScope` apart, the state that a run starts with.
abbrev pub new_run : RunState
new_run = record {
  view = [];
  produced = [];
  usage = record { input = 0; output = 0; cache_read = 0; cache_write = 0; reasoning = 0 };
  iteration = 0;
  compress_cache = none;
  view_dropped = pos 0;
  overflow_recovered = false;
  frames = [];
  reads = 0;
  pending = [];
}

-- The hooks in the order of the list, up to one that aborts.
unfoldable pub run_hooks : List Hook → RunState → RunState × Option String
run_hooks [] s = (s, none)
run_hooks (h ∷ hs) s =
    let (s', r) = h s in
    elim r [ fine ↦ run_hooks hs s' | logged ↦ run_hooks hs s' | aborts e ↦ (s', some e) ]

-- `chainModel`: the first middleware is the outermost, and a panic of one becomes its error.
unfoldable pub chain_model : List ModelMiddleware → ModelHandler → ModelHandler
chain_model [] inner = inner
chain_model (m ∷ ms) inner = λ s msgs.
    let (s', r) = m.wrap (chain_model ms inner) s msgs in
    elim r [
      | inl attempt ↦ (s', attempt)
      | inr panic ↦ (
        s',
        failed (record {
          text =
              append "agent: model-call middleware \""
                (append m.name (append "\" panicked: " panic));
          mid_stream = false;
        }),
      )
    ]

unfoldable pub is_recoverable_length : Option Usage → ℤ → Bool
is_recoverable_length usage desired =
    if not (is_positive desired)
    then false
    else elim usage [ none ↦ false | some u ↦ not (at_least u.output (clamp desired)) ]

-- A stop at the output limit that was really reached.
unfoldable pub genuine_length : ModelResult → ℤ → Bool
genuine_length res desired =
    is_positive desired
    && (elim res.usage [ none ↦ false | some u ↦ at_least u.output (clamp desired) ])

abbrev pub is_max_tokens : StopReason → Bool
is_max_tokens stop = elim stop [ stop_max_tokens ↦ true | _ ↦ false ]

abbrev pub is_end_turn : StopReason → Bool
is_end_turn stop = elim stop [ stop_end_turn ↦ true | _ ↦ false ]

abbrev pub is_stop_tool_use : StopReason → Bool
is_stop_tool_use stop = elim stop [ stop_tool_use ↦ true | _ ↦ false ]

-- Whether a block carries something, or marks the end of a cached prefix.
unfoldable pub carries : Block → Bool
carries b = b.cache_point || (elim b.type [
  | BlockType.text ↦ not (str_eq b.text "")
  | BlockType.thinking ↦ not (str_eq b.thinking "" && str_eq b.thinking_signature "")
  | _ ↦ true
])

unfoldable pub drop_empty_blocks : List Block → List Block
drop_empty_blocks = keep carries

abbrev pub trim_reply : ModelResult → ModelResult
trim_reply r = record r {
  assistant = record r.assistant { content = drop_empty_blocks r.assistant.content };
}

abbrev pub count_usage : Option Usage → RunState → RunState
count_usage usage s = record s {
  usage = elim usage [ none ↦ s.usage | some u ↦ add_usage s.usage u ];
}

abbrev pub is_empty {ℓ} : {A : Type ℓ} → List A → Bool
is_empty [] = true
is_empty (x ∷ xs) = false

-- That the view was shrunk is told to the cache of a summary in the view, or else to the run.
unfoldable pub account_for_drop : List Message → RunState → RunState
account_for_drop shrunk s =
    let n = minus (length s.view) (length shrunk) in
    let dropped : RunState = record s { view_dropped = s.view_dropped +ℤ n } in
    elim s.compress_cache [
      | none ↦ dropped
      | some cache ↦
          if ltb 0 cache.covered && leads_with_summary s.view
          then (if leads_with_summary shrunk
              then (if is_positive n
                  then record s {
                    compress_cache = advance (some cache) (take (clamp n) (drop 1 s.view));
                  }
                  else s)
              else record s { compress_cache = some (invalidate cache) })
          else dropped
    ]

-- The oldest round is dropped from the view of the next attempts; `none` if nothing can be dropped.
unfoldable pub drop_oldest_round_for_overflow : RunState → Option RunState
drop_oldest_round_for_overflow s =
    let (kept, preserved) = drop_oldest_round_preserving_summary s.view in
    let (shrunk, ok) = if preserved then (kept, true) else drop_oldest_round s.view in
    if ok then some (account_for_drop shrunk s) else none

-- The view of an iteration.
unfoldable pub working_view : List Message → RunState → List Message
working_view base s =
    let view = base ++ s.produced in
    if is_positive s.view_dropped && above (length view) s.view_dropped
    then drop (clamp s.view_dropped) view
    else view
