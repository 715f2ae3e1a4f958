-- ===== src/Agent/Builtin.antt =====
-- The built-in middlewares of internal/agent/middleware.go that the model covers. The handlers inside
-- `OverflowMW` leave the messages of the call as they are.
pub mod Keeping
pub mod Overflow
use Prim.Native.String.{◌++◌ as append}
use nowhere_agent.Base.{
  ℕ, zero, suc, ◌+◌, ◌-◌, ◌*◌, ◌/◌, ◌%◌, ltb, ◌==◌, leb, String, Bool, true, false, not, ◌&&◌, List,
  [], ◌∷◌, ◌++◌, map, Option, none, some, ◌⊎◌, inl, inr, length, take, drop, str_eq, if◌then◌else◌,
}
use nowhere_agent.Base.Int.{ℤ, is_positive, clamp, minus, ◌+ℤ◌}
use nowhere_agent.Provider.{Block, BlockType, Message, Usage, text_block, word, add_usage}
use nowhere_agent.Context.Rounds.{
  drop_oldest_round, drop_oldest_round_preserving_summary, leads_with_summary,
}
use nowhere_agent.Context.Compress.{advance, invalidate}
use nowhere_agent.Agent.Types.{
  Surroundings, RunState, Failure, Attempt, replied, failed, HookResult, fine, logged, Hook,
  ModelHandler, ModelMiddleware, ToolMiddleware, ToolResult, kind_usage,
}
use nowhere_agent.Agent.Emit.{send}

-- `CircuitBreaker`, by its count.
unfoldable pub tripped : ℕ → ℤ → Bool
tripped failures max = if is_positive max then leb (clamp max) failures else true

unfoldable pub record_outcome : ℕ → Bool → ℕ
record_outcome failures went_wrong = if went_wrong then suc failures else 0

-- What `OverflowMW` drops from a view.
unfoldable pub shrink_view : List Message → Option (List Message)
shrink_view view =
    let (kept, preserved) = drop_oldest_round_preserving_summary view in
    let (shrunk, ok) = if preserved then (kept, true) else drop_oldest_round view in
    if ok then some shrunk else none

-- How `OverflowMW` keeps the run's state aligned with what is sent.
unfoldable pub align : List Message → List Message → RunState → RunState
align view shrunk s =
    let n = minus (length view) (length shrunk) in
    elim s.compress_cache [
      | none ↦ record s { view_dropped = s.view_dropped +ℤ n }
      | some cache ↦
          if ltb 0 cache.covered && leads_with_summary view
          then (if leads_with_summary shrunk
              then (if is_positive n
                  then record s {
                    compress_cache = advance (some cache) (take (clamp n) (drop 1 view));
                  }
                  else s)
              else record s { compress_cache = some (invalidate cache) })
          else s
    ]

module _ (is_context_overflow : Failure → Bool) (next : ModelHandler) where
  -- The loop, with `left` retries to go.
  unfoldable pub retry : ℕ → List Message → RunState → Attempt → RunState × Attempt
  retry zero view s answer = (s, answer)
  retry (suc left) view s answer = elim answer [
    | replied r ↦ (s, replied r)
    | failed f ↦ elim (is_context_overflow f && not f.mid_stream) [
      | false ↦ (s, failed f)
      | true ↦ elim (shrink_view view) [
        | none ↦ (s, failed f)
        | some shrunk ↦
            let (s', again) = next (align view shrunk s) shrunk in retry left shrunk s' again
      ]
    ]
  ]

abbrev pub retries : ℤ → ℕ
retries max_retries = if is_positive max_retries then clamp max_retries else 3

unfoldable pub overflow_mw : (Failure → Bool) → ℤ → ModelMiddleware
overflow_mw is_context_overflow max_retries = record {
  name = "overflow";
  wrap = λ next s view.
      let (s', answer) = next s view in
      let (s'', last) = retry is_context_overflow next (retries max_retries) view s' answer in
      (s'', inl last);
}

-- `MemoryInjectMW`; an injector that is given returns messages or an error, which is logged.
unfoldable pub memory_inject_mw : Option (List Message → List Message ⊎ String) → Hook
memory_inject_mw injector s = elim injector [
  | none ↦ (s, fine)
  | some inject ↦ elim (inject s.view) [
    | inr e ↦ (s, fine)
    | inl extra ↦ (record s { view = s.view ++ extra }, fine)
  ]
]

abbrev pub is_image : Block → Bool
is_image b = elim b.type [ BlockType.image ↦ true | _ ↦ false ]

-- The hint that stands for an image.
abbrev pub image_hint : Block → Block
image_hint b =
    if is_image b
    then text_block (append "[已附加图片: " (append b.image_path " — 如需查看图片内容,请调用 view_image 工具传入此路径]"))
    else b

abbrev pub hide_in : Message → Message
hide_in m = record m { content = map image_hint m.content }

abbrev pub hide_images : List Message → List Message
hide_images = map hide_in

-- `VisionGateMW`, by whether the model is known to take images.
unfoldable pub vision_gate_mw : String → Bool → ModelMiddleware
vision_gate_mw provider_name takes_images = record {
  name = "vision-gate";
  wrap = λ next s view.
      let shown =
        if str_eq provider_name "" then view else if takes_images then view else hide_images view in
      let (s', answer) = next s shown in (s', inl answer);
}

abbrev pub is_zero : Usage → Bool
is_zero u =
    (u.input == 0)
    && (u.output == 0)
    && (u.cache_read == 0)
    && (u.cache_write == 0)
    && (u.reasoning == 0)

-- The usage of a run, with that of its descendants where it is the root of a tree.
abbrev pub total_usage : Usage → Option Usage → Usage
total_usage u none = u
total_usage u (some c) = record (add_usage u c) { reasoning = (u.reasoning + c.reasoning) % word }

-- `UsageMW`
unfoldable pub usage_mw : Surroundings → Option Usage → Hook
usage_mw env descendants s =
    let total = total_usage s.usage descendants in
    if is_zero total then (s, fine) else (send env (kind_usage total) s, fine)

-- `RedactMW`, by what its redactor makes of a text and of nested messages.
unfoldable pub redact_mw : Option ((String → String) × (String → String)) → ToolMiddleware
redact_mw redactor = record {
  name = "redact";
  wrap = λ next c.
      let res = next c in
      inl (elim redactor [
        | none ↦ res
        | some (redact, redact_nested) ↦ record res {
          content = if str_eq res.content "" then "" else redact res.content;
          nested = elim res.nested [ none ↦ none | some blocks ↦ some (redact_nested blocks) ];
        }
      ]);
}
