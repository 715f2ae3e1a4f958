-- ===== src/Agent/Builtin/Keeping.antt =====
-- The built-in middlewares of internal/agent/middleware.go keep every invariant of the loop.
use nowhere_agent.Base.{
  ℕ, zero, suc, ◌≡◌, refl, String, Bool, false, not, ◌&&◌, List, [], Option, none, some, ◌⊎◌, inl,
  inr, arith, Bool-cases, Option-cases, Sum-cases, both_branches,
}
use nowhere_agent.Base.Int.{ℤ}
use nowhere_agent.Provider.{Message, Usage}
use nowhere_agent.Agent.Types.{
  Surroundings, RunState, HookResult, Failure, Attempt, replied, failed, ModelHandler, kind_usage,
}
use nowhere_agent.Agent.Builtin.{
  shrink_view, align, retry, retries, overflow_mw, memory_inject_mw, vision_gate_mw, usage_mw,
  total_usage, is_zero,
}
use nowhere_agent.Agent.Loop.Invariant.{Steady, Keeps}
use nowhere_agent.Agent.Loop.Handlers.{Replies, SoundHandler, SoundMiddleware}

unchanged-align :
    (view shrunk : List Message) (s : RunState)
    → ((align view shrunk s).produced ≡ s.produced) × ((align view shrunk s).frames ≡ s.frames)
unfolding align
unchanged-align view shrunk s = (ground arith, ground arith)

module _ (K : List String → RunState → Type 0) (env : Surroundings) (steady : Steady K env) where
  retry-Sound :
      (is_context_overflow : Failure → Bool) (next : ModelHandler)
      → SoundHandler K next
      → (left : ℕ) (view : List Message) (s : RunState) (answer : Attempt) → K [] s
      → Replies answer
      → let r = retry is_context_overflow next left view s answer in K [] r.0 × Replies r.1
  unfolding retry
  retry-Sound over next h zero view s answer k w = (k, w)
  retry-Sound over next h (suc left) view s (replied r) k w = (k, w)
  retry-Sound over next h (suc left) view s (failed f) k w =
      elim (Bool-cases (over f && not f.mid_stream)) [
        | inr e ↦ rw (retry, e) (k, tt)
        | inl e ↦ elim (Option-cases (shrink_view view)) [
          | inl d ↦ rw (retry, e, d) (k, tt)
          | inr (shrunk, d) ↦
              let u = unchanged-align view shrunk s in
              let k' = steady.noting [] s (align view shrunk s) u.0 u.1 k in
              let n = h (align view shrunk s) shrunk k' in
              rw (retry, e, d) (retry-Sound over next h left shrunk _ _ n.0 n.1)
        ]
      ]

  pub overflow_mw-Sound :
      (is_context_overflow : Failure → Bool) (max_retries : ℤ)
      → SoundMiddleware K (overflow_mw is_context_overflow max_retries)
  unfolding overflow_mw
  overflow_mw-Sound over max_retries next h s view k =
      let n = h s view k in
      retry-Sound over next h (retries max_retries) view (next s view).0 (next s view).1 n.0 n.1

  pub vision_gate_mw-Sound :
      (provider_name : String) (takes_images : Bool)
      → SoundMiddleware K (vision_gate_mw provider_name takes_images)
  unfolding vision_gate_mw
  vision_gate_mw-Sound provider_name takes_images next h s view k = h s _ k

  pub memory_inject_mw-Keeps :
      (injector : Option (List Message → List Message ⊎ String))
      → Keeps K (memory_inject_mw injector)
  unfolding memory_inject_mw
  memory_inject_mw-Keeps none owed s k = k
  memory_inject_mw-Keeps (some inject) owed s k = elim (Sum-cases (inject s.view)) [
    | inr (e, p) ↦ rw (memory_inject_mw, p) k
    | inl (extra, p) ↦ rw (memory_inject_mw, p) (steady.noting owed s _ refl refl k)
  ]

  pub usage_mw-Keeps : (descendants : Option Usage) → Keeps K (usage_mw env descendants)
  unfolding usage_mw
  usage_mw-Keeps descendants owed s k =
      let total = total_usage s.usage descendants in
      both_branches (λ (r : RunState × HookResult). K owed r.0) (is_zero total) k
        (steady.emitting owed false (kind_usage total) s refl k)
