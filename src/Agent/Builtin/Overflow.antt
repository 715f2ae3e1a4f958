-- ===== src/Agent/Builtin/Overflow.antt =====
-- What the overflow fallback of internal/agent/middleware.go forgets.
use nowhere_agent.Base.{
  ℕ, zero, suc, ◌≡◌, refl, sym, ◌∙◌, Bool, not, ◌&&◌, List, some, inl, inr, arith, Bool-cases,
  Option-cases, subst,
}
use nowhere_agent.Base.Int.{ℤ}
use nowhere_agent.Provider.{Message}
use nowhere_agent.Context.Compress.{CompressionCache}
use nowhere_agent.Agent.Types.{RunState, Failure, Attempt, replied, failed, ModelHandler}
use nowhere_agent.Agent.Builtin.{shrink_view, align, retry, retries, overflow_mw}
use nowhere_agent.Agent.Loop.{working_view}

-- The parts of the state from which the next view is made, where the cache covers nothing.
record Uncovered (produced : List Message) (dropped : ℤ) (s : RunState) : Type 0 where
  cache : CompressionCache
  present : s.compress_cache ≡ some cache
  covers_nothing : cache.covered ≡ 0
  same_produced : s.produced ≡ produced
  same_dropped : s.view_dropped ≡ dropped

-- A handler leaves them as they are.
abbrev pub Leaves : ModelHandler → Type 0
Leaves h =
    (s : RunState) (msgs : List Message)
    → ((h s msgs).0.compress_cache ≡ s.compress_cache)
      × ((h s msgs).0.produced ≡ s.produced)
      × ((h s msgs).0.view_dropped ≡ s.view_dropped)

module _ (produced : List Message) (dropped : ℤ) where
  handler-Uncovered :
      (h : ModelHandler) (s : RunState) (msgs : List Message)
      → Leaves h
      → Uncovered produced dropped s
      → Uncovered produced dropped (h s msgs).0
  handler-Uncovered h s msgs l u = record {
    cache = u.cache;
    present = (l s msgs).0 ∙ u.present;
    covers_nothing = u.covers_nothing;
    same_produced = (l s msgs).1 ∙ u.same_produced;
    same_dropped = (l s msgs).2 ∙ u.same_dropped;
  }

  align-Uncovered :
      (view shrunk : List Message) (s : RunState)
      → Uncovered produced dropped s
      → align view shrunk s ≡ s
  unfolding align
  align-Uncovered view shrunk s u = ground (arith, u.present, u.covers_nothing)

  retry-Uncovered :
      (is_context_overflow : Failure → Bool) (next : ModelHandler)
      → Leaves next
      → (left : ℕ) (view : List Message) (s : RunState) (answer : Attempt)
      → Uncovered produced dropped s
      → Uncovered produced dropped (retry is_context_overflow next left view s answer).0
  unfolding retry
  retry-Uncovered over next l zero view s answer u = u
  retry-Uncovered over next l (suc left) view s (replied r) u = u
  retry-Uncovered over next l (suc left) view s (failed f) u =
      elim (Bool-cases (over f && not f.mid_stream)) [
        | inr e ↦ rw (retry, e) u
        | inl e ↦ elim (Option-cases (shrink_view view)) [
          | inl d ↦ rw (retry, e, d) u
          | inr (shrunk, d) ↦
              let u' : Uncovered produced dropped (align view shrunk s) =
                subst (Uncovered produced dropped) (sym (align-Uncovered view shrunk s u)) u in
              rw (retry, e, d)
                (retry-Uncovered over next l left shrunk _ _
                  (handler-Uncovered next (align view shrunk s) shrunk l u'))
        ]
      ]

same_view :
    (base : List Message) (s s' : RunState)
    → s.produced ≡ s'.produced
    → s.view_dropped ≡ s'.view_dropped
    → working_view base s ≡ working_view base s'
unfolding working_view
same_view base s s' p d = rw (working_view, p, d) refl

-- Where the compression cache of the run covers nothing yet, the fallback drops rounds without a
-- trace: however many rounds it drops from the view of an attempt, the working view of the next
-- iteration is the one that there would have been without the drops, if what the handlers inside it
-- do leaves the cache, the produced messages and the count of dropped ones alone.
pub working_view-overflow_mw :
    (is_context_overflow : Failure → Bool) (max_retries : ℤ) (next : ModelHandler) (s : RunState)
    (view base : List Message) (cache : CompressionCache)
    → Leaves next
    → s.compress_cache ≡ some cache
    → cache.covered ≡ 0
    → working_view base ((overflow_mw is_context_overflow max_retries).wrap next s view).0
      ≡ working_view base s
unfolding overflow_mw
working_view-overflow_mw over max_retries next s view base cache l p c =
    let u : Uncovered s.produced s.view_dropped s = record {
      cache = cache;
      present = p;
      covers_nothing = c;
      same_produced = refl;
      same_dropped = refl;
    } in
    let r =
      retry-Uncovered s.produced s.view_dropped over next l (retries max_retries) view
        (next s view).0 (next s view).1
        (handler-Uncovered s.produced s.view_dropped next s view l u) in
    same_view base _ s r.same_produced r.same_dropped
