-- ===== src/Context/Compress/Shrink.antt =====
-- The loop of `shrinkToBudget` (internal/contextmgmt/compress.go) ends, and where it ends.
use nowhere_agent.Base.{
  ℕ, zero, suc, ◌≤◌, ◌<◌, ◌≡◌, refl, List, none, some, arith, length, inl, inr, Option-cases,
}
use nowhere_agent.Provider.{Message}
use nowhere_agent.Context.Pairing.Measure.{
  assistants, leading, Smaller, assistants-le-length, leading-le-length,
}
use nowhere_agent.Context.Rounds.Drops.{keeping_summary-Smaller, preserving_summary-Smaller}
use nowhere_agent.Context.Compress.{Floats, Policy, shrink_step, shrink_loop}

module _ {F : Type 0} (fl : Floats F) (p : Policy F) where
  shrink_step-Smaller :
      (out next : List Message) → shrink_step fl p out ≡ some next → Smaller next out
  unfolding shrink_step
  shrink_step-Smaller out next h =
      ground (arith, preserving_summary-Smaller out, keeping_summary-Smaller out)

  -- Enough fuel: the outer bounds the assistant messages, and where it is just that the inner
  -- bounds the messages before the first of them.
  abbrev Fuels : ℕ → ℕ → List Message → Type 0
  Fuels a k out = (assistants out ≤ a) × ((assistants out ≡ a → leading out < k))

  shrink_loop-ends :
      (a k : ℕ) (out : List Message)
      → Fuels a k out
      → (view : List Message) × (shrink_loop fl p a k out ≡ some view)
        × (shrink_step fl p view ≡ none)
  unfolding shrink_loop
  shrink_loop-ends zero zero out f = absurd (omega (arith, f.1 (omega (arith, f.0))))
  shrink_loop-ends (suc a) zero out f = elim (Option-cases (shrink_step fl p out)) [
    | inl stop ↦ (out, rw (stop, shrink_loop), stop)
    | inr (next, go) ↦
        let less = shrink_step-Smaller out next go in
        let (view, e, stop) =
          shrink_loop-ends a (suc (length next)) next
            (ground (arith, less, f.1), λ _. omega (arith, leading-le-length next)) in
        (view, rw (go, shrink_loop) e, stop)
  ]
  shrink_loop-ends a (suc k) out f = elim (Option-cases (shrink_step fl p out)) [
    | inl stop ↦ (out, rw (stop, shrink_loop) refl, stop)
    | inr (next, go) ↦
        let less = shrink_step-Smaller out next go in
        let (view, e, stop) =
          shrink_loop-ends a k next
            (ground (arith, less, f.0), λ q. ground (arith, less, f.0, f.1)) in
        (view, rw (go, shrink_loop) e, stop)
  ]

  pub shrink_loop_total :
      (out : List Message)
      → (view : List Message) × (shrink_loop fl p (length out) (suc (length out)) out ≡ some view)
        × (shrink_step fl p view ≡ none)
  shrink_loop_total out =
      shrink_loop-ends (length out) (suc (length out)) out
        (assistants-le-length out, λ _. omega (arith, leading-le-length out))
