-- ===== src/Context/Compress/Views.antt =====
-- The views that `CompressWithCache` (internal/contextmgmt/compress.go) hands to the model.
use nowhere_agent.Base.{
  ℕ, zero, suc, ◌-◌, ◌≤◌, ◌<◌, ◌≡◌, String, true, false, List, [], ◌∷◌, Option, none, some, arith,
  length, drop, get_elem?-length, get_elem?-some, if◌then◌else◌, ◌==◌, ◌⊎◌, inl, inr, Bool-cases,
  Option-cases, subst, sym,
}
use nowhere_agent.Base.Int.{clamp, at_most}
use nowhere_agent.Provider.{Message}
use nowhere_agent.Context.Pairing.{ensure_pairing}
use nowhere_agent.Context.Pairing.Contract.{Contract}
use nowhere_agent.Context.Pairing.Repair.{ensure_pairing-Contract}
use nowhere_agent.Context.Rounds.{
  Round, group_rounds, leads_with_summary, drop_oldest_round_preserving_summary,
  drop_oldest_keeping_summary,
}
use nowhere_agent.Context.Rounds.Partition.{group_rounds-Covers, Covers}
use nowhere_agent.Context.Rounds.Summary.{
  keeping_summary_repaired, preserving_summary_repaired, drops_refused, ensure_pairing-leads,
  keeping_summary-leads, preserving_summary-leads, summary_message-is_summary,
}
use nowhere_agent.Context.Tokens.{estimate_tokens}
use nowhere_agent.Context.Compress.Shrink.{shrink_loop_total}
use nowhere_agent.Context.Compress.{
  Floats, Policy, CompressionCache, Outcome, ok, panic, summary_message, should_compress,
  shrink_step, shrink_loop, shrink_to_budget, reuse, new_summary, compress_at, compress_with_cache,
  cover, remember, settle_cache, to_summarize, cached_summary,
}

some_round : (rs : List Round) (n : ℕ) → 0 < n → Covers 0 rs n → 1 ≤ length rs
some_round [] n h c = absurd (omega (arith, c))
some_round (r ∷ rs) n h c = omega arith

-- A repaired view that begins with the summary.
pub record IsView (view : List Message) : Type 0 where
  pub contract : Contract view
  pub led : leads_with_summary view ≡ true

ensure_pairing-IsView :
    (s : String) (ms : List Message) → IsView (ensure_pairing (summary_message s ∷ ms))
unfolding summary_message
ensure_pairing-IsView s ms = record {
  contract = ensure_pairing-Contract (summary_message s ∷ ms);
  led = ensure_pairing-leads (summary_message s) ms (summary_message-is_summary s);
}

module _ {F : Type 0} (fl : Floats F) (p : Policy F) where
  -- A view is within the threshold or within the whole budget, or it has one round only.
  abbrev pub Fits : List Message → Type 0
  Fits view =
      (should_compress fl view p ≡ false)
      ⊎ (at_most (estimate_tokens view) p.max_tokens ≡ true)
      ⊎ (length (group_rounds view) ≤ 1)

  shrink_step-IsView :
      (out next : List Message) → IsView out → shrink_step fl p out ≡ some next → IsView next
  unfolding shrink_step
  shrink_step-IsView out next v h = elim (Bool-cases (drop_oldest_round_preserving_summary out).1) [
    | inl e ↦
        let (xs, q) = preserving_summary_repaired out e in
        let same : next ≡ (drop_oldest_round_preserving_summary out).0 = ground arith in
        record {
          contract = subst Contract (sym (ground arith)) (ensure_pairing-Contract xs);
          led = rw same (preserving_summary-leads out v.led e);
        }
    | inr e ↦
        let done : (drop_oldest_keeping_summary out).1 ≡ true = ground arith in
        let same : next ≡ (drop_oldest_keeping_summary out).0 = ground arith in
        let (xs, q) = keeping_summary_repaired out done in
        record {
          contract = subst Contract (sym (ground arith)) (ensure_pairing-Contract xs);
          led = rw same (keeping_summary-leads out v.led done);
        }
  ]

  shrink_step-Fits : (view : List Message) → shrink_step fl p view ≡ none → Fits view
  unfolding shrink_step
  shrink_step-Fits view h = ground (arith, drops_refused view)

  shrink_loop-IsView :
      (a k : ℕ) (out : List Message) {view : List Message}
      → IsView out
      → shrink_loop fl p a k out ≡ some view
      → IsView view
  unfolding shrink_loop
  shrink_loop-IsView zero zero out v h = cc
  shrink_loop-IsView (suc a) zero out {view} v h = elim (Option-cases (shrink_step fl p out)) [
    | inl stop ↦ subst IsView (ground arith) v
    | inr (next, go) ↦
        shrink_loop-IsView a (suc (length next)) next (shrink_step-IsView out next v go)
          (ground arith)
  ]
  shrink_loop-IsView a (suc k) out v h = elim (Option-cases (shrink_step fl p out)) [
    | inl stop ↦ subst IsView (ground arith) v
    | inr (next, go) ↦ shrink_loop-IsView a k next (shrink_step-IsView out next v go) (ground arith)
  ]

  reuse-IsView :
      (cache : Option CompressionCache) (split : ℕ) (history : List Message) {view : List Message}
      → reuse fl p cache split history ≡ some view
      → IsView view × Fits view
  unfolding reuse
  reuse-IsView none split history h = absurd (ground arith)
  reuse-IsView (some c) split history h = (
    subst IsView (ground arith) (ensure_pairing-IsView c.summary (drop c.covered history)),
    inr (inl (ground arith)),
  )

  module _ (summarize : List Message → Outcome String)
      (answers : (ms : List Message) → (s : String) × (summarize ms ≡ ok s)) where
    new_summary-ok :
        (cache : Option CompressionCache) (split : ℕ) (history : List Message)
        → (s : String) × (new_summary fl summarize cache split history ≡ ok s)
    unfolding new_summary
    new_summary-ok cache split history = elim (Option-cases (to_summarize cache split history)) [
      | inl e ↦ (cached_summary cache, ground arith)
      | inr (dropped, e) ↦ let (s, e') = answers dropped in (s, ground arith)
    ]

    compress_at-ok :
        (history : List Message) (split : ℕ) (cache : Option CompressionCache)
        → (view : List Message) × (cache' : Option CompressionCache) × (compress_at fl summarize p
              history split cache
            ≡ (ok view, cache'))
          × IsView view
          × Fits view
    unfolding compress_at shrink_to_budget
    compress_at-ok history split cache = elim (Option-cases (reuse fl p cache split history)) [
      | inr (view, e) ↦
          let (v, f) = reuse-IsView cache split history e in (view, cache, ground arith, v, f)
      | inl e ↦
          let (s, e') = new_summary-ok cache split history in
          let out = ensure_pairing (summary_message s ∷ drop split history) in
          let (view, loop, stop) = shrink_loop_total fl p out in
          let cache' = remember (cover cache split history) s in
          (
            view,
            settle_cache cache' split (length out) view history,
            ground arith,
            shrink_loop-IsView (length out) (suc (length out)) out
                (ensure_pairing-IsView s (drop split history)) loop,
            shrink_step-Fits view stop,
          )
    ]

    -- With at least one round to keep and a summarizer that answers, compression of a history that
    -- is over the threshold and has more rounds than are kept returns a view: it begins with the
    -- summary and meets the provider's contract, and it is within the threshold or the budget
    -- unless it has a single round left. The loop that shrinks the view ends.
    pub compress_with_cache-IsView :
        (history : List Message) (cache : Option CompressionCache)
        → 1 ≤ clamp p.keep_recent
        → should_compress fl history p ≡ true
        → clamp p.keep_recent < length (group_rounds history)
        → (view : List Message) × (cache' : Option CompressionCache) × (compress_with_cache fl
              summarize history p cache
            ≡ (ok view, cache'))
          × IsView view
          × Fits view
    unfolding compress_with_cache
    compress_with_cache-IsView history cache h over k =
        let rounds = group_rounds history in
        let (r, e) = get_elem?-some rounds (length rounds - clamp p.keep_recent) (omega arith) in
        let split = if clamp p.keep_recent == 0 then length history else r.start in
        let (view, cache', e', v, f) = compress_at-ok history split cache in
        (view, cache', ground arith, v, f)

-- With no round to keep, as `KeepRecent` at 0 or below asks for, compression of a history that is
-- over the threshold is a fault: the code indexes the list of rounds with its length.
pub compress_with_cache-panic :
    {F : Type 0} (fl : Floats F) (p : Policy F) (summarize : List Message → Outcome String)
    (m : Message) (ms : List Message) (cache : Option CompressionCache)
    → clamp p.keep_recent ≡ 0
    → should_compress fl (m ∷ ms) p ≡ true
    → compress_with_cache fl summarize (m ∷ ms) p cache ≡ (panic, cache)
unfolding compress_with_cache
compress_with_cache-panic fl p summarize m ms cache none_kept over =
    let rounds = group_rounds (m ∷ ms) in
    ground (
      arith,
      some_round rounds (length (m ∷ ms)) (omega arith) (group_rounds-Covers (m ∷ ms)),
      get_elem?-length rounds,
    )
