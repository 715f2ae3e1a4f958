-- ===== src/Context/Compress.antt =====
-- Compression of a history, internal/contextmgmt/compress.go. Floating-point numbers and the
-- summarizer are parameters; the cache is a pointer, so an option, and comes back with the result.

pub mod Shrink
pub mod Views
pub mod Coverage
use Prim.Native.String.{◌++◌ as append}
use nowhere_agent.Base.{
  ℕ, zero, suc, ◌+◌, ◌-◌, String, Bool, true, false, not, ◌&&◌, List, [], ◌∷◌, Option, none, some,
  length, take, drop, get_elem?, ltb, leb, ◌==◌, if◌then◌else◌,
}
use nowhere_agent.Base.Int.{ℤ, pos, negsuc, is_positive, clamp, above, at_most}
use nowhere_agent.Provider.{Message, user, text_message, is_assistant}
use nowhere_agent.Context.Pairing.{ensure_pairing}
use nowhere_agent.Context.Rounds.{
  Round, group_rounds, summary_prefix, drop_oldest_round_preserving_summary,
  drop_oldest_keeping_summary,
}
use nowhere_agent.Context.Tokens.{estimate_tokens, content_bytes}

-- What the code takes from float64: the test `> 0`, and `int(float64(n) * x)`.
pub record Floats (F : Type 0) : Type 0 where
  pub positive : F → Bool
  pub scale : ℤ → F → ℤ

pub record Policy (F : Type 0) : Type 0 where
  pub max_tokens : ℤ
  pub threshold : F
  pub keep_recent : ℤ

pub record CompressionCache : Type 0 where
  pub covered : ℕ
  pub covered_bytes : ℕ
  pub summary : String

-- What a call of a fallible function comes to: a result, an error, a fault at run time, or no end
-- within the fuel.
pub data Outcome (A : Type 0) : Type 0 where
  ok : A → Outcome A
  err : String → Outcome A
  panic : Outcome A
  loops : Outcome A

unfoldable pub summary_message : String → Message
summary_message summary = text_message user (append summary_prefix summary)

unfoldable pub advance : Option CompressionCache → List Message → Option CompressionCache
advance none dropped = none
advance (some c) dropped =
    if c.covered == 0
    then some c
    else some (record c {
      covered = c.covered + length dropped;
      covered_bytes = c.covered_bytes + content_bytes dropped;
    })

unfoldable pub invalidate : CompressionCache → CompressionCache
invalidate c = record { covered = 0; covered_bytes = 0; summary = "" }

-- The cache covers `history[:n]`, whose fingerprint it takes.
unfoldable pub cover : Option CompressionCache → ℕ → List Message → Option CompressionCache
cover none n history = none
cover (some c) n history =
    some (record c { covered = n; covered_bytes = content_bytes (take n history) })

unfoldable pub remember : Option CompressionCache → String → Option CompressionCache
remember none summary = none
remember (some c) summary = some (record c { summary = summary })

-- Whether the cached summary can stand for the start of the history, up to `split` at most.
unfoldable pub valid_for : CompressionCache → ℕ → List Message → Bool
valid_for c split history =
    ltb 0 c.covered
    && leb c.covered split
    && c.covered_bytes == content_bytes (take c.covered history)

-- Coverage after the loop: it moves past the messages that were dropped.
unfoldable pub settle_cache :
    Option CompressionCache → ℕ → ℕ → List Message → List Message → Option CompressionCache
settle_cache cache split built out history =
    if ltb (length out) built && leb (split + (built - length out)) (length history)
    then cover cache (split + (built - length out)) history
    else cache

-- The view of a cache hit: the cached summary, and all that was appended since.
abbrev pub candidate : CompressionCache → List Message → List Message
candidate c history = ensure_pairing (summary_message c.summary ∷ drop c.covered history)

-- What the summarizer is given; `none` where the cached summary is kept.
unfoldable pub to_summarize : Option CompressionCache → ℕ → List Message → Option (List Message)
to_summarize none split history = some (take split history)
to_summarize (some c) split history =
    if valid_for c split history
    then (if c.covered == split
        then none
        else some (summary_message c.summary ∷ take (split - c.covered) (drop c.covered history)))
    else some (take split history)

abbrev pub cached_summary : Option CompressionCache → String
cached_summary none = ""
cached_summary (some c) = c.summary

module _ {F : Type 0} (fl : Floats F) where
  unfoldable pub should_compress : List Message → Policy F → Bool
  should_compress history p =
      is_positive p.max_tokens
      && fl.positive p.threshold
      && above (estimate_tokens history) (fl.scale p.max_tokens p.threshold)

  -- One round of the loop of `shrinkToBudget`: the shorter view, or `none` where the loop ends.
  unfoldable pub shrink_step : Policy F → List Message → Option (List Message)
  shrink_step p out =
      if should_compress out p
      then (let (shrunk, done) = drop_oldest_round_preserving_summary out in
          if done
          then some shrunk
          else (let (last, done') = drop_oldest_keeping_summary out in
              if done' then some last else none))
      else none

  -- The loop. The outer fuel is spent where the inner one has run out; `none` is the lack of both.
  unfoldable pub shrink_loop : Policy F → ℕ → ℕ → List Message → Option (List Message)
  shrink_loop p zero zero out = none
  shrink_loop p (suc a) zero out = elim (shrink_step p out) [
    | none ↦ some out
    | some next ↦ shrink_loop p a (suc (length next)) next
  ]
  shrink_loop p a (suc k) out = elim (shrink_step p out) [
    | none ↦ some out
    | some next ↦ shrink_loop p a k next
  ]

  unfoldable pub shrink_to_budget :
      Policy F
      → List Message
      → List Message
      → ℕ
      → Option CompressionCache
      → Option (List Message × Option CompressionCache)
  shrink_to_budget p out history split cache =
      elim (shrink_loop p (length out) (suc (length out)) out) [
        | none ↦ none
        | some shrunk ↦ some (shrunk, settle_cache cache split (length out) shrunk history)
      ]

  -- Whether the cached summary is reused without a new compression.
  unfoldable pub reuse :
      Policy F → Option CompressionCache → ℕ → List Message → Option (List Message)
  reuse p none split history = none
  reuse p (some c) split history =
      if valid_for c split history && at_most (estimate_tokens (candidate c history)) p.max_tokens
      then some (candidate c history)
      else none

  -- The summarizer's answer is a summary or an error.
  module _ (summarize : List Message → Outcome String) where
    unfoldable pub new_summary : Option CompressionCache → ℕ → List Message → Outcome String
    new_summary cache split history = elim (to_summarize cache split history) [
      | none ↦ ok (cached_summary cache)
      | some dropped ↦ summarize dropped
    ]

    -- From the point where the index `split` of the first kept message is known.
    unfoldable pub compress_at :
        Policy F
        → List Message
        → ℕ
        → Option CompressionCache
        → Outcome (List Message) × Option CompressionCache
    compress_at p history split cache = elim (reuse p cache split history) [
      | some view ↦ (ok view, cache)
      | none ↦ elim (new_summary cache split history) [
        | ok summary ↦
            let cache' = remember (cover cache split history) summary in
            let out = ensure_pairing (summary_message summary ∷ drop split history) in
            elim (shrink_to_budget p out history split cache') [
              | some (view, cache'') ↦ (ok view, cache'')
              | none ↦ (loops, cache')
            ]
        | err e ↦ (err e, cache)
        | panic ↦ (panic, cache)
        | loops ↦ (loops, cache)
      ]
    ]

    unfoldable pub compress_with_cache :
        List Message
        → Policy F
        → Option CompressionCache
        → Outcome (List Message) × Option CompressionCache
    compress_with_cache history p cache =
        let keep = clamp p.keep_recent in
        let rounds = group_rounds history in
        if should_compress history p
        then (if leb (length rounds) keep
            then (ok history, cache)
            else elim (get_elem? rounds (length rounds - keep)) [
              | none ↦ (panic, cache)
              | some r ↦ compress_at p history (if keep == 0 then length history else r.start) cache
            ])
        else (ok history, cache)

    unfoldable pub compress : List Message → Policy F → Outcome (List Message)
    compress history p = (compress_with_cache history p none).0
