-- ===== src/Context/Compress/Coverage.antt =====
-- The cache of internal/contextmgmt/compress.go stays in line with the history it covers.
use native.Mathlib.Nat.{zero-add, suc-add}
use nowhere_agent.Base.{
  ℕ, zero, suc, ◌+◌, ◌-◌, ◌≤◌, ◌≡◌, refl, String, List, [], ◌∷◌, ◌++◌, Option, none, some, arith,
  length, drop, take, get_elem?, ◌⊎◌, inl, inr, Option-cases, Bool-cases, ltb, leb, ◌&&◌, subst,
  not, if◌then◌else◌, ◌==◌, sym, ap, length-append, length-drop,
}
use nowhere_agent.Base.Int.{clamp}
use nowhere_agent.Provider.{Message}
use nowhere_agent.Context.Pairing.{ensure_pairing}
use nowhere_agent.Context.Rounds.{Round, group_rounds}
use nowhere_agent.Context.Rounds.Partition.{group_rounds-Covers, Covers}
use nowhere_agent.Context.Tokens.{content_bytes, content_bytes-append}
use nowhere_agent.Context.Compress.Shrink.{shrink_loop_total}
use nowhere_agent.Context.Compress.{
  Floats, Policy, CompressionCache, Outcome, ok, err, panic, loops, summary_message,
  should_compress, shrink_to_budget, reuse, new_summary, compress_at, compress_with_cache, cover,
  remember, settle_cache, advance,
}

-- The fingerprint is that of the covered part.
abbrev pub Coherent : Option CompressionCache → List Message → Type 0
Coherent none history = Unit
Coherent (some c) history =
    (c.covered ≤ length history) × (c.covered_bytes ≡ content_bytes (take c.covered history))

abbrev pub covered_by : Option CompressionCache → ℕ
covered_by none = 0
covered_by (some c) = c.covered

take-append : (n : ℕ) (xs ys : List Message) → n ≤ length xs → take n (xs ++ ys) ≡ take n xs
take-append zero xs ys h = refl
take-append (suc n) [] ys h = absurd (omega arith)
take-append (suc n) (x ∷ xs) ys h = ap (◌∷◌ x) (take-append n xs ys (omega arith))

take_none : (k : ℕ) → take {A = Message} k [] ≡ []
take_none zero = refl
take_none (suc k) = refl

take_add : (n k : ℕ) (xs : List Message) → take (n + k) xs ≡ take n xs ++ take k (drop n xs)
take_add zero k xs = ap (λ n. take n xs) (zero-add k)
take_add (suc n) k [] = rw suc-add (sym (take_none k))
take_add (suc n) k (x ∷ xs) = rw suc-add (ap (◌∷◌ x) (take_add n k xs))

take_taken : (k : ℕ) (xs : List Message) → take (length (take k xs)) xs ≡ take k xs
take_taken zero xs = refl
take_taken (suc k) [] = refl
take_taken (suc k) (x ∷ xs) = ap (◌∷◌ x) (take_taken k xs)

length-take-le : (k : ℕ) (xs : List Message) → length (take k xs) ≤ length xs
length-take-le zero xs = omega arith
length-take-le (suc k) [] = omega arith
length-take-le (suc k) (x ∷ xs) = omega (arith, length-take-le k xs)

Coherent-append :
    (cache : Option CompressionCache) (history more : List Message)
    → Coherent cache history
    → Coherent cache (history ++ more)
Coherent-append none history more h = tt
Coherent-append (some c) history more h = (
  omega (arith, h.0, length-append history more),
  ground (arith, h, take-append c.covered history more),
)

Coherent-cover :
    (cache : Option CompressionCache) (n : ℕ) (history : List Message)
    → n ≤ length history
    → Coherent (cover cache n history) history
unfolding cover
Coherent-cover none n history h = tt
Coherent-cover (some c) n history h = (h, refl)

Coherent-remember :
    (cache : Option CompressionCache) (s : String) (history : List Message)
    → Coherent cache history
    → Coherent (remember cache s) history
unfolding remember
Coherent-remember none s history h = tt
Coherent-remember (some c) s history h = h

settle_cache-Coherent :
    (cache : Option CompressionCache) (split built : ℕ) (out history : List Message)
    → Coherent cache history
    → Coherent (settle_cache cache split built out history) history
unfolding settle_cache
settle_cache-Coherent cache split built out history h =
    let n = split + (built - length out) in
    elim (Bool-cases (ltb (length out) built && leb n (length history))) [
      | inl e ↦ rw (e, settle_cache) (Coherent-cover cache n history (ground arith))
      | inr e ↦ rw (e, settle_cache) h
    ]

Covers-le : (i n : ℕ) (rs : List Round) → Covers i rs n → i ≤ n
Covers-le i n [] c = omega arith
Covers-le i n (r ∷ rs) c = omega (arith, Covers-le r.end n rs c.2)

start-le :
    (i n j : ℕ) (rs : List Round) (r : Round)
    → Covers i rs n
    → get_elem? rs j ≡ some r
    → r.start ≤ n
start-le i n j [] r c h = cc
start-le i n zero (x ∷ rs) r c h = ground (arith, Covers-le i n (x ∷ rs) c)
start-le i n (suc j) (x ∷ rs) r c h = start-le x.end n j rs r c.2 h

module _ {F : Type 0} (fl : Floats F) (p : Policy F) (summarize : List Message → Outcome String)
    (history : List Message) (cache : Option CompressionCache) (h : Coherent cache history) where
  -- The cache after a call: as it was, or that of the new summary, moved on past what was dropped.
  compress_at-cases :
      (split : ℕ) (o : Outcome String)
      → new_summary fl summarize cache split history ≡ o
      → ((compress_at fl summarize p history split cache).1 ≡ cache)
        ⊎ ((s : String) × (built : ℕ) × (view : List Message) × ((compress_at fl summarize p history
                split cache).1
              ≡ settle_cache (remember (cover cache split history) s) split built view history))
  unfolding compress_at shrink_to_budget
  compress_at-cases split (ok s) e = elim (Option-cases (reuse fl p cache split history)) [
    | inr (view, hit) ↦ inl (ground arith)
    | inl miss ↦
        let out = ensure_pairing (summary_message s ∷ drop split history) in
        let (view, loop, _) = shrink_loop_total fl p out in inr (s, length out, view, ground arith)
  ]
  compress_at-cases split (err x) e = inl (ground arith)
  compress_at-cases split panic e = inl (ground arith)
  compress_at-cases split loops e = inl (ground arith)

  compress_at-Coherent :
      (split : ℕ)
      → split ≤ length history
      → Coherent (compress_at fl summarize p history split cache).1 history
  compress_at-Coherent split k = elim (compress_at-cases split _ refl) [
    | inl e ↦ subst (λ c. Coherent c history) (sym e) h
    | inr (s, built, view, e) ↦
        subst (λ c. Coherent c history) (sym e)
          (settle_cache-Coherent _ split built view history
            (Coherent-remember _ s history (Coherent-cover cache split history k)))
  ]

  -- The split is at the start of a round, or at the end of the history.
  compress_with_cache_split :
      ((compress_with_cache fl summarize history p cache).1 ≡ cache)
      ⊎ ((split : ℕ) × (split ≤ length history)
          × ((compress_with_cache fl summarize history p cache).1
              ≡ (compress_at fl summarize p history split cache).1))
  unfolding compress_with_cache
  compress_with_cache_split =
      let rounds = group_rounds history in
      elim (Option-cases (get_elem? rounds (length rounds - clamp p.keep_recent))) [
        | inl e ↦ inl (ground arith)
        | inr (r, e) ↦
            let least = start-le 0 (length history) _ rounds r (group_rounds-Covers history) e in
            elim (Bool-cases
              (should_compress fl history p && not (leb (length rounds) (clamp p.keep_recent)))) [
                | inl over ↦ inr (
                  if clamp p.keep_recent == 0 then length history else r.start,
                  ground arith,
                  ground arith,
                )
                | inr under ↦ inl (ground arith)
              ]
      ]

-- Compression keeps the cache in line with the history, also for the calls that follow: if the
-- fingerprint was that of the covered start of the history, it is so after the call, whether the
-- call returns a view or an error, and however the history is continued.
pub compress_with_cache-Coherent :
    {F : Type 0} (fl : Floats F) (p : Policy F) (summarize : List Message → Outcome String)
    (history more : List Message) (cache : Option CompressionCache)
    → Coherent cache history
    → Coherent (compress_with_cache fl summarize history p cache).1 (history ++ more)
compress_with_cache-Coherent fl p summarize history more cache h =
    Coherent-append _ history more
      (elim (compress_with_cache_split fl p summarize history cache h) [
        | inl e ↦ subst (λ c. Coherent c history) (sym e) h
        | inr (split, k, e) ↦
            subst (λ c. Coherent c history) (sym e)
              (compress_at-Coherent fl p summarize history cache h split k)
      ])

-- The overflow fallback of the agent loop moves the coverage past the messages that it drops from
-- behind the summary: if these are the next `k` messages of the history, the cache stays in line.
advance-Coherent :
    (cache : Option CompressionCache) (history : List Message) (k : ℕ)
    → Coherent cache history
    → Coherent (advance cache (take k (drop (covered_by cache) history))) history
unfolding advance
advance-Coherent none history k h = tt
advance-Coherent (some c) history k h =
    let rest = drop c.covered history in
    let n = length (take k rest) in
    elim (Bool-cases (c.covered == 0)) [
      | inl e ↦ rw (e, advance) h
      | inr e ↦
          rw (e, advance)
            (
              omega (arith, h.0, length-take-le k rest, length-drop c.covered history),
              ground (
                arith,
                h.1,
                take_add c.covered n history,
                take_taken k rest,
                content_bytes-append (take c.covered history) (take k rest),
              ),
            )
    ]
