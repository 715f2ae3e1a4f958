-- ===== src/RateLimit/Tests.antt =====
-- The theorems on the rate limiter for a token bucket.
use nowhere_agent.Base.{
  ℕ, ◌+◌, ◌-◌, ◌*◌, ◌≡◌, refl, ◌∙◌, arith, ltb, leb, Bool, true, false, List, [], ◌∷◌,
  if◌then◌else◌, both_branches,
}
use nowhere_agent.Base.Int.{ℤ, pos, clamp}
use nowhere_agent.Base.Dict.{lookup, insert, delete}
use nowhere_agent.RateLimit.{
  Rate, Bucket, RateLimiter, new_rate_limiter, set_rate, ten_minutes, enabled, middleware, sweep,
  allow, bucket_for, evict,
}
use nowhere_agent.RateLimit.Sweeps.{
  Op, op_request, op_sweep, answers, without_sweeps, Used, used_first, used_again, Refills,
  answers-without_sweeps,
}
use nowhere_agent.RateLimit.Retune.{run, Has, run-set_rate_lags}

abbrev second : ℕ
second = 1_000_000_000

-- A second is a token; a limit is a number of tokens in a second.
record Tokens : Type 0 where
  per_second : ℕ
  size : ℤ
  left : ℕ
  last : ℕ

abbrev min : ℕ → ℕ → ℕ
min a b = if leb a b then a else b

abbrev full : ℕ → Tokens → ℕ
full now l = min (clamp l.size * second) (l.left + (now - l.last) * l.per_second)

abbrev spend : ℕ → ℤ → ℕ → ℕ → Bool × Tokens
spend r b now n =
    if leb second n
    then (true, record { per_second = r; size = b; left = n - second; last = now })
    else (false, record { per_second = r; size = b; left = n; last = now })

abbrev bucket : Rate
bucket = record {
  Limit = ℕ;
  Limiter = Tokens;
  above_zero = ltb 0;
  new_limiter = λ r b. record { per_second = r; size = b; left = clamp b * second; last = 0 };
  set_limit = λ r l. record l { per_second = r };
  take_token = λ now l. spend l.per_second l.size now (full now l);
}

abbrev Facts : ℕ → ℤ → ℕ → Tokens → Type 0
Facts r b t l = (l.per_second ≡ r) × (l.size ≡ b) × (l.last ≡ t)

spend-Facts : (r : ℕ) (b : ℤ) (now n : ℕ) → Facts r b now (spend r b now n).1
spend-Facts r b now n =
    both_branches (λ (s : Bool × Tokens). Facts r b now s.1) (leb second n) (refl, refl, refl)
      (refl, refl, refl)

Used-Facts : (r : ℕ) (b : ℤ) (l : Tokens) (t : ℕ) → Used bucket r b l t → Facts r b t l
Used-Facts _ _ _ _ (used_first r b t) = spend-Facts r b t (full t (bucket.new_limiter r b))
Used-Facts _ _ _ _ (used_again r b l t u h) =
    let (f, g, _) = Used-Facts r b l t h in
    let (f', g', e) = spend-Facts l.per_second l.size u (full u l) in (f' ∙ f, g' ∙ g, e)

refills : Refills bucket 1 (pos 2) ten_minutes
refills l t now h late =
    let f = Used-Facts 1 (pos 2) l t h in
    let e : full now l ≡ 2 * second = rw (f.0, f.1, f.2) (ground (arith, late)) in
    let e' : full now (bucket.new_limiter 1 (pos 2)) ≡ 2 * second = ground arith in
    rw (e, e', f.0, f.1) refl

abbrev served : List (Op bucket)
served =
    op_request "a" 1
    ∷ op_request "a" 2
    ∷ op_request "a" 3
    ∷ op_sweep 4
    ∷ op_request "" 4
    ∷ op_sweep (ten_minutes + 60 * second)
    ∷ op_request "a" (ten_minutes + 90 * second)
    ∷ []

-- Two requests of the burst pass, the third has to wait, and after the eviction the key starts anew.
answers-without_sweeps_example :
    answers bucket served (new_rate_limiter bucket 1 (pos 2))
    ≡ answers bucket (without_sweeps bucket served) (new_rate_limiter bucket 1 (pos 2))
answers-without_sweeps_example = answers-without_sweeps bucket 1 (pos 2) served refills (
  (omega arith),
  (omega arith, (omega arith, (omega arith, (omega arith, (omega arith, (omega arith, tt)))))),
)

served_lem :
    answers bucket served (new_rate_limiter bucket 1 (pos 2))
    ≡ true ∷ true ∷ false ∷ true ∷ true ∷ []
unfolding answers new_rate_limiter middleware allow bucket_for enabled sweep evict lookup insert
    delete
served_lem = refl

abbrev first : Bucket bucket
first = record {
  lim = record { per_second = 1; size = pos 2; left = second; last = 1 };
  last_seen = 1;
}

abbrev limiter : RateLimiter bucket
limiter = record (new_rate_limiter bucket 1 (pos 2)) { buckets = ("a", first) ∷ [] }

abbrev later : List (Op bucket)
later = op_sweep (5 * second) ∷ op_request "a" ten_minutes ∷ op_sweep (2 * ten_minutes) ∷ []

-- Twenty minutes after SetRate the bucket has still its burst of two.
run-set_rate_lags_example :
    Has bucket (λ l. l.size) "a" (pos 2) (run bucket later (set_rate bucket 1 (pos 1) limiter))
unfolding new_rate_limiter lookup enabled
run-set_rate_lags_example =
    run-set_rate_lags bucket (λ l. l.size) (λ r l. refl)
      (λ t l. (spend-Facts l.per_second l.size t (full t l)).1) 1 (pos 1) "a" later limiter first
      refl refl refl (omega arith, (omega arith, tt))
