-- ===== src/RateLimit.antt =====
-- The rate limiter of requests, internal/quota/ratelimit.go. The package golang.org/x/time/rate is the
-- parameter `Rate`. A time is a number of nanoseconds, and the two readings of the clock that a
-- request makes, for its bucket and for its token, are one. The pointer to a limiter is never nil here.
-- Left out: the ticker of the sweeper and the texts of the response.
mod Requests
pub mod Sweeps
pub mod Retune
mod Tests
use nowhere_agent.Base.{
  ℕ, ◌+◌, ltb, String, Bool, true, false, not, ◌&&◌, ◌||◌, List, [], ◌∷◌, none, some, str_eq,
  if◌then◌else◌,
}
use nowhere_agent.Base.Int.{ℤ, is_positive}
use nowhere_agent.Base.Dict.{Dict, lookup, insert, delete}

pub record Rate : Type 1 where
  pub Limit : Type 0
  pub Limiter : Type 0
  pub above_zero : Limit → Bool
  pub new_limiter : Limit → ℤ → Limiter
  pub set_limit : Limit → Limiter → Limiter
  pub take_token : ℕ → Limiter → Bool × Limiter

abbrev pub ten_minutes : ℕ
ten_minutes = 600_000_000_000

module _ (rate : Rate) where
  open rate use {Limit, Limiter, above_zero, new_limiter, set_limit, take_token}

  pub record Bucket : Type 0 where
    pub lim : Limiter
    pub last_seen : ℕ

  -- `sweeps` says whether the sweeper runs.
  pub record RateLimiter : Type 0 where
    pub rps : Limit
    pub burst : ℤ
    pub buckets : Dict Bucket
    pub sweeps : Bool
    pub sweep_ttl : ℕ

  unfoldable pub enabled : RateLimiter → Bool
  enabled rl = above_zero rl.rps && is_positive rl.burst

  -- `NewRateLimiter`
  unfoldable pub new_rate_limiter : Limit → ℤ → RateLimiter
  new_rate_limiter rps burst =
      let rl : RateLimiter = record {
        rps = rps;
        burst = burst;
        buckets = [];
        sweeps = false;
        sweep_ttl = ten_minutes;
      } in
      if enabled rl then record rl { sweeps = true } else rl

  -- `bucketFor`. The map holds a pointer to the bucket, so the caller writes it back.
  unfoldable pub bucket_for : String → ℕ → RateLimiter → Bucket
  bucket_for key now rl = elim (lookup key rl.buckets) [
    | none ↦ record { lim = new_limiter rl.rps rl.burst; last_seen = now }
    | some b ↦ record b { last_seen = now }
  ]

  -- `Allow`
  unfoldable pub allow : String → ℕ → RateLimiter → Bool × RateLimiter
  allow key now rl =
      let b = bucket_for key now rl in
      let (ok, lim) = take_token now b.lim in
      if not (enabled rl)
      then (true, rl)
      else (ok, record rl { buckets = insert key (record b { lim = lim }) rl.buckets })

  -- What `Middleware` decides about a request whose key is `key`; an empty key is not limited.
  unfoldable pub middleware : String → ℕ → RateLimiter → Bool × RateLimiter
  middleware key now rl = if not (enabled rl) || str_eq key "" then (true, rl) else allow key now rl

  unfoldable pub retune : Limit → Dict Bucket → Dict Bucket
  retune rps [] = []
  retune rps ((key, b) ∷ rest) = (key, record b { lim = set_limit rps b.lim }) ∷ retune rps rest

  -- `SetRate`
  unfoldable pub set_rate : Limit → ℤ → RateLimiter → RateLimiter
  set_rate rps burst rl =
      let tuned = record rl { rps = rps; burst = burst; buckets = retune rps rl.buckets } in
      if not (enabled rl) && enabled tuned then record tuned { sweeps = true } else tuned

  abbrev pub is_idle : ℕ → ℕ → Bucket → Bool
  is_idle ttl now b = ltb (b.last_seen + ttl) now

  -- The loop of `sweep` over the buckets.
  unfoldable pub evict : ℕ → ℕ → Dict Bucket → Dict Bucket
  evict ttl now [] = []
  evict ttl now ((key, b) ∷ rest) =
      let left = evict ttl now rest in
      if is_idle ttl now b then delete key left else (key, b) ∷ left

  -- One tick of `sweep`.
  unfoldable pub sweep : ℕ → RateLimiter → RateLimiter
  sweep now rl = record rl { buckets = evict rl.sweep_ttl now rl.buckets }
