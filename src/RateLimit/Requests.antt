-- ===== src/RateLimit/Requests.antt =====
-- What a request and a sweep do to the buckets of the rate limiter.
use nowhere_agent.Base.{
  ℕ, ◌≡◌, refl, arith, String, Bool, true, false, [], ◌∷◌, Option, none, some, str_eq, eq_iff,
  if◌then◌else◌, Bool-cases, Option-cases, inl, inr,
}
use nowhere_agent.Base.Dict.{Dict, lookup, insert, lookup-delete}
use nowhere_agent.RateLimit.{
  Rate, Bucket, RateLimiter, enabled, bucket_for, allow, middleware, is_idle, evict,
}

module _ (rate : Rate) where
  open rate use {Limiter, new_limiter, take_token}

  pub lookup-evict :
      (ttl now : ℕ) (key : String) (m : Dict (Bucket rate))
      → lookup key (evict rate ttl now m) ≡ elim (lookup key m) as (λ o. Option (Bucket rate)) [
        | none ↦ none
        | some b ↦ if is_idle rate ttl now b then none else some b
      ]
  unfolding lookup evict
  lookup-evict ttl now key [] = refl
  lookup-evict ttl now key ((first, b) ∷ rest) = ground (
    arith,
    lookup-evict ttl now key rest,
    eq_iff first key,
    lookup-delete first key (evict rate ttl now rest),
  )

  -- What the call of a request does to the limiter of a bucket.
  abbrev pub taken : RateLimiter rate → ℕ → Option (Bucket rate) → Bool × Limiter
  taken rl now o = take_token now (elim o [ none ↦ new_limiter rl.rps rl.burst | some b ↦ b.lim ])

  -- A request that is limited.
  pub middleware-taken :
      (key : String) (now : ℕ) (rl : RateLimiter rate)
      → enabled rate rl ≡ true
      → str_eq key "" ≡ false
      → middleware rate key now rl ≡ (
          let (ok, lim) = taken rl now (lookup key rl.buckets) in
          (
            ok,
            record rl { buckets = insert key (record { lim = lim; last_seen = now }) rl.buckets },
          ))
  unfolding middleware allow bucket_for
  middleware-taken key now rl on e = elim (Option-cases (lookup key rl.buckets)) [
    | inl f ↦ rw (middleware, allow, bucket_for, on, e, f) refl
    | inr (b, f) ↦ rw (middleware, allow, bucket_for, on, e, f) refl
  ]

  -- A request without a key.
  pub middleware_free :
      (key : String) (now : ℕ) (rl : RateLimiter rate)
      → str_eq key "" ≡ true
      → middleware rate key now rl ≡ (true, rl)
  unfolding middleware
  middleware_free key now rl e = elim (Bool-cases (enabled rate rl)) [
    | inl on ↦ rw (on, e) refl
    | inr off ↦ rw off refl
  ]
