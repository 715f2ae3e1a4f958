-- ===== src/RateLimit/Sweeps.antt =====
-- The evictions of the rate limiter are not seen by its callers.
use nowhere_agent.Base.{
  ℕ, ◌⊎◌, ◌+◌, ◌≤◌, ◌<◌, ◌≡◌, refl, sym, ap, ◌∙◌, arith, ltb→lt, String, Bool, true, false, List,
  [], ◌∷◌, Option, none, some, str_eq, both_branches, Bool-cases, inl, inr,
}
use nowhere_agent.Base.Int.{ℤ}
use nowhere_agent.Base.Dict.{Dict, lookup, insert, lookup-insert}
use nowhere_agent.RateLimit.{
  Rate, Bucket, RateLimiter, enabled, middleware, is_idle, evict, sweep, new_rate_limiter,
  ten_minutes,
}
use nowhere_agent.RateLimit.Requests.{taken, lookup-evict, middleware-taken}

module _ (rate : Rate) where
  open rate use {Limit, Limiter, new_limiter, take_token}

  -- What happens to a limiter: a request with its key, or a tick of the sweeper.
  pub data Op : Type 0 where
    op_request : String → ℕ → Op
    op_sweep : ℕ → Op

  -- The answers to the requests, in order.
  unfoldable pub answers : List Op → RateLimiter rate → List Bool
  answers [] rl = []
  answers (op_request key now ∷ ops) rl =
      let (ok, rl') = middleware rate key now rl in ok ∷ answers ops rl'
  answers (op_sweep now ∷ ops) rl = answers ops (sweep rate now rl)

  unfoldable pub without_sweeps : List Op → List Op
  without_sweeps [] = []
  without_sweeps (op_request key now ∷ ops) = op_request key now ∷ without_sweeps ops
  without_sweeps (op_sweep now ∷ ops) = without_sweeps ops

  -- The times do not go back.
  abbrev pub Ordered : ℕ → List Op → Type 0
  Ordered t [] = Unit
  Ordered t (op_request key now ∷ ops) = (t ≤ now) × Ordered now ops
  Ordered t (op_sweep now ∷ ops) = (t ≤ now) × Ordered now ops

  -- The limiters that calls leave, the last of them at the time given.
  pub data Used : Limit → ℤ → Limiter → ℕ → Type 0 where
    used_first : (r : Limit) (b : ℤ) (t : ℕ) → Used r b (take_token t (new_limiter r b)).1 t
    used_again :
        (r : Limit) (b : ℤ) (l : Limiter) (t u : ℕ) → Used r b l t → Used r b (take_token u l).1 u

  -- A limiter that was left alone for longer than `ttl` is full again: its next call gives what the
  -- first call of a new limiter gives.
  abbrev pub Refills : Limit → ℤ → ℕ → Type 0
  Refills r b ttl =
      (l : Limiter) (t now : ℕ)
      → Used r b l t
      → t + ttl < now
      → take_token now l ≡ take_token now (new_limiter r b)

  -- The bucket of a key with sweeps and without: the same, or one that was idle when it was evicted.
  abbrev Alike : RateLimiter rate → ℕ → Option (Bucket rate) → Option (Bucket rate) → Type 0
  Alike rl t o none = o ≡ none
  Alike rl t o (some b) =
      Used rl.rps rl.burst b.lim b.last_seen
      × ((o ≡ some b) ⊎ ((o ≡ none) × (b.last_seen + rl.sweep_ttl < t)))

  abbrev Similar : RateLimiter rate → ℕ → Dict (Bucket rate) → Dict (Bucket rate) → Type 0
  Similar rl t m n = (key : String) → Alike rl t (lookup key m) (lookup key n)

  Alike-later :
      (rl : RateLimiter rate) (t u : ℕ) (o p : Option (Bucket rate))
      → t ≤ u
      → Alike rl t o p
      → Alike rl u o p
  Alike-later rl t u o none le a = a
  Alike-later rl t u o (some b) le (used, inl e) = (used, inl e)
  Alike-later rl t u o (some b) le (used, inr (e, lt)) = (used, inr (e, omega arith))

  Alike-taken :
      (rl : RateLimiter rate) (t now : ℕ) (o p : Option (Bucket rate))
      → Refills rl.rps rl.burst rl.sweep_ttl
      → t ≤ now
      → Alike rl t o p
      → taken rate rl now o ≡ taken rate rl now p
  Alike-taken rl t now o none refills le a = ap (taken rate rl now) a
  Alike-taken rl t now o (some b) refills le (used, inl e) = ap (taken rate rl now) e
  Alike-taken rl t now o (some b) refills le (used, inr (e, lt)) =
      ap (taken rate rl now) e ∙ sym (refills b.lim b.last_seen now used (omega arith))

  taken-Used :
      (rl : RateLimiter rate) (t now : ℕ) (o p : Option (Bucket rate))
      → Alike rl t o p
      → Used rl.rps rl.burst (taken rate rl now p).1 now
  taken-Used rl t now o none a = used_first rl.rps rl.burst now
  taken-Used rl t now o (some b) (used, e) = used_again rl.rps rl.burst b.lim b.last_seen now used

  insert-Similar :
      (rl : RateLimiter rate) (t now : ℕ) (key : String) (l : Limiter) (m n : Dict (Bucket rate))
      → t ≤ now
      → Used rl.rps rl.burst l now
      → Similar rl t m n
      → (let b : Bucket rate = record { lim = l; last_seen = now } in
          Similar rl now (insert key b m) (insert key b n))
  insert-Similar rl t now key l m n le used s other =
      let b : Bucket rate = record { lim = l; last_seen = now } in
      elim (Bool-cases (str_eq key other)) [
        | inl e ↦ rw (lookup-insert key other b m, lookup-insert key other b n, e) (used, inl refl)
        | inr e ↦
            rw (lookup-insert key other b m, lookup-insert key other b n, e)
              (Alike-later rl t now (lookup other m) (lookup other n) le (s other))
      ]

  evict-Alike :
      (rl : RateLimiter rate) (t now : ℕ) (key : String) (m : Dict (Bucket rate))
      (p : Option (Bucket rate))
      → t ≤ now
      → Alike rl t (lookup key m) p
      → Alike rl now (lookup key (evict rate rl.sweep_ttl now m)) p
  evict-Alike rl t now key m none le a = rw (lookup-evict rate rl.sweep_ttl now key m, a) refl
  evict-Alike rl t now key m (some b) le (used, inr (e, lt)) =
      (used, inr (rw (lookup-evict rate rl.sweep_ttl now key m, e) refl, omega arith))
  evict-Alike rl t now key m (some b) le (used, inl e) =
      elim (Bool-cases (is_idle rate rl.sweep_ttl now b)) [
        | inl i ↦
            (used, inr (rw (lookup-evict rate rl.sweep_ttl now key m, e, i) refl, ltb→lt _ now i))
        | inr i ↦ (used, inl (rw (lookup-evict rate rl.sweep_ttl now key m, e, i) refl))
      ]

  answers-Similar :
      (rl : RateLimiter rate) (t : ℕ) (m n : Dict (Bucket rate)) (ops : List Op)
      → Refills rl.rps rl.burst rl.sweep_ttl
      → Ordered t ops
      → Similar rl t m n
      → answers ops (record rl { buckets = m })
        ≡ answers (without_sweeps ops) (record rl { buckets = n })
  unfolding answers without_sweeps middleware enabled sweep
  answers-Similar rl t m n [] refills later s = refl
  answers-Similar rl t m n (op_sweep now ∷ ops) refills (le, later) s =
      answers-Similar rl now (evict rate rl.sweep_ttl now m) n ops refills later
        (λ key. evict-Alike rl t now key m (lookup key n) le (s key))
  answers-Similar rl t m n (op_request key now ∷ ops) refills (le, later) s =
      let rest : Similar rl now m n =
        λ k. Alike-later rl t now (lookup k m) (lookup k n) le (s k) in
      elim (Bool-cases (enabled rate rl)) [
        | inr off ↦
            rw (middleware, off) (ap (true ∷◌) (answers-Similar rl now m n ops refills later rest))
        | inl on ↦ elim (Bool-cases (str_eq key "")) [
          | inl e ↦
              rw (middleware, on, e)
                (ap (true ∷◌) (answers-Similar rl now m n ops refills later rest))
          | inr e ↦
              let one = taken rate rl now (lookup key n) in
              let b : Bucket rate = record { lim = one.1; last_seen = now } in
              rw
                (
                  middleware-taken rate key now (record rl { buckets = m }) on e,
                  middleware-taken rate key now (record rl { buckets = n }) on e,
                  Alike-taken rl t now (lookup key m) (lookup key n) refills le (s key),
                )
                (ap (one.0 ∷◌) (
                  answers-Similar rl now (insert key b m) (insert key b n) ops refills later (
                    insert-Similar rl t now key one.1 m n le
                      (taken-Used rl t now (lookup key m) (lookup key n) (s key)) s)))
        ]
      ]

  -- Where a limiter that is left alone for ten minutes is full again, the sweeps change no answer: any
  -- requests, in the order of time and with ticks of the sweeper between them, are answered as they
  -- would be if no bucket was ever evicted.
  pub answers-without_sweeps :
      (r : Limit) (b : ℤ) (ops : List Op)
      → Refills r b ten_minutes
      → Ordered 0 ops
      → answers ops (new_rate_limiter rate r b)
        ≡ answers (without_sweeps ops) (new_rate_limiter rate r b)
  unfolding new_rate_limiter lookup
  answers-without_sweeps r b ops refills later =
      let Same : RateLimiter rate → Type 0 =
        λ rl. answers ops rl ≡ answers (without_sweeps ops) rl in
      let rl : RateLimiter rate = record {
        rps = r;
        burst = b;
        buckets = [];
        sweeps = false;
        sweep_ttl = ten_minutes;
      } in
      both_branches Same (enabled rate rl)
        (answers-Similar (record rl { sweeps = true }) 0 [] [] ops refills later (λ key. refl))
        (answers-Similar rl 0 [] [] ops refills later (λ key. refl))
