-- ===== src/RateLimit/Retune.antt =====
-- What SetRate does to a bucket that stays in use.
use nowhere_agent.Base.{
  ℕ, ◌+◌, ◌≤◌, ◌≡◌, refl, sym, ap, subst, ◌∙◌, arith, tests, String, Bool, true, false, not, ◌&&◌,
  List, [], ◌∷◌, Option, none, some, str_eq, eq_iff, if◌then◌else◌, Bool-cases, inl, inr,
  both_branches,
}
use nowhere_agent.Base.Int.{ℤ, is_positive}
use nowhere_agent.Base.Dict.{Dict, lookup, insert, lookup-insert}
use nowhere_agent.RateLimit.{
  Rate, Bucket, RateLimiter, enabled, middleware, is_idle, sweep, retune, set_rate,
}
use nowhere_agent.RateLimit.Requests.{taken, lookup-evict, middleware-taken, middleware_free}
use nowhere_agent.RateLimit.Sweeps.{Op, op_request, op_sweep}

module _ (rate : Rate) where
  open rate use {Limit, Limiter, set_limit, take_token}

  -- The limiter after requests and sweeps.
  unfoldable pub run : List (Op rate) → RateLimiter rate → RateLimiter rate
  run [] rl = rl
  run (op_request key now ∷ ops) rl = run ops (middleware rate key now rl).1
  run (op_sweep now ∷ ops) rl = run ops (sweep rate now rl)

  -- No sweep comes later than `ttl` after the last request of the key; `t` is its time.
  abbrev pub Busy : ℕ → String → ℕ → List (Op rate) → Type 0
  Busy ttl key t [] = Unit
  Busy ttl key t (op_request other now ∷ ops) =
      Busy ttl key (if str_eq other key then now else t) ops
  Busy ttl key t (op_sweep now ∷ ops) = (now ≤ t + ttl) × Busy ttl key t ops

  lookup-retune :
      (r : Limit) (key : String) (m : Dict (Bucket rate))
      → lookup key (retune rate r m) ≡ elim (lookup key m) as (λ o. Option (Bucket rate)) [
        | none ↦ none
        | some b ↦ some (record b { lim = set_limit r b.lim })
      ]
  unfolding lookup retune
  lookup-retune r key [] = refl
  lookup-retune r key ((first, b) ∷ rest) = ground (arith, lookup-retune r key rest)

  -- A bucket of the key is there and has this burst.
  abbrev pub Has : (Limiter → ℤ) → String → ℤ → RateLimiter rate → Type 0
  Has burst_of key burst rl =
      (b : Bucket rate) × (lookup key rl.buckets ≡ some b) × (burst_of b.lim ≡ burst)

  module _ (burst_of : Limiter → ℤ)
      (set_limit-keeps : (r : Limit) (l : Limiter) → burst_of (set_limit r l) ≡ burst_of l)
      (take_token-keeps : (t : ℕ) (l : Limiter) → burst_of (take_token t l).1 ≡ burst_of l) where
    run-Has :
        (key : String) (burst : ℤ) (ops : List (Op rate)) (rl : RateLimiter rate) (b : Bucket rate)
        → enabled rate rl ≡ true
        → str_eq key "" ≡ false
        → lookup key rl.buckets ≡ some b
        → burst_of b.lim ≡ burst
        → Busy rl.sweep_ttl key b.last_seen ops
        → Has burst_of key burst (run ops rl)
    unfolding run enabled middleware sweep
    run-Has key burst [] rl b on k f same busy = (b, f, same)
    run-Has key burst (op_sweep now ∷ ops) rl b on k f same (le, busy) =
        let stays : is_idle rate rl.sweep_ttl now b ≡ false = grind (tests, le) in
        run-Has key burst ops (sweep rate now rl) b on k
          (rw (lookup-evict rate rl.sweep_ttl now key rl.buckets, f, stays) refl) same busy
    run-Has key burst (op_request other now ∷ ops) rl b on k f same busy =
        let since : Bool → Type 0 =
          λ q. Busy rl.sweep_ttl key (if q then now else b.last_seen) ops in
        elim (Bool-cases (str_eq other "")) [
          | inl e ↦
              let q : str_eq other key ≡ false =
                ground (arith, eq_iff other "", eq_iff other key, eq_iff key "") in
              subst (λ p. Has burst_of key burst (run ops p.1))
                (sym (middleware_free rate other now rl e))
                (run-Has key burst ops rl b on k f same (subst since q busy))
          | inr e ↦
              let l = (taken rate rl now (lookup other rl.buckets)).1 in
              let used : Bucket rate = record { lim = l; last_seen = now } in
              let held = record rl { buckets = insert other used rl.buckets } in
              elim (Bool-cases (str_eq other key)) [
                | inl q ↦
                    let g : lookup other rl.buckets ≡ some b =
                      ap (λ x. lookup x rl.buckets) ((eq_iff other key).0 q) ∙ f in
                    subst (λ p. Has burst_of key burst (run ops p.1))
                      (sym (middleware-taken rate other now rl on e))
                      (run-Has key burst ops held used on k
                        (rw (lookup-insert other key used rl.buckets, q) refl)
                        (rw g (take_token-keeps now b.lim ∙ same)) (subst since q busy))
                | inr q ↦
                    subst (λ p. Has burst_of key burst (run ops p.1))
                      (sym (middleware-taken rate other now rl on e))
                      (run-Has key burst ops held b on k
                        (rw (lookup-insert other key used rl.buckets, q) f) same
                        (subst since q busy))
              ]
        ]

    -- A bucket that is in use when SetRate gives a new burst keeps the burst it had, for as long as no
    -- tick of the sweeper comes more than `sweep_ttl` after its last request: where set_limit and
    -- take_token do not change the burst of a limiter, no time makes the new burst reach it.
    pub run-set_rate_lags :
        (r : Limit) (burst : ℤ) (key : String) (ops : List (Op rate)) (rl : RateLimiter rate)
        (b : Bucket rate)
        → (rate.above_zero r && is_positive burst) ≡ true
        → str_eq key "" ≡ false
        → lookup key rl.buckets ≡ some b
        → Busy rl.sweep_ttl key b.last_seen ops
        → Has burst_of key (burst_of b.lim) (run ops (set_rate rate r burst rl))
    unfolding set_rate enabled
    run-set_rate_lags r burst key ops rl b on k f busy =
        let tuned : RateLimiter rate = record rl {
          rps = r;
          burst = burst;
          buckets = retune rate r rl.buckets;
        } in
        let lagging : Bucket rate = record b { lim = set_limit r b.lim } in
        let g : lookup key (retune rate r rl.buckets)
            ≡ some (record b { lim = set_limit r b.lim }) =
          rw (lookup-retune r key rl.buckets, f) refl in
        both_branches (λ x. Has burst_of key (burst_of b.lim) (run ops x))
          (not (enabled rate rl) && enabled rate tuned)
          (run-Has key (burst_of b.lim) ops (record tuned { sweeps = true }) lagging on k g
            (set_limit-keeps r b.lim) busy)
          (run-Has key (burst_of b.lim) ops tuned lagging on k g (set_limit-keeps r b.lim) busy)
