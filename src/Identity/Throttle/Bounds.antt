-- ===== src/Identity/Throttle/Bounds.antt =====
-- The memory bound of internal/identity/throttle.go: no history of calls makes a map of failures
-- larger than its cap.
use nowhere_agent.Base.{ℕ, ◌≤◌, String, List, [], ◌∷◌, arith, length}
use nowhere_agent.Base.Dict.{Dict, delete, keys, length-delete-le}
use nowhere_agent.Identity.Windows.{
  Events, throttle_max_keys, prune_keys, length-prune_map-le, length-prune_keys-le,
  length-record_event,
}
use nowhere_agent.Identity.Throttle.{
  LoginThrottler, new_login_throttler, login_fail_window, prune, prune_email, sweep_locks,
  sweep_all, admit_map, admit, admit_email, fail_pair, fail_email, clear_pair, clear_email,
  check_counts, check, fail, success, key, email_key,
}

pub record Bounded (t : LoginThrottler) : Type 0 where
  pub pairs : length t.failures ≤ throttle_max_keys
  pub emails : length t.email_failures ≤ throttle_max_keys

length-sweep_locks :
    (locks : Dict ℕ) (now : ℕ) (l : Dict ℕ) (e : Events)
    → length (sweep_locks locks now (l, e)).1 ≤ length e
unfolding sweep_locks
length-sweep_locks [] now l e = omega arith
length-sweep_locks ((k, until) ∷ rest) now l e = ground (
  arith,
  length-sweep_locks rest now l e,
  length-sweep_locks rest now (delete k l) (delete k e),
  length-delete-le k e,
)

-- A sweep makes neither map larger.
length-sweep_all :
    (t : LoginThrottler) (now : ℕ)
    → (length (sweep_all t now).failures ≤ length t.failures)
      × (length (sweep_all t now).email_failures ≤ length t.email_failures)
unfolding sweep_all
length-sweep_all t now =
    let f = prune_keys (keys t.failures) t.failures now login_fail_window in
    let g = prune_keys (keys t.email_failures) t.email_failures now login_fail_window in
    (
      omega (
        arith,
        length-sweep_locks t.locked now t.locked f,
        length-prune_keys-le (keys t.failures) t.failures now login_fail_window,
      ),
      omega (
        arith,
        length-sweep_locks t.email_locked now t.email_locked g,
        length-prune_keys-le (keys t.email_failures) t.email_failures now login_fail_window,
      ),
    )

fail_pair-Bounded :
    (t : LoginThrottler) (k : String) (now : ℕ) → Bounded t → Bounded (fail_pair t k now)
unfolding fail_pair admit admit_map prune
fail_pair-Bounded t k now b =
    let t' = prune t k now in
    ground (
      arith,
      length-prune_map-le t.failures k now login_fail_window,
      length-sweep_all t' now,
      length-record_event t'.failures k now,
      length-record_event (sweep_all t' now).failures k now,
    )

fail_email-Bounded :
    (t : LoginThrottler) (k : String) (now : ℕ) → Bounded t → Bounded (fail_email t k now)
unfolding fail_email admit_email admit_map prune_email
fail_email-Bounded t k now b =
    let t' = prune_email t k now in
    ground (
      arith,
      length-prune_map-le t.email_failures k now login_fail_window,
      length-sweep_all t' now,
      length-record_event t'.email_failures k now,
      length-record_event (sweep_all t' now).email_failures k now,
    )

check_counts-Bounded :
    (t : LoginThrottler) (k ek : String) (now : ℕ) → Bounded t → Bounded (check_counts t k ek now).2
unfolding check_counts prune prune_email
check_counts-Bounded t k ek now b = ground (
  arith,
  length-prune_map-le t.failures k now login_fail_window,
  length-prune_map-le t.email_failures ek now login_fail_window,
)

clear-Bounded :
    (t : LoginThrottler) (k ek : String)
    → Bounded t
    → Bounded (clear_pair t k) × Bounded (clear_email (clear_pair t k) ek)
unfolding clear_pair clear_email
clear-Bounded t k ek b = (
  ground (arith, length-delete-le k t.failures),
  ground (arith, length-delete-le k t.failures, length-delete-le ek t.email_failures),
)

-- The calls on a throttler, each with its email, address and time.
pub data Call : Type 0 where
  checks fails succeeds : String → String → ℕ → Call

module _ (fold : String → String) where
  pub apply : LoginThrottler → Call → LoginThrottler
  apply t (checks email ip now) = (check fold t email ip now).2
  apply t (fails email ip now) = fail fold t email ip now
  apply t (succeeds email ip now) = success fold t email ip

  pub run : LoginThrottler → List Call → LoginThrottler
  run t [] = t
  run t (c ∷ cs) = run (apply t c) cs

  apply-Bounded : (t : LoginThrottler) (c : Call) → Bounded t → Bounded (apply t c)
  unfolding apply check fail success
  apply-Bounded t (checks email ip now) b =
      let k = key fold email ip in
      let ek = email_key fold email in
      ground (
        arith,
        clear-Bounded t k ek b,
        check_counts-Bounded (clear_email (clear_pair t k) ek) k ek now,
      )
  apply-Bounded t (fails email ip now) b =
      fail_email-Bounded _ (email_key fold email) now
        (fail_pair-Bounded t (key fold email ip) now b)
  apply-Bounded t (succeeds email ip now) b = ground (
    arith,
    length-delete-le (key fold email ip) t.failures,
    length-delete-le (email_key fold email) t.email_failures,
  )

  run-Bounded : (t : LoginThrottler) (cs : List Call) → Bounded t → Bounded (run t cs)
  unfolding run
  run-Bounded t [] b = b
  run-Bounded t (c ∷ cs) b = run-Bounded (apply t c) cs (apply-Bounded t c b)

  -- Whatever is called on a new throttler, each of its two maps of failures stays within the cap
  -- on tracked keys.
  pub run-new-Bounded : (cs : List Call) → Bounded (run new_login_throttler cs)
  run-new-Bounded cs = run-Bounded _ cs (record { pairs = omega arith; emails = omega arith })
