-- ===== src/Identity/Throttle.antt =====
-- Login throttling, internal/identity/throttle.go. `strings.ToLower(strings.TrimSpace(email))` is
-- the parameter `fold`; the time that a call reads is an argument, and the lock that serializes
-- the calls is the passing of the state.
pub mod Decision
pub mod Bounds
pub mod Lockout
use Prim.Native.String.{◌++◌ as append}
use nowhere_agent.Base.{
  ℕ, ◌+◌, ◌-◌, ◌*◌, String, Bool, true, false, not, ◌&&◌, ◌||◌, List, [], ◌∷◌, Option, none, some,
  length, ltb, leb, if◌then◌else◌,
}
use nowhere_agent.Base.Dict.{Dict, lookup, insert, delete, has, keys}
use nowhere_agent.Identity.Windows.{
  minute, throttle_max_keys, Events, events_of, prune_map, prune_keys, record_event,
}

abbrev pub login_max_failures : ℕ
login_max_failures = 5

abbrev pub login_fail_window : ℕ
login_fail_window = 15 * minute

abbrev pub login_lockout : ℕ
login_lockout = 15 * minute

pub record LoginThrottler : Type 0 where
  pub failures : Events
  pub locked : Dict ℕ
  pub email_failures : Events
  pub email_locked : Dict ℕ

abbrev pub new_login_throttler : LoginThrottler
new_login_throttler = record { failures = []; locked = []; email_failures = []; email_locked = [] }

unfoldable pub prune : LoginThrottler → String → ℕ → LoginThrottler
prune t k now = record t { failures = prune_map t.failures k now login_fail_window }

unfoldable pub prune_email : LoginThrottler → String → ℕ → LoginThrottler
prune_email t k now = record t {
  email_failures = prune_map t.email_failures k now login_fail_window;
}

-- The loop over a map of locks, which drops the expired ones and the events of their keys.
unfoldable pub sweep_locks : Dict ℕ → ℕ → Dict ℕ × Events → Dict ℕ × Events
sweep_locks [] now (locks, events) = (locks, events)
sweep_locks ((k, until) ∷ rest) now (locks, events) =
    sweep_locks rest now
      (if ltb now until then (locks, events) else (delete k locks, delete k events))

unfoldable pub sweep_all : LoginThrottler → ℕ → LoginThrottler
sweep_all t now =
    let failures = prune_keys (keys t.failures) t.failures now login_fail_window in
    let email_failures =
      prune_keys (keys t.email_failures) t.email_failures now login_fail_window in
    let (locked, failures') = sweep_locks t.locked now (t.locked, failures) in
    let (email_locked, email_failures') =
      sweep_locks t.email_locked now (t.email_locked, email_failures) in
    record {
      failures = failures';
      locked = locked;
      email_failures = email_failures';
      email_locked = email_locked;
    }

-- `admitMap`: whether an event of `k` may be recorded in the map that `m` reads from the state, and
-- the state after it.
unfoldable pub admit_map :
    (LoginThrottler → Events) → LoginThrottler → String → ℕ → Bool × LoginThrottler
admit_map m t k now =
    if ltb (length (m t)) throttle_max_keys
    then (true, t)
    else (let t' = sweep_all t now in (has k (m t') || ltb (length (m t')) throttle_max_keys, t'))

unfoldable pub admit : LoginThrottler → String → ℕ → Bool × LoginThrottler
admit = admit_map (λ t. t.failures)

unfoldable pub admit_email : LoginThrottler → String → ℕ → Bool × LoginThrottler
admit_email = admit_map (λ t. t.email_failures)

-- The part of `Fail` on the pair of email and address.
unfoldable pub fail_pair : LoginThrottler → String → ℕ → LoginThrottler
fail_pair t k now =
    let (admitted, t') = admit (prune t k now) k now in
    if admitted
    then (let failures = record_event t'.failures k now in
        record t' {
          failures = failures;
          locked =
              if leb login_max_failures (length (events_of k failures))
              then insert k (now + login_lockout) t'.locked
              else t'.locked;
        })
    else t'

-- The part of `Fail` on the email.
unfoldable pub fail_email : LoginThrottler → String → ℕ → LoginThrottler
fail_email t ek now =
    let (admitted, t') = admit_email (prune_email t ek now) ek now in
    if admitted
    then (let failures = record_event t'.email_failures ek now in
        record t' {
          email_failures = failures;
          email_locked =
              if leb login_max_failures (length (events_of ek failures))
              then insert ek (now + login_lockout) t'.email_locked
              else t'.email_locked;
        })
    else t'

-- A refusal with the time to wait, for a lock that is still in force.
abbrev pub lock_left : Option ℕ → ℕ → Option ℕ
lock_left none now = none
lock_left (some until) now = if ltb now until then some (until - now) else none

-- The history of a key whose lock has expired is cleared, with the lock.
unfoldable pub clear_pair : LoginThrottler → String → LoginThrottler
clear_pair t k =
    if has k t.locked
    then record t { locked = delete k t.locked; failures = delete k t.failures }
    else t

unfoldable pub clear_email : LoginThrottler → String → LoginThrottler
clear_email t ek =
    if has ek t.email_locked
    then record t {
      email_locked = delete ek t.email_locked;
      email_failures = delete ek t.email_failures;
    }
    else t

-- `Check` behind the two tests of the locks.
unfoldable pub check_counts : LoginThrottler → String → String → ℕ → Bool × ℕ × LoginThrottler
check_counts t k ek now =
    let t' = prune_email (prune t k now) ek now in
    if leb login_max_failures (length (events_of k t'.failures))
      || leb login_max_failures (length (events_of ek t'.email_failures))
    then (false, login_lockout, t')
    else (true, 0, t')

module _ (fold : String → String) where
  abbrev pub email_key : String → String
  email_key email = fold email

  abbrev pub key : String → String → String
  key email ip = append (append (email_key email) "|") ip

  -- Whether the attempt is allowed, the time to wait if not, and the state after the call.
  unfoldable pub check : LoginThrottler → String → String → ℕ → Bool × ℕ × LoginThrottler
  check t email ip now =
      let k = key email ip in
      let ek = email_key email in
      elim (lock_left (lookup k t.locked) now) [
        | some wait ↦ (false, wait, t)
        | none ↦
            let t' = clear_pair t k in
            elim (lock_left (lookup ek t'.email_locked) now) [
              | some wait ↦ (false, wait, t')
              | none ↦ check_counts (clear_email t' ek) k ek now
            ]
      ]

  unfoldable pub fail : LoginThrottler → String → String → ℕ → LoginThrottler
  fail t email ip now = fail_email (fail_pair t (key email ip) now) (email_key email) now

  unfoldable pub success : LoginThrottler → String → String → LoginThrottler
  success t email ip =
      let k = key email ip in
      let ek = email_key email in
      record {
        failures = delete k t.failures;
        locked = delete k t.locked;
        email_failures = delete ek t.email_failures;
        email_locked = delete ek t.email_locked;
      }
