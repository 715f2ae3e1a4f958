-- ===== src/Identity/Otp.antt =====
-- Throttling of one-time codes, internal/identity/otpthrottle.go. `strings.TrimSpace` is the
-- parameter `trim`, and the clock is an argument of each call.
pub mod Quota
pub mod Sending
pub mod Verify
use Prim.Native.String.{◌++◌ as append}
use nowhere_agent.Base.{
  ℕ, ◌+◌, ◌-◌, ◌*◌, String, Bool, true, false, not, ◌||◌, List, [], ◌∷◌, length, ltb, leb, none,
  some, if◌then◌else◌,
}
use nowhere_agent.Base.Dict.{Dict, lookup, insert, delete, has, keys}
use nowhere_agent.Identity.Windows.{
  minute, throttle_max_keys, Events, events_of, prune_map, prune_keys, record_event,
}
use nowhere_agent.Identity.Throttle.{sweep_locks, lock_left}

abbrev pub otp_max_verify_failures : ℕ
otp_max_verify_failures = 5

abbrev pub otp_verify_window : ℕ
otp_verify_window = 15 * minute

abbrev pub otp_verify_lockout : ℕ
otp_verify_lockout = 15 * minute

abbrev pub otp_daily_per_phone : ℕ
otp_daily_per_phone = 10

abbrev pub otp_daily_per_ip : ℕ
otp_daily_per_ip = 30

abbrev pub otp_day : ℕ
otp_day = 24 * 60 * minute

pub record OtpThrottler : Type 0 where
  pub verify : Events
  pub locked : Dict ℕ
  pub sent_phone : Events
  pub sent_ip : Events

abbrev pub new_otp_throttler : OtpThrottler
new_otp_throttler = record { verify = []; locked = []; sent_phone = []; sent_ip = [] }

unfoldable pub otp_sweep_all : OtpThrottler → ℕ → OtpThrottler
otp_sweep_all t now =
    let verify = prune_keys (keys t.verify) t.verify now otp_verify_window in
    let (locked, verify') = sweep_locks t.locked now (t.locked, verify) in
    record {
      verify = verify';
      locked = locked;
      sent_phone = prune_keys (keys t.sent_phone) t.sent_phone now otp_day;
      sent_ip = prune_keys (keys t.sent_ip) t.sent_ip now otp_day;
    }

-- `m` reads one of the maps from the state.
unfoldable pub otp_admit : (OtpThrottler → Events) → OtpThrottler → String → ℕ → Bool × OtpThrottler
otp_admit m t k now =
    if ltb (length (m t)) throttle_max_keys
    then (true, t)
    else (let t' = otp_sweep_all t now in
        (has k (m t') || ltb (length (m t')) throttle_max_keys, t'))

-- `CheckVerify` behind the test of the lock.
unfoldable pub check_failures : OtpThrottler → String → ℕ → Bool × ℕ × OtpThrottler
check_failures t k now =
    let t' = record t { verify = prune_map t.verify k now otp_verify_window } in
    if leb otp_max_verify_failures (length (events_of k t'.verify))
    then (false, otp_verify_lockout, t')
    else (true, 0, t')

unfoldable pub clear_verify : OtpThrottler → String → OtpThrottler
clear_verify t k =
    if has k t.locked
    then record t { locked = delete k t.locked; verify = delete k t.verify }
    else t

-- Whether a code may be sent; `false` is `ErrOTPSendQuota`.
unfoldable pub allow_send : OtpThrottler → String → String → ℕ → Bool × OtpThrottler
allow_send t phone ip now =
    let t' = record t {
      sent_phone = prune_map t.sent_phone phone now otp_day;
      sent_ip = prune_map t.sent_ip ip now otp_day;
    } in
    if leb otp_daily_per_phone (length (events_of phone t'.sent_phone))
    then (false, t')
    else if leb otp_daily_per_ip (length (events_of ip t'.sent_ip))
    then (false, t')
    else (true, t')

unfoldable pub record_phone : OtpThrottler → String → ℕ → OtpThrottler
record_phone t phone now =
    let (admitted, t') = otp_admit (λ t. t.sent_phone) t phone now in
    if admitted then record t' { sent_phone = record_event t'.sent_phone phone now } else t'

unfoldable pub record_ip : OtpThrottler → String → ℕ → OtpThrottler
record_ip t ip now =
    let (admitted, t') = otp_admit (λ t. t.sent_ip) t ip now in
    if admitted then record t' { sent_ip = record_event t'.sent_ip ip now } else t'

unfoldable pub record_send : OtpThrottler → String → String → ℕ → OtpThrottler
record_send t phone ip now = record_ip (record_phone t phone now) ip now

module _ (trim : String → String) where
  abbrev pub otp_key : String → String → String
  otp_key phone ip = append (append (trim phone) "|") ip

  unfoldable pub check_verify : OtpThrottler → String → String → ℕ → Bool × ℕ × OtpThrottler
  check_verify t phone ip now =
      let k = otp_key phone ip in
      elim (lock_left (lookup k t.locked) now) [
        | some wait ↦ (false, wait, t)
        | none ↦ check_failures (clear_verify t k) k now
      ]

  unfoldable pub fail_verify : OtpThrottler → String → String → ℕ → OtpThrottler
  fail_verify t phone ip now =
      let k = otp_key phone ip in
      let pruned = record t { verify = prune_map t.verify k now otp_verify_window } in
      let (admitted, t') = otp_admit (λ t. t.verify) pruned k now in
      if admitted
      then (let failures = record_event t'.verify k now in
          record t' {
            verify = failures;
            locked =
                if leb otp_max_verify_failures (length (events_of k failures))
                then insert k (now + otp_verify_lockout) t'.locked
                else t'.locked;
          })
      else t'

  unfoldable pub success_verify : OtpThrottler → String → String → OtpThrottler
  success_verify t phone ip =
      let k = otp_key phone ip in
      record t { verify = delete k t.verify; locked = delete k t.locked }
