-- ===== src/Identity/Otp/Quota.antt =====
-- The daily quotas of internal/identity/otpthrottle.go.
use nowhere_agent.Base.{
  suc, ℕ, ◌+◌, ◌≤◌, ◌<◌, ◌≡◌, String, true, str_eq, ◌&&◌, List, [], ◌∷◌, ◌++◌, arith, length, ltb,
  eq_refl, if◌then◌else◌,
}
use nowhere_agent.Identity.Windows.{
  events_of, live, length-record_event, throttle_max_keys, events_of-prune_map,
  events_of-record_event, length-prune_map-le, live-live,
}
use nowhere_agent.Identity.Otp.{
  OtpThrottler, otp_day, otp_daily_per_phone, otp_daily_per_ip, otp_admit, allow_send, record_phone,
  record_ip, record_send,
}

-- The sends that count at a time.
abbrev pub phone_sends : OtpThrottler → String → ℕ → List ℕ
phone_sends t phone now = live now otp_day (events_of phone t.sent_phone)

abbrev pub ip_sends : OtpThrottler → String → ℕ → List ℕ
ip_sends t ip now = live now otp_day (events_of ip t.sent_ip)

-- A send is allowed exactly if the number and the address are both below their quotas.
allow_send_decides :
    (t : OtpThrottler) (phone ip : String) (now : ℕ)
    → (allow_send t phone ip now).0 ≡ (
        ltb (length (phone_sends t phone now)) otp_daily_per_phone
        && ltb (length (ip_sends t ip now)) otp_daily_per_ip)
unfolding allow_send
allow_send_decides t phone ip now = ground (
  arith,
  events_of-prune_map t.sent_phone phone phone now otp_day,
  events_of-prune_map t.sent_ip ip ip now otp_day,
  eq_refl phone,
  eq_refl ip,
)

-- Later in time no more events are live.
length-live-le :
    (now later window : ℕ) (xs : List ℕ)
    → now ≤ later
    → length (live later window xs) ≤ length (live now window xs)
length-live-le now later window [] h = omega arith
length-live-le now later window (x ∷ xs) h = ground (arith, length-live-le now later window xs h)

-- There is room for `n` more numbers and addresses.
pub record Room (n : ℕ) (t : OtpThrottler) : Type 0 where
  pub phones : length t.sent_phone + n ≤ throttle_max_keys
  pub ips : length t.sent_ip + n ≤ throttle_max_keys

-- What `AllowSend` changes.
pub allow_send-frame :
    (t : OtpThrottler) (other phone ip : String) (at last n : ℕ)
    → Room (suc n) t
    → at ≤ last
    → let t' = (allow_send t other ip at).1 in
      Room n t' × (phone_sends t' phone last ≡ phone_sends t phone last)
unfolding allow_send
allow_send-frame t other phone ip at last n r h = ground (
  arith,
  r,
  length-prune_map-le t.sent_phone other at otp_day,
  length-prune_map-le t.sent_ip ip at otp_day,
  events_of-prune_map t.sent_phone other phone at otp_day,
  live-live at last otp_day (events_of phone t.sent_phone) h,
)

-- Only a send below the quota is allowed.
pub allowed_few :
    (t : OtpThrottler) (phone ip : String) (at last : ℕ)
    → at ≤ last
    → (allow_send t phone ip at).0 ≡ true
    → length (phone_sends t phone last) < otp_daily_per_phone
allowed_few t phone ip at last h a = ground (
  arith,
  a,
  allow_send_decides t phone ip at,
  length-live-le at last otp_day (events_of phone t.sent_phone) h,
)

pub Room-less : (n : ℕ) (t : OtpThrottler) → Room (suc n) t → Room n t
Room-less n t r = record { phones = omega (arith, r.phones); ips = omega (arith, r.ips) }

-- What `RecordSend` changes where there is room.
pub record_send-frame :
    (t : OtpThrottler) (other phone ip : String) (at n : ℕ)
    → Room (suc n) t
    → let t' = record_send t other ip at in
      Room n t'
      × (events_of phone t'.sent_phone ≡ (
          if str_eq other phone
          then events_of phone t.sent_phone ++ at ∷ []
          else events_of phone t.sent_phone))
unfolding record_send record_phone record_ip otp_admit
record_send-frame t other phone ip at n r = ground (
  arith,
  r,
  length-record_event t.sent_phone other at,
  length-record_event t.sent_ip ip at,
  events_of-record_event t.sent_phone other phone at,
)
