-- ===== src/Identity/Otp/Sending.antt =====
-- The requests for codes of internal/identity/phonehttp.go, which overlap: `serveRequestCode` asks
-- AllowSend, calls the provider of the messages, and then RecordSend, each under its own lock.
use nowhere_agent.Base.{
  suc, ℕ, ◌+◌, ◌≤◌, ◌<◌, String, some, none, str_eq, get_elem?, remove_at, Bool, ◌&&◌, List, [],
  ◌∷◌, length, if◌then◌else◌,
}
use nowhere_agent.Identity.Otp.{OtpThrottler, otp_day, otp_daily_per_phone, allow_send, record_send}
use nowhere_agent.Identity.Otp.Quota.{phone_sends}

-- A request that `AllowSend` has let through waits for the provider of the messages; after that
-- `RecordSend` counts it, if the code was sent. Other requests run in between.
pub record Sending : Type 0 where
  pub throttle : OtpThrottler
  pub waiting : List (String × String)

pub data Step : Type 0 where
  asked : String → String → ℕ → Step
  answered : ℕ → Bool → ℕ → Step

-- The two halves of `serveRequestCode`: up to the call of the provider, and from its answer on.
unfoldable pub step : Step → Sending → Sending
step (asked phone ip at) s =
    let (allowed, t) = allow_send s.throttle phone ip at in
    record { throttle = t; waiting = if allowed then (phone, ip) ∷ s.waiting else s.waiting }
step (answered i ok at) s = elim (get_elem? s.waiting i) [
  | none ↦ s
  | some (phone, ip) ↦ record {
    throttle = if ok then record_send s.throttle phone ip at else s.throttle;
    waiting = remove_at i s.waiting;
  }
]

-- How many requests for a number wait.
abbrev pub under_way : String → List (String × String) → ℕ
under_way phone [] = 0
under_way phone (r ∷ rs) =
    let rest = under_way phone rs in if str_eq r.0 phone then suc rest else rest

-- Whether a step sends a code to the number, and how many the steps send.
abbrev pub sent_by : String → Step → Sending → ℕ
sent_by phone (asked other ip at) s = 0
sent_by phone (answered i ok at) s = elim (get_elem? s.waiting i) [
  | none ↦ 0
  | some r ↦ if ok && str_eq r.0 phone then 1 else 0
]

unfoldable pub sent : String → List Step → Sending → ℕ
sent phone [] s = 0
sent phone (st ∷ sts) s = sent_by phone st s + sent phone sts (step st s)

-- Never more than `n` requests for the number wait at once.
abbrev pub AtMost : ℕ → String → List Step → Sending → Type 0
AtMost n phone [] s = Unit
AtMost n phone (st ∷ sts) s =
    (under_way phone (step st s).waiting ≤ n) × AtMost n phone sts (step st s)

-- The day that ends with `last` has the time of the step.
abbrev pub Within : ℕ → Step → Type 0
Within last (asked phone ip at) = (at ≤ last) × (last < at + otp_day)
Within last (answered i ok at) = (at ≤ last) × (last < at + otp_day)

-- One code is sent and counts, and what waits and what counts stay below the bound together.
abbrev Below : ℕ → String → ℕ → Sending → Type 0
Below k phone last s =
    length (phone_sends s.throttle phone last) + under_way phone s.waiting ≤ otp_daily_per_phone + k
