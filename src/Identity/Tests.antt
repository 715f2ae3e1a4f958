-- ===== src/Identity/Tests.antt =====
-- The throttlers of internal/identity run on small histories.
use nowhere_agent.Base.{ℕ, refl, true, ◌≡◌, String, false, ◌&&◌, List, [], ◌∷◌, arith}
use nowhere_agent.Base.Dict.{lookup, insert, delete}
use nowhere_agent.Identity.Throttle.{
  LoginThrottler, new_login_throttler, check, fail, key, email_key,
}
use nowhere_agent.Identity.Throttle.Decision.{is_open, check_decides}
use nowhere_agent.Identity.Throttle.Bounds.{fails, checks, Bounded, run, run-new-Bounded}
use nowhere_agent.Identity.Throttle.Lockout.{Room, fail_all, check-fail_all}
use nowhere_agent.Identity.Otp.{
  new_otp_throttler, allow_send, record_send, record_phone, record_ip, otp_admit,
}
use nowhere_agent.Identity.Otp.Quota.{Room as OtpRoom}
use nowhere_agent.Identity.Otp.Sending.{Sending, Step, asked, answered, step, sent}
use nowhere_agent.Identity.Windows.{prune_map, record_event}

-- The test keeps the texts as they are.
abbrev same : String → String
same s = s

abbrev start : LoginThrottler
start = new_login_throttler

-- Four failures from four addresses.
abbrev attempts : List (String × ℕ)
attempts = ("1", 1) ∷ ("2", 2) ∷ ("3", 3) ∷ ("4", 4) ∷ []

start-Room : Room 5 start
start-Room = record { pairs = omega arith; emails = omega arith }

check-fail_all_example :
    (check same (fail same (fail_all same "a" start attempts) "a" "5" 5) "a" "6" 100).0 ≡ false
check-fail_all_example =
    check-fail_all same "a" start attempts "5" "6" 5 100 start-Room (omega arith)
      (
        (omega arith, omega arith),
        (
          (omega arith, omega arith),
          ((omega arith, omega arith), ((omega arith, omega arith), tt)),
        ),
      )
      (omega arith)

run-new-Bounded_example : Bounded (run same start (fails "a" "1" 1 ∷ checks "a" "1" 2 ∷ []))
run-new-Bounded_example = run-new-Bounded same (fails "a" "1" 1 ∷ checks "a" "1" 2 ∷ [])

-- A second request for the number is let through before the provider has answered the first; the
-- provider refuses a request for another number.
abbrev requests : List Step
requests =
    asked "p" "1" 1
    ∷ asked "p" "2" 2
    ∷ asked "q" "2" 3
    ∷ answered 2 true 4
    ∷ answered 0 false 5
    ∷ answered 0 true 6
    ∷ []

abbrev sending : Sending
sending = record { throttle = new_otp_throttler; waiting = [] }

both_sent : sent "p" requests sending ≡ 2
unfolding sent step allow_send record_send record_phone record_ip otp_admit prune_map record_event
    lookup insert delete
both_sent = refl

-- Nine codes count already, and two requests overlap: both are sent.
abbrev nine_sent : Sending
nine_sent = record {
  throttle = record new_otp_throttler {
    sent_phone = ("p", 1 ∷ 1 ∷ 1 ∷ 1 ∷ 1 ∷ 1 ∷ 1 ∷ 1 ∷ 1 ∷ []) ∷ [];
  };
  waiting = [];
}

overlap_exceeds :
    sent "p"
      (asked "p" "1" 2 ∷ asked "p" "1" 2 ∷ answered 1 true 3 ∷ answered 0 true 4 ∷ [])
      nine_sent
    ≡ 2
unfolding sent step allow_send record_send record_phone record_ip otp_admit prune_map record_event
    lookup insert delete
overlap_exceeds = refl

check_decides_example :
    let t = fail same start "a" "1" 1 in
    (check same t "a" "1" 2).0 ≡ (
      is_open t.locked t.failures (key same "a" "1") 2
      && is_open t.email_locked t.email_failures (email_key same "a") 2)
check_decides_example = check_decides same (fail same start "a" "1" 1) "a" "1" 2
