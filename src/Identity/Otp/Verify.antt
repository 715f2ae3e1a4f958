-- ===== src/Identity/Otp/Verify.antt =====
-- The checks of one-time codes, internal/identity/otpthrottle.go.
use nowhere_agent.Base.{
  ℕ, ◌≡◌, String, Bool, true, List, Option, none, some, arith, length, ltb, leb, eq_refl,
}
use nowhere_agent.Base.Dict.{lookup, delete, lookup-delete}
use nowhere_agent.Identity.Windows.{events_of, live, events_of-prune_map}
use nowhere_agent.Identity.Otp.{
  OtpThrottler, otp_max_verify_failures, otp_verify_window, otp_key, check_failures, clear_verify,
  check_verify, success_verify,
}

-- Whether a key is open: never locked and below the cap, or locked until a time that has come.
unfoldable pub verify_open : Option ℕ → List ℕ → ℕ → Bool
verify_open none ats now = ltb (length (live now otp_verify_window ats)) otp_max_verify_failures
verify_open (some until) ats now = leb until now

-- The decision of a check is read from the lock and the failures of the pair of number and address
-- alone, and a successful code opens that pair at any time.
check_verify_decides :
    (trim : String → String) (t : OtpThrottler) (phone ip : String) (now : ℕ)
    → let k = otp_key trim phone ip in
      ((check_verify trim t phone ip now).0
        ≡ verify_open (lookup k t.locked) (events_of k t.verify) now)
      × ((check_verify trim (success_verify trim t phone ip) phone ip now).0 ≡ true)
unfolding check_verify check_failures clear_verify success_verify verify_open
check_verify_decides trim t phone ip now =
    let k = otp_key trim phone ip in
    (
      ground (
        arith,
        events_of-prune_map t.verify k k now otp_verify_window,
        events_of-prune_map (delete k t.verify) k k now otp_verify_window,
        lookup-delete k k t.verify,
        eq_refl k,
      ),
      ground (
        arith,
        events_of-prune_map (delete k t.verify) k k now otp_verify_window,
        lookup-delete k k t.verify,
        lookup-delete k k t.locked,
        eq_refl k,
      ),
    )
