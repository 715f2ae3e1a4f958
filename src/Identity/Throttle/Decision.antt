-- ===== src/Identity/Throttle/Decision.antt =====
-- What `Check` of internal/identity/throttle.go decides, and what a success resets.
use nowhere_agent.Base.{
  ℕ, ◌≡◌, String, Bool, true, not, ◌&&◌, none, some, arith, length, ltb, eq_refl,
}
use nowhere_agent.Base.Dict.{Dict, lookup, delete, lookup-delete}
use nowhere_agent.Identity.Windows.{Events, events_of, live, events_of-prune_map}
use nowhere_agent.Identity.Throttle.{
  LoginThrottler, login_max_failures, login_fail_window, prune, prune_email, clear_pair,
  clear_email, check_counts, check, success, key, email_key,
}

-- A key is open if its lock has expired, or if it has no lock and too few failures in the window.
unfoldable pub is_open : Dict ℕ → Events → String → ℕ → Bool
is_open locks events k now = elim (lookup k locks) [
  | none ↦ ltb (length (live now login_fail_window (events_of k events))) login_max_failures
  | some until ↦ not (ltb now until)
]

-- An attempt is allowed exactly if both the pair of email and address and the email are open.
pub check_decides :
    (fold : String → String) (t : LoginThrottler) (email ip : String) (now : ℕ)
    → (check fold t email ip now).0 ≡ (
        is_open t.locked t.failures (key fold email ip) now
        && is_open t.email_locked t.email_failures (email_key fold email) now)
unfolding check is_open clear_pair clear_email check_counts prune prune_email
check_decides fold t email ip now =
    let k = key fold email ip in
    let ek = email_key fold email in
    ground (
      arith,
      events_of-prune_map t.failures k k now login_fail_window,
      events_of-prune_map (delete k t.failures) k k now login_fail_window,
      events_of-prune_map t.email_failures ek ek now login_fail_window,
      events_of-prune_map (delete ek t.email_failures) ek ek now login_fail_window,
      lookup-delete k k t.failures,
      lookup-delete ek ek t.email_failures,
      eq_refl k,
      eq_refl ek,
    )

-- After a success the next attempt for the same email and address is allowed, whatever failures and
-- locks there were.
check-success :
    (fold : String → String) (t : LoginThrottler) (email ip : String) (now : ℕ)
    → (check fold (success fold t email ip) email ip now).0 ≡ true
unfolding success is_open
check-success fold t email ip now =
    let k = key fold email ip in
    let ek = email_key fold email in
    ground (
      arith,
      check_decides fold (success fold t email ip) email ip now,
      lookup-delete k k t.failures,
      lookup-delete k k t.locked,
      lookup-delete ek ek t.email_failures,
      lookup-delete ek ek t.email_locked,
      eq_refl k,
      eq_refl ek,
    )
