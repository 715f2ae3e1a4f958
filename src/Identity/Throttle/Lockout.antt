-- ===== src/Identity/Throttle/Lockout.antt =====
-- Failures of one email lock it for every address, and no other email (internal/identity/throttle.go).
use nowhere_agent.Base.{
  ℕ, suc, ◌+◌, ◌≤◌, ◌<◌, ◌≡◌, ◌≢◌, String, false, List, [], ◌∷◌, ◌++◌, some, arith, length, eq_iff,
  eq_refl, All, length-append,
}
use nowhere_agent.Base.Dict.{lookup, lookup-insert}
use nowhere_agent.Identity.Windows.{
  events_of, live, throttle_max_keys, prune_map, events_of-prune_map, events_of-record_event,
  length-prune_map-le, length-record_event, live-append, live-live,
}
use nowhere_agent.Identity.Throttle.{
  LoginThrottler, login_max_failures, login_fail_window, login_lockout, prune, prune_email,
  admit_map, admit, admit_email, fail_pair, fail_email, check, fail, key, email_key,
}
use nowhere_agent.Identity.Throttle.Decision.{is_open, check_decides}

-- There is room for `n` more keys in both maps.
pub record Room (n : ℕ) (t : LoginThrottler) : Type 0 where
  pub pairs : length t.failures + n ≤ throttle_max_keys
  pub emails : length t.email_failures + n ≤ throttle_max_keys

-- What a failure does to the email's part and to the sizes, where there is room.
module _ (t : LoginThrottler) (k : String) (now : ℕ) where
  fail_pair_frame :
      length t.failures < throttle_max_keys
      → let t' = fail_pair t k now in
        (t'.email_failures ≡ t.email_failures)
        × (t'.email_locked ≡ t.email_locked)
        × (length t'.failures ≤ length t.failures + 1)
  unfolding fail_pair admit admit_map prune
  fail_pair_frame h = ground (
    arith,
    length-prune_map-le t.failures k now login_fail_window,
    length-record_event (prune_map t.failures k now login_fail_window) k now,
  )

  fail_email_effect :
      length t.email_failures < throttle_max_keys
      → let t' = fail_email t k now in
        (events_of k t'.email_failures
          ≡ live now login_fail_window (events_of k t.email_failures) ++ now ∷ [])
        × (t'.failures ≡ t.failures)
        × (length t'.email_failures ≤ length t.email_failures + 1)
  unfolding fail_email admit_email admit_map prune_email
  fail_email_effect h = ground (
    arith,
    length-prune_map-le t.email_failures k now login_fail_window,
    length-record_event (prune_map t.email_failures k now login_fail_window) k now,
    events_of-record_event (prune_map t.email_failures k now login_fail_window) k k now,
    events_of-prune_map t.email_failures k k now login_fail_window,
    eq_refl k,
  )

  fail_email_locks :
      length t.email_failures < throttle_max_keys
      → login_max_failures
        ≤ length (live now login_fail_window (events_of k t.email_failures) ++ now ∷ [])
      → lookup k (fail_email t k now).email_locked ≡ some (now + login_lockout)
  unfolding fail_email admit_email admit_map prune_email
  fail_email_locks h n = ground (
    arith,
    length-prune_map-le t.email_failures k now login_fail_window,
    events_of-record_event (prune_map t.email_failures k now login_fail_window) k k now,
    events_of-prune_map t.email_failures k k now login_fail_window,
    lookup-insert k k (now + login_lockout) t.email_locked,
    eq_refl k,
  )

module _ (fold : String → String) (email : String) where
  abbrev email_events : LoginThrottler → List ℕ
  email_events t = events_of (email_key fold email) t.email_failures

  fail-Room :
      (t : LoginThrottler) (ip : String) (now n : ℕ)
      → Room (suc n) t
      → Room n (fail fold t email ip now)
  unfolding fail
  fail-Room t ip now n r =
      let t' = fail_pair t (key fold email ip) now in
      ground (
        arith,
        fail_pair_frame t (key fold email ip) now,
        fail_email_effect t' (email_key fold email) now,
      )

  fail_events :
      (t : LoginThrottler) (ip : String) (now : ℕ)
      → Room 1 t
      → email_events (fail fold t email ip now)
        ≡ live now login_fail_window (email_events t) ++ now ∷ []
  unfolding fail
  fail_events t ip now r =
      let t' = fail_pair t (key fold email ip) now in
      ground (
        arith,
        fail_pair_frame t (key fold email ip) now,
        fail_email_effect t' (email_key fold email) now,
      )

  unfoldable pub fail_all : LoginThrottler → List (String × ℕ) → LoginThrottler
  fail_all t [] = t
  fail_all t ((ip, at) ∷ rest) = fail_all (fail fold t email ip at) rest

  abbrev recent : ℕ → LoginThrottler → List ℕ
  recent last t = live last login_fail_window (email_events t)

  -- A failure within the window before `last` is one more that counts at `last`.
  fail-recent :
      (t : LoginThrottler) (ip : String) (at last : ℕ)
      → Room 1 t
      → at ≤ last
      → last < at + login_fail_window
      → length (recent last (fail fold t email ip at)) ≡ length (recent last t) + 1
  fail-recent t ip at last r h k =
      let w = login_fail_window in
      let old = live at w (email_events t) in
      ground (
        arith,
        fail_events t ip at r,
        live-append last w old (at ∷ []),
        live-live at last w (email_events t) h,
        length-append (recent last t) (at ∷ []),
      )

  fail_all-recent :
      (t : LoginThrottler) (attempts : List (String × ℕ)) (last : ℕ)
      → Room (suc (length attempts)) t
      → All (λ a. (a.1 ≤ last) × (last < a.1 + login_fail_window)) attempts
      → (length attempts + length (recent last t) ≤ length (recent last (fail_all t attempts)))
        × Room 1 (fail_all t attempts)
  unfolding fail_all
  fail_all-recent t [] last r h = (omega arith, r)
  fail_all-recent t ((ip, at) ∷ rest) last r h =
      let one : Room 1 t = record { pairs = omega arith; emails = omega arith } in
      let (more, room) =
        fail_all-recent (fail fold t email ip at) rest last (fail-Room t ip at _ r) h.1 in
      (omega (arith, more, fail-recent t ip at last one h.0.0 h.0.1), room)

  -- If one email fails at least five times within the window before the last failure, from whatever
  -- addresses, then every attempt for it is refused from every address until the lockout after the
  -- last failure is over. The maps have room for the keys of these failures.
  pub check-fail_all :
      (t : LoginThrottler) (attempts : List (String × ℕ)) (ip ip' : String) (last now : ℕ)
      → Room (suc (length attempts)) t
      → 4 ≤ length attempts
      → All (λ a. (a.1 ≤ last) × (last < a.1 + login_fail_window)) attempts
      → now < last + login_lockout
      → (check fold (fail fold (fail_all t attempts) email ip last) email ip' now).0 ≡ false
  unfolding fail is_open
  check-fail_all t attempts ip ip' last now r n h soon =
      let t' = fail_all t attempts in
      let t'' = fail_pair t' (key fold email ip) last in
      let (more, room) = fail_all-recent t attempts last r h in
      let five : 5 ≤ length (recent last t' ++ last ∷ []) =
        omega (arith, more, n, length-append (recent last t') (last ∷ [])) in
      ground (
        arith,
        soon,
        five,
        fail_pair_frame t' (key fold email ip) last (omega (arith, room)),
        fail_email_locks t'' (email_key fold email) last,
        check_decides fold (fail fold t' email ip last) email ip' now,
        room,
      )

module _ (t : LoginThrottler) (k j : String) (now : ℕ) (other : k ≢ j) where
  -- A failure changes nothing for the other keys, where there is room.
  fail_pair_other :
      length t.failures < throttle_max_keys
      → (lookup j (fail_pair t k now).locked ≡ lookup j t.locked)
        × (events_of j (fail_pair t k now).failures ≡ events_of j t.failures)
  unfolding fail_pair admit admit_map prune
  fail_pair_other h = ground (
    arith,
    length-prune_map-le t.failures k now login_fail_window,
    events_of-record_event (prune_map t.failures k now login_fail_window) k j now,
    events_of-prune_map t.failures k j now login_fail_window,
    lookup-insert k j (now + login_lockout) t.locked,
    eq_iff k j,
  )

  fail_email_other :
      length t.email_failures < throttle_max_keys
      → (lookup j (fail_email t k now).email_locked ≡ lookup j t.email_locked)
        × (events_of j (fail_email t k now).email_failures ≡ events_of j t.email_failures)
        × ((fail_email t k now).locked ≡ t.locked)
        × ((fail_email t k now).failures ≡ t.failures)
  unfolding fail_email admit_email admit_map prune_email
  fail_email_other h = ground (
    arith,
    length-prune_map-le t.email_failures k now login_fail_window,
    events_of-record_event (prune_map t.email_failures k now login_fail_window) k j now,
    events_of-prune_map t.email_failures k j now login_fail_window,
    lookup-insert k j (now + login_lockout) t.email_locked,
    eq_iff k j,
  )

-- A failure for one email changes no decision for another email, where the keys differ and the maps
-- have room for the new keys.
check-fail_other :
    (fold : String → String) (t : LoginThrottler) (email ip email' ip' : String) (now later : ℕ)
    → Room 1 t
    → key fold email ip ≢ key fold email' ip'
    → email_key fold email ≢ email_key fold email'
    → (check fold (fail fold t email ip now) email' ip' later).0 ≡ (check fold t email' ip' later).0
unfolding fail is_open
check-fail_other fold t email ip email' ip' now later r pair other =
    let t' = fail_pair t (key fold email ip) now in
    ground (
      arith,
      r,
      check_decides fold (fail fold t email ip now) email' ip' later,
      check_decides fold t email' ip' later,
      fail_pair_frame t (key fold email ip) now,
      fail_pair_other t (key fold email ip) (key fold email' ip') now pair,
      fail_email_other t' (email_key fold email) (email_key fold email') now other,
    )
