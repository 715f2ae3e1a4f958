-- ===== src/Identity/Windows.antt =====
-- What internal/identity/throttle.go and otpthrottle.go share: maps from a key to the times of its
-- events, pruned to a sliding window. A time is a number of nanoseconds; `at.After(now - window)`
-- is `now < at + window`.
use nowhere_agent.Base.{
  ℕ, ◌+◌, ◌≤◌, ◌≡◌, refl, String, List, [], ◌∷◌, ◌++◌, none, some, arith, keep, length, ltb, str_eq,
  eq_iff, if◌then◌else◌,
}
use nowhere_agent.Base.Dict.{
  Dict, lookup, insert, delete, has, lookup-insert, lookup-delete, length-insert, length-delete-le,
}

abbrev pub minute : ℕ
minute = 60_000_000_000

abbrev pub throttle_max_keys : ℕ
throttle_max_keys = 100_000

abbrev pub Events : Type 0
Events = Dict (List ℕ)

-- `m[k]`: no events where the key is missing.
abbrev pub events_of : String → Events → List ℕ
events_of k m = elim (lookup k m) [ none ↦ [] | some ats ↦ ats ]

abbrev pub live : ℕ → ℕ → List ℕ → List ℕ
live now window = keep (λ at. ltb now (at + window))

unfoldable pub prune_map : Events → String → ℕ → ℕ → Events
prune_map m k now window = elim (live now window (events_of k m)) [
  | [] ↦ delete k m
  | at ∷ ats ↦ insert k (at ∷ ats) m
]

-- The loop of a sweep over the keys of a map.
unfoldable pub prune_keys : List String → Events → ℕ → ℕ → Events
prune_keys [] m now window = m
prune_keys (k ∷ ks) m now window = prune_keys ks (prune_map m k now window) now window

-- `m[k] = append(m[k], now)`
unfoldable pub record_event : Events → String → ℕ → Events
record_event m k now = insert k (events_of k m ++ now ∷ []) m

-- A pruned key holds its live events; no other key changes.
pub events_of-prune_map :
    (m : Events) (k j : String) (now window : ℕ)
    → events_of j (prune_map m k now window)
      ≡ (if str_eq k j then live now window (events_of j m) else events_of j m)
unfolding prune_map
events_of-prune_map m k j now window =
    ground (
      arith,
      eq_iff k j,
      lookup-delete k j m,
      lookup-insert k j (live now window (events_of k m)) m,
    )

pub events_of-record_event :
    (m : Events) (k j : String) (now : ℕ)
    → events_of j (record_event m k now)
      ≡ (if str_eq k j then events_of j m ++ now ∷ [] else events_of j m)
unfolding record_event
events_of-record_event m k j now =
    ground (arith, eq_iff k j, lookup-insert k j (events_of k m ++ now ∷ []) m)

pub length-prune_map-le :
    (m : Events) (k : String) (now window : ℕ) → length (prune_map m k now window) ≤ length m
unfolding prune_map
length-prune_map-le m k now window =
    ground (arith, length-delete-le k m, length-insert k (live now window (events_of k m)) m)

pub length-prune_keys-le :
    (ks : List String) (m : Events) (now window : ℕ)
    → length (prune_keys ks m now window) ≤ length m
unfolding prune_keys
length-prune_keys-le [] m now window = omega arith
length-prune_keys-le (k ∷ ks) m now window = omega (
  arith,
  length-prune_keys-le ks (prune_map m k now window) now window,
  length-prune_map-le m k now window,
)

pub length-record_event :
    (m : Events) (k : String) (now : ℕ)
    → length (record_event m k now) ≡ (if has k m then length m else length m + 1)
unfolding record_event
length-record_event m k now = ground (arith, length-insert k (events_of k m ++ now ∷ []) m)

pub live-append :
    (now window : ℕ) (xs ys : List ℕ)
    → live now window (xs ++ ys) ≡ live now window xs ++ live now window ys
live-append now window [] ys = refl
live-append now window (x ∷ xs) ys = ground (arith, live-append now window xs ys)

-- Later in time fewer events are live, and pruning early loses none of them.
pub live-live :
    (now later window : ℕ) (xs : List ℕ)
    → now ≤ later
    → live later window (live now window xs) ≡ live later window xs
live-live now later window [] h = refl
live-live now later window (x ∷ xs) h = ground (arith, live-live now later window xs h)
