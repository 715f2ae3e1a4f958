-- ===== src/Session/Broker/Stretches.antt =====
-- The frames behind an offset, as a stretch of all frames of a stream.
use nowhere_agent.Base.{
  ℕ, zero, suc, ◌+◌, ◌-◌, ◌≤◌, ◌<◌, ◌≡◌, refl, sym, ap, ◌∙◌, ltb, ltb→lt, lt→ltb, List, [], ◌∷◌,
  some, arith, length, length-drop, drop, keep, Bool-cases, inl, inr,
}
use nowhere_agent.Session.Broker.{StreamEvent}
use nowhere_agent.Session.Broker.Log.{Log, numbered, last, retained, read_log}
use nowhere_agent.Session.Broker.Numbers.{length-numbered, drop_nothing}

pub drop-numbered :
    (k n : ℕ) (xs : List StreamEvent) → drop k (numbered n xs) ≡ numbered (n + k) (drop k xs)
drop-numbered zero n xs = let here : n ≡ n + 0 = omega arith in ap (λ i. numbered i xs) here
drop-numbered (suc k) n [] = refl
drop-numbered (suc k) n (x ∷ xs) =
    let step : suc n + k ≡ n + suc k = omega arith in
    drop-numbered k (suc n) xs ∙ ap (λ i. numbered i (drop k xs)) step

-- Frames behind an offset are all of those that come from the next position on.
all_after :
    (after n : ℕ) (xs : List StreamEvent)
    → after < n
    → keep (λ ev. ltb after ev.offset) (numbered n xs) ≡ numbered n xs
all_after after n [] h = refl
all_after after n (x ∷ xs) h =
    rw (lt→ltb after n h)
      (ap (λ evs. record x { offset = n } ∷ evs) (all_after after (suc n) xs (omega arith)))

keep-numbered :
    (after k n : ℕ) (xs : List StreamEvent)
    → n + k ≡ suc after
    → keep (λ ev. ltb after ev.offset) (numbered n xs) ≡ numbered (suc after) (drop k xs)
keep-numbered after zero n xs h =
    let here : n ≡ suc after = omega arith in
    all_after after n xs (omega arith) ∙ ap (λ i. numbered i xs) here
keep-numbered after (suc k) n [] h = refl
keep-numbered after (suc k) n (x ∷ xs) h = elim (Bool-cases (ltb after n)) [
  | inl e ↦ absurd (ground (arith, h, ltb→lt after n e))
  | inr e ↦ rw e (keep-numbered after k (suc n) xs (omega arith))
]

-- The retained frames, as a stretch of all of them.
retained-numbered :
    (capacity : ℕ) (l : Log)
    → let i = length l.published - l.settled - capacity in
      retained capacity l ≡ numbered (1 + l.settled + i) (drop i (drop l.settled l.published))
retained-numbered capacity l =
    let kept = drop l.settled l.published in
    let m : length (numbered (1 + l.settled) kept) - capacity
        ≡ length l.published - l.settled - capacity =
      ap (λ n. n - capacity)
        (length-numbered (1 + l.settled) kept ∙ length-drop l.settled l.published) in
    ap (last capacity) (drop-numbered l.settled 1 l.published)
    ∙ ap (λ i. drop i (numbered (1 + l.settled) kept)) m
    ∙ drop-numbered _ (1 + l.settled) kept

drop-drop : (k i : ℕ) (xs : List StreamEvent) → drop k (drop i xs) ≡ drop (i + k) xs
drop-drop k zero xs = let here : k ≡ 0 + k = omega arith in ap (λ n. drop n xs) here
drop-drop k (suc i) [] = drop_nothing k ∙ sym (drop_nothing (suc i + k))
drop-drop k (suc i) (x ∷ xs) =
    let step : suc (i + k) ≡ suc i + k = omega arith in
    drop-drop k i xs ∙ ap (λ n. drop n (x ∷ xs)) step

pub read_log-numbered :
    (capacity after : ℕ) (l : Log)
    → l.settled ≤ after
    → length l.published ≤ after + capacity
    → read_log capacity after (some l) ≡ numbered (suc after) (drop after l.published)
read_log-numbered capacity after l s c =
    let i = length l.published - l.settled - capacity in
    let k = after - (l.settled + i) in
    let fits : l.settled + i ≤ after = ground (arith, s, c) in
    let first : 1 + l.settled + i + k ≡ suc after = omega arith in
    let there : l.settled + (i + k) ≡ after = omega arith in
    ap (keep (λ ev. ltb after ev.offset)) (retained-numbered capacity l)
    ∙ keep-numbered after k (1 + l.settled + i) (drop i (drop l.settled l.published)) first
    ∙ ap (numbered (suc after)) (
        drop-drop k i (drop l.settled l.published)
        ∙ drop-drop (i + k) l.settled l.published
        ∙ ap (λ n. drop n l.published) there)
