-- ===== src/Context/Rounds/Drops.antt =====
-- What internal/contextmgmt/rounds.go drops: each call that drops something makes the conversation
-- smaller.
use nowhere_agent.Base.{
  ℕ, zero, suc, ◌+◌, ◌-◌, ◌<◌, ◌≡◌, refl, Bool, true, false, List, [], ◌∷◌, arith, length, drop,
  ◌⊎◌, inl, inr, ap, sym, ◌∙◌, subst, Bool-cases,
}
use nowhere_agent.Provider.{Message, is_assistant}
use nowhere_agent.Context.Pairing.{ensure_pairing}
use nowhere_agent.Context.Pairing.Measure.{Smaller, assistants-drop, Smaller-ensure_pairing}
use nowhere_agent.Context.Rounds.{
  Round, round_at, group_from, group_rounds, is_summary, leads_with_summary, head_and_from,
  drop_oldest_keeping_summary, drop_oldest_round_preserving_summary,
}
use nowhere_agent.Context.Rounds.Partition.{round_at_bounds, drop_later}

round_at-user :
    (i : ℕ) (m : Message) (ms : List Message)
    → is_assistant m ≡ false
    → (round_at i m ms).end ≡ i + 1
unfolding round_at
round_at-user i m ms u = ground arith

-- A list without the round that begins it is smaller, also behind a message that stays.
Smaller-round :
    (i k : ℕ) (m : Message) (ms : List Message)
    → (round_at i m ms).end ≡ i + suc k
    → Smaller (drop k ms) (m ∷ ms)
Smaller-round i k m ms e = elim (Bool-cases (is_assistant m)) [
  | inl a ↦ inl (ground (arith, assistants-drop k ms))
  | inr u ↦
      let none_more : k ≡ 0 = omega (arith, e, round_at-user i m ms u) in
      inr (rw none_more (ground arith))
]

Smaller-cons :
    (m : Message) (xs ys : List Message)
    → is_assistant m ≡ false
    → Smaller xs ys
    → Smaller (m ∷ xs) (m ∷ ys)
Smaller-cons m xs ys u h = ground arith

-- The first two rounds of a conversation.
first_round :
    (m : Message) (ms : List Message)
    → group_rounds (m ∷ ms)
      ≡ round_at 0 m ms ∷ group_from (length ms) (round_at 0 m ms).end (m ∷ ms)
unfolding group_rounds group_from
first_round m ms = refl

group_from-inv :
    (fuel i : ℕ) (msgs rest : List Message) (r : Round) (rs : List Round)
    → drop i msgs ≡ rest
    → group_from fuel i msgs ≡ r ∷ rs
    → (m : Message) × (ms : List Message) × (rest ≡ m ∷ ms) × (r ≡ round_at i m ms)
unfolding group_from
group_from-inv zero i msgs rest r rs e h = cc
group_from-inv (suc fuel) i msgs [] r rs e h = ground arith
group_from-inv (suc fuel) i msgs (m ∷ ms) r rs e h = (m, ms, refl, ground arith)

-- A later index as the sum that `drop_later` wants.
past : (i n : ℕ) → i < n → n ≡ i + suc (n - suc i)
past i n h = omega arith

module _ (m : Message) (ms : List Message) where
  -- the list after the first round, and the list without the second round
  dropped_first : Smaller (drop (round_at 0 m ms).end (m ∷ ms)) (m ∷ ms)
  dropped_first =
      let e = past 0 _ (round_at_bounds 0 m ms).0 in
      rw (e, drop_later 0 _ (m ∷ ms) refl) (Smaller-round 0 _ m ms e)

  dropped_second :
      (r : Round) (rs : List Round)
      → is_assistant m ≡ false
      → group_from (length ms) (round_at 0 m ms).end (m ∷ ms) ≡ r ∷ rs
      → Smaller (head_and_from r.end (m ∷ ms)) (m ∷ ms)
  unfolding head_and_from
  dropped_second r rs u h =
      let one = round_at-user 0 m ms u in
      let (m1, ms1, e1, er) = group_from-inv (length ms) _ (m ∷ ms) _ r rs refl h in
      let i = (round_at 0 m ms).end in
      let k = r.end - suc i in
      let ends : r.end ≡ (round_at i m1 ms1).end = ap (λ q. q.end) er in
      let from : r.end ≡ i + suc k = past i r.end (omega (arith, ends, round_at_bounds i m1 ms1)) in
      let cut : drop r.end (m ∷ ms) ≡ drop k ms1 =
        ap (λ n. drop n (m ∷ ms)) from ∙ drop_later i k (m ∷ ms) e1 in
      let same : ms ≡ m1 ∷ ms1 = sym (ap (λ n. drop n (m ∷ ms)) one) ∙ e1 in
      let less =
        Smaller-cons m (drop k ms1) (m1 ∷ ms1) u (Smaller-round i k m1 ms1 (sym ends ∙ from)) in
      subst (λ l. Smaller (m ∷ l) (m ∷ ms)) (sym cut)
        (subst (λ l. Smaller (m ∷ drop k ms1) (m ∷ l)) (sym same) less)

  is_summary-user : is_summary m ≡ true → is_assistant m ≡ false
  unfolding is_summary
  is_summary-user h = ground arith

  module _ (rs : List Round) (e : group_from (length ms) (round_at 0 m ms).end (m ∷ ms) ≡ rs) where
    -- What the calls return, by the second round and by whether the first message is a summary.
    keeping_result :
        (drop_oldest_keeping_summary (m ∷ ms) ≡ (m ∷ ms, false))
        ⊎ ((r : Round) × (rest : List Round) × (rs ≡ r ∷ rest)
            × (is_summary m ≡ true)
            × (drop_oldest_keeping_summary (m ∷ ms)
                ≡ (ensure_pairing (head_and_from r.end (m ∷ ms)), true)))
    unfolding drop_oldest_keeping_summary leads_with_summary
    keeping_result = ground (arith, first_round m ms)

    preserving_result :
        (drop_oldest_round_preserving_summary (m ∷ ms) ≡ (m ∷ ms, false))
        ⊎ (drop_oldest_round_preserving_summary (m ∷ ms)
            ≡ (ensure_pairing (drop (round_at 0 m ms).end (m ∷ ms)), true))
        ⊎ ((r : Round) × (rest : List Round) × (rs ≡ r ∷ rest)
            × (is_summary m ≡ true)
            × (drop_oldest_round_preserving_summary (m ∷ ms)
                ≡ (ensure_pairing (head_and_from r.end (m ∷ ms)), true)))
    unfolding drop_oldest_round_preserving_summary leads_with_summary
    preserving_result = ground (arith, first_round m ms)

-- A result of one of the calls: refused, or smaller.
abbrev Shrinks : List Message × Bool → List Message → Type 0
Shrinks r msgs = r.1 ≡ true → Smaller r.0 msgs

refused-Shrinks : (msgs ys : List Message) → Shrinks (ys, false) msgs
refused-Shrinks msgs ys h = cc

pub keeping_summary-Smaller :
    (msgs : List Message)
    → (drop_oldest_keeping_summary msgs).1 ≡ true
    → Smaller (drop_oldest_keeping_summary msgs).0 msgs
unfolding drop_oldest_keeping_summary group_rounds group_from
keeping_summary-Smaller [] = λ h. cc
keeping_summary-Smaller (m ∷ ms) = elim (keeping_result m ms _ refl) [
  | inl refused ↦ subst (λ r. Shrinks r (m ∷ ms)) (sym refused) (refused-Shrinks (m ∷ ms) (m ∷ ms))
  | inr (r, rest, two, led, e) ↦
      subst (λ r. Shrinks r (m ∷ ms)) (sym e)
        (λ _.
          Smaller-ensure_pairing _ (m ∷ ms)
            (dropped_second m ms r rest (is_summary-user m ms led) two))
]

pub preserving_summary-Smaller :
    (msgs : List Message)
    → (drop_oldest_round_preserving_summary msgs).1 ≡ true
    → Smaller (drop_oldest_round_preserving_summary msgs).0 msgs
unfolding drop_oldest_round_preserving_summary group_rounds group_from
preserving_summary-Smaller [] = λ h. cc
preserving_summary-Smaller (m ∷ ms) = elim (preserving_result m ms _ refl) [
  | inl refused ↦ subst (λ r. Shrinks r (m ∷ ms)) (sym refused) (refused-Shrinks (m ∷ ms) (m ∷ ms))
  | inr (inl e) ↦
      subst (λ r. Shrinks r (m ∷ ms)) (sym e)
        (λ _. Smaller-ensure_pairing _ (m ∷ ms) (dropped_first m ms))
  | inr (inr (r, rest, two, led, e)) ↦
      subst (λ r. Shrinks r (m ∷ ms)) (sym e)
        (λ _.
          Smaller-ensure_pairing _ (m ∷ ms)
            (dropped_second m ms r rest (is_summary-user m ms led) two))
]
