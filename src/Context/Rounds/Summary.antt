-- ===== src/Context/Rounds/Summary.antt =====
-- A compression summary stays in front when rounds are dropped behind it, and every list that
-- internal/contextmgmt/rounds.go returns for a drop is a repaired one.
use Prim.Native.String.{◌++◌ as append}
use text.Mathlib.TextPositions.{starts_with-append}
use nowhere_agent.Base.{
  ℕ, ◌≤◌, ◌≡◌, String, true, false, List, [], ◌∷◌, arith, length, drop, inl, inr, ap, ◌⊎◌,
}
use nowhere_agent.Provider.{Block, Message, user, is_tool_result, text_message}
use nowhere_agent.Context.Pairing.{ensure_pairing}
use nowhere_agent.Context.Pairing.Steps.{first_stays}
use nowhere_agent.Context.Rounds.{
  Round, group_rounds, is_summary, leads_with_summary, head_and_from, summary_prefix,
  drop_oldest_keeping_summary, drop_oldest_round_preserving_summary,
}

-- A drop is refused, keeps the head before a later part, or (with no summary) keeps a later part.
keeping_cases :
    (msgs : List Message)
    → (drop_oldest_keeping_summary msgs ≡ (msgs, false))
      ⊎ ((r0 r : Round) × (rest : List Round) × (group_rounds msgs ≡ r0 ∷ r ∷ rest)
          × (drop_oldest_keeping_summary msgs ≡ (ensure_pairing (head_and_from r.end msgs), true)))
unfolding drop_oldest_keeping_summary
keeping_cases msgs = ground arith

preserving_cases :
    (msgs : List Message)
    → (drop_oldest_round_preserving_summary msgs ≡ (msgs, false))
      ⊎ ((r0 r : Round) × (rest : List Round) × (group_rounds msgs ≡ r0 ∷ r ∷ rest)
          × (drop_oldest_round_preserving_summary msgs
              ≡ (ensure_pairing (head_and_from r.end msgs), true)))
      ⊎ ((r : Round) × (rest : List Round) × (group_rounds msgs ≡ r ∷ rest)
          × (leads_with_summary msgs ≡ false)
          × (drop_oldest_round_preserving_summary msgs ≡ (ensure_pairing (drop r.end msgs), true)))
unfolding drop_oldest_round_preserving_summary
preserving_cases msgs = ground arith

-- What a drop returns is the repair of some list.
pub keeping_summary_repaired :
    (msgs : List Message)
    → (drop_oldest_keeping_summary msgs).1 ≡ true
    → (xs : List Message) × ((drop_oldest_keeping_summary msgs).0 ≡ ensure_pairing xs)
keeping_summary_repaired msgs h = elim (keeping_cases msgs) [
  | inl e ↦ absurd (ground arith)
  | inr (r0, r, rest, _, e) ↦ (head_and_from r.end msgs, ap (λ x. x.0) e)
]

pub preserving_summary_repaired :
    (msgs : List Message)
    → (drop_oldest_round_preserving_summary msgs).1 ≡ true
    → (xs : List Message) × ((drop_oldest_round_preserving_summary msgs).0 ≡ ensure_pairing xs)
preserving_summary_repaired msgs h = elim (preserving_cases msgs) [
  | inl e ↦ absurd (ground arith)
  | inr (inl (r0, r, rest, _, e)) ↦ (head_and_from r.end msgs, ap (λ x. x.0) e)
  | inr (inr (r, rest, _, _, e)) ↦ (drop r.end msgs, ap (λ x. x.0) e)
]

-- Where both refuse, there is at most one round.
pub drops_refused :
    (msgs : List Message)
    → (drop_oldest_round_preserving_summary msgs).1 ≡ false
    → (drop_oldest_keeping_summary msgs).1 ≡ false
    → length (group_rounds msgs) ≤ 1
unfolding drop_oldest_round_preserving_summary drop_oldest_keeping_summary
drops_refused msgs h k = ground arith

summary_content :
    (m : Message)
    → is_summary m ≡ true
    → (b : Block) × (bs : List Block) × (m.content ≡ b ∷ bs)
      × (is_tool_result b ≡ false)
      × (m.role ≡ user)
unfolding is_summary
summary_content m h = ground arith

pub ensure_pairing-leads :
    (m : Message) (xs : List Message)
    → is_summary m ≡ true
    → leads_with_summary (ensure_pairing (m ∷ xs)) ≡ true
unfolding leads_with_summary is_summary
ensure_pairing-leads m xs h =
    let (b, bs, e, plain, u) = summary_content m h in
    let (rest, kept, e') = first_stays m b bs xs u e plain in ground arith

leads-head_and_from :
    (n : ℕ) (msgs : List Message)
    → leads_with_summary msgs ≡ true
    → leads_with_summary (ensure_pairing (head_and_from n msgs)) ≡ true
unfolding head_and_from leads_with_summary
leads-head_and_from n [] h = cc
leads-head_and_from n (m ∷ ms) h = ensure_pairing-leads m (drop n (m ∷ ms)) h

module _ (msgs : List Message) (led : leads_with_summary msgs ≡ true) where
  pub keeping_summary-leads :
      (drop_oldest_keeping_summary msgs).1 ≡ true
      → leads_with_summary (drop_oldest_keeping_summary msgs).0 ≡ true
  keeping_summary-leads h = elim (keeping_cases msgs) [
    | inl e ↦ absurd (ground arith)
    | inr (r0, r, rest, _, e) ↦ ground (arith, leads-head_and_from r.end msgs)
  ]

  pub preserving_summary-leads :
      (drop_oldest_round_preserving_summary msgs).1 ≡ true
      → leads_with_summary (drop_oldest_round_preserving_summary msgs).0 ≡ true
  preserving_summary-leads h = elim (preserving_cases msgs) [
    | inl e ↦ absurd (ground arith)
    | inr (inl (r0, r, rest, _, e)) ↦ ground (arith, leads-head_and_from r.end msgs)
    | inr (inr (r, rest, _, other, e)) ↦ absurd (ground arith)
  ]

pub summary_message-is_summary :
    (s : String) → is_summary (text_message user (append summary_prefix s)) ≡ true
unfolding is_summary
summary_message-is_summary s = starts_with-append summary_prefix s
