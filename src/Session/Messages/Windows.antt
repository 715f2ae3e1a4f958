-- ===== src/Session/Messages/Windows.antt =====
-- The windows of a conversation that internal/session/memmessagestore.go reads.
use nowhere_agent.Base.{
  ℕ, zero, suc, ◌-◌, ◌<◌, ◌≡◌, refl, String, List, [], ◌∷◌, arith, length, take, drop, keep,
  reverse, keep-reverse, reverse-take-reverse, Bool-cases, inl, inr, take_empty, leb,
}
use nowhere_agent.Base.Int.{ℤ, pos}
use nowhere_agent.Session.Messages.{
  StoredMessage, MemMessageStore, messages_for, messages_after, messages_page, messages_tail,
  page_from, tail_from, is_after, is_before,
}

page_from-take :
    (after : ℤ) (k n : ℕ) (xs : List StoredMessage)
    → n < k
    → page_from after (pos k) n xs ≡ take (k - n) (keep (is_after after) xs)
unfolding page_from
page_from-take after k n [] h = ground (arith, take_empty {A = StoredMessage} (k - n))
page_from-take after k n (x ∷ xs) h = elim (Bool-cases (is_after after x)) [
  | inl e ↦ elim (Bool-cases (leb k (suc n))) [
    | inl f ↦ let step : k - n ≡ suc zero = ground (arith, f) in ground (arith, e, f, step)
    | inr f ↦
        let step : k - n ≡ suc (k - suc n) = ground (arith, f) in
        ground (arith, e, f, step, page_from-take after k (suc n) xs (ground (arith, f)))
  ]
  | inr e ↦ ground (arith, e, page_from-take after k n xs h)
]

tail_from-take :
    (before : ℤ) (n : ℕ) (xs : List StoredMessage)
    → tail_from before n xs ≡ take n (keep (is_before before) xs)
unfolding tail_from
tail_from-take before zero xs = refl
tail_from-take before (suc n) [] = refl
tail_from-take before (suc n) (x ∷ xs) =
    ground (arith, tail_from-take before n xs, tail_from-take before (suc n) xs)

-- For a positive limit, a page is the first messages behind its cursor, and a tail the last ones
-- before its cursor, both in the conversation's order and as many as the limit allows.
pub windows_lem :
    (m : MemMessageStore) (session : String) (cursor : ℤ) (k : ℕ)
    → 0 < k
    → let older = keep (is_before cursor) (messages_for m session) in
      (messages_page m session cursor (pos k) ≡ take k (messages_after m session cursor))
      × (messages_tail m session cursor (pos k) ≡ drop (length older - k) older)
unfolding messages_page messages_after messages_tail
windows_lem m session cursor k h =
    let xs = messages_for m session in
    (
      ground (arith, h, page_from-take cursor k 0 xs h),
      ground (
        arith,
        tail_from-take cursor k (reverse xs),
        keep-reverse (is_before cursor) xs,
        reverse-take-reverse k (keep (is_before cursor) xs),
      ),
    )
