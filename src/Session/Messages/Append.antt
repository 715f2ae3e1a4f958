-- ===== src/Session/Messages/Append.antt =====
-- The numbers and ids of appended messages, and paging by id (internal/session/memmessagestore.go).
use nowhere_agent.Base.{
  ℕ, zero, suc, ◌+◌, ◌<◌, ◌≤◌, ◌≡◌, refl, false, ap, ltb, lt→ltb, tests, ◌⊎◌, ◌∙◌, if◌then◌else◌,
  String, List, [], ◌∷◌, ◌++◌, some, arith, length, take, drop, keep, get_elem?, str_eq, eq_iff,
  Bool-cases, inl, inr, subst, sym,
}
use nowhere_agent.Base.Int.{ℤ, pos, negsuc, is_positive}
use nowhere_agent.Session.Store.{entries-insert}
use nowhere_agent.Session.Messages.{
  StoredMessage, MemMessageStore, messages_for, append_message, messages_page, messages_after,
  is_after, is_unassigned,
}
use nowhere_agent.Session.Messages.Windows.{windows_lem}

-- An id that the store assigns is above the bound; a reserved one is negative and says nothing.
abbrev Above : ℕ → ℤ → Type 0
Above low (pos n) = low < n
Above low (negsuc n) = Unit

abbrev raised : ℕ → ℤ → ℕ
raised low (pos n) = n
raised low (negsuc n) = low

-- From the position `i` on, the numbers are the positions; the ids that are not negative rise above
-- `low` and are at most `high`.
unfoldable pub InOrder : ℕ → ℕ → ℕ → List StoredMessage → Type 0
InOrder i low high [] = low ≤ high
InOrder i low high (x ∷ xs) =
    (x.seq ≡ i) × Above low x.id × InOrder (suc i) (raised low x.id) high xs

-- A larger bound holds as well.
InOrder-raise :
    (i low high high' : ℕ) (xs : List StoredMessage)
    → high ≤ high'
    → InOrder i low high xs
    → InOrder i low high' xs
unfolding InOrder
InOrder-raise i low high high' [] h o = omega (arith, h, o)
InOrder-raise i low high high' (x ∷ xs) h (a, b, o) =
    (a, b, InOrder-raise (suc i) (raised low x.id) high high' xs h o)

int_cases : (z : ℤ) → ((n : ℕ) × (z ≡ pos n)) ⊎ ((n : ℕ) × (z ≡ negsuc n))
int_cases (pos n) = inl (n, refl)
int_cases (negsuc n) = inr (n, refl)

-- A message with the next id, or with a reserved one.
abbrev Next : ℕ → ℕ → ℤ → Type 0
Next high high' (pos n) = (n ≡ high') × (high' ≡ suc high)
Next high high' (negsuc n) = high' ≡ high

InOrder-append :
    (i low high high' : ℕ) (xs : List StoredMessage) (y : StoredMessage)
    → InOrder i low high xs
    → Next high high' y.id
    → y.seq ≡ i + length xs
    → InOrder i low high' (xs ++ y ∷ [])
unfolding InOrder
InOrder-append i low high high' [] y o e f =
    elim y.id as (λ z. Next high high' z → (y.seq ≡ i) × Above low z × (raised low z ≤ high')) [
      | pos n ↦ λ q. (omega (arith, f), omega (arith, q, o), omega (arith, q))
      | negsuc n ↦ λ q. (omega (arith, f), tt, omega (arith, q, o))
    ]
      e
InOrder-append i low high high' (x ∷ xs) y (a, b, o) e f =
    (a, b, InOrder-append (suc i) (raised low x.id) high high' xs y o e (omega (arith, f)))

assigned_or_kept :
    (high : ℕ) (id : ℤ)
    → is_positive id ≡ false
    → let high' = if is_unassigned id then suc high else high in
      Next high high' (if is_unassigned id then pos high' else id) × (high ≤ high')
assigned_or_kept high (pos zero) h = ((refl, refl), omega arith)
assigned_or_kept high (pos (suc n)) h = absurd (ground (arith, h))
assigned_or_kept high (negsuc n) h = (refl, omega arith)

-- Appending a message without an id, or with a negative one, as steps reserve them, keeps every
-- conversation in order: each message has its position as number, and the ids that the store assigns
-- rise, so that none is given twice.
pub append_message-InOrder :
    (m : MemMessageStore) (msg : StoredMessage) (session : String) (now : ℕ)
    → is_positive msg.id ≡ false
    → InOrder 0 0 m.next (messages_for m session)
    → let m' = (append_message m msg now).0 in InOrder 0 0 m'.next (messages_for m' session)
unfolding append_message
append_message-InOrder m msg session now h o =
    let (m', msg') = append_message m msg now in
    let frame =
      entries-insert msg.session session (messages_for m msg.session ++ msg' ∷ []) m.by_session in
    let (next, more) = assigned_or_kept m.next msg.id h in
    elim (Bool-cases (str_eq msg.session session)) [
      | inl e ↦
          let same : msg.session ≡ session = ground (arith, e, eq_iff msg.session session) in
          let grown : messages_for m' session ≡ messages_for m session ++ msg' ∷ [] =
            ground (arith, e, frame, same) in
          subst (InOrder 0 0 m'.next) (sym grown) (
            InOrder-append 0 0 m.next m'.next (messages_for m session) msg' o next
              (ground (arith, same)))
      | inr e ↦
          let kept : messages_for m' session ≡ messages_for m session = ground (arith, e, frame) in
          subst (InOrder 0 0 m'.next) (sym kept)
            (InOrder-raise 0 0 m.next m'.next (messages_for m session) more o)
    ]

not_less : (m n : ℕ) → n ≤ m → ltb m n ≡ false
not_less m n h = grind (tests, h)

-- All messages of a conversation in order that have no reserved id are behind a smaller id.
keep_after_all :
    (i low high n : ℕ) (xs : List StoredMessage)
    → InOrder i low high xs
    → n ≤ low
    → keep (is_after (pos n)) xs ≡ keep (λ x. is_positive x.id) xs
unfolding InOrder
keep_after_all i low high n [] o h = refl
keep_after_all i low high n (x ∷ xs) (a, b, o) h = elim (int_cases x.id) [
  | inl (k, e) ↦
      let first : low < k = subst (Above low) e b in
      let rest =
        keep_after_all (suc i) k high n xs (subst (λ z. InOrder (suc i) (raised low z) high xs) e o)
          (omega arith) in
      rw (e, rest, lt→ltb n k (omega arith), lt→ltb 0 k (omega arith)) refl
  | inr (k, e) ↦ rw e (
      keep_after_all (suc i) low high n xs (subst (λ z. InOrder (suc i) (raised low z) high xs) e o)
        h)
]

-- An id that the store assigned is above the bound below.
id_above :
    (i low high j n : ℕ) (xs : List StoredMessage) (y : StoredMessage)
    → InOrder i low high xs
    → get_elem? xs j ≡ some y
    → y.id ≡ pos n
    → low < n
unfolding InOrder
id_above i low high j n [] y o e f = absurd (ground (arith, e))
id_above i low high zero n (x ∷ xs) y (a, b, o) e f =
    let same : x.id ≡ pos n = ground (arith, e, f) in subst (Above low) same b
id_above i low high (suc j) n (x ∷ xs) y (a, b, o) e f =
    let later = id_above (suc i) (raised low x.id) high j n xs y o e f in
    elim (int_cases x.id) [
      | inl (k, g) ↦
          let first : low < k = subst (Above low) g b in
          omega (arith, first, subst (λ z. raised low z < n) g later)
      | inr (k, g) ↦ subst (λ z. raised low z < n) g later
    ]

-- The messages behind the id of the one at `j` are those from the next position on whose ids are not
-- reserved.
keep_after-drop :
    (i low high j n : ℕ) (xs : List StoredMessage) (y : StoredMessage)
    → InOrder i low high xs
    → get_elem? xs j ≡ some y
    → y.id ≡ pos n
    → keep (is_after (pos n)) xs ≡ keep (λ x. is_positive x.id) (drop (suc j) xs)
unfolding InOrder
keep_after-drop i low high j n [] y o e f = refl
keep_after-drop i low high zero n (x ∷ xs) y (a, b, o) e f =
    let same : x.id ≡ pos n = ground (arith, e, f) in
    rw (same, not_less n n (omega arith))
      (keep_after_all (suc i) n high n xs
        (subst (λ z. InOrder (suc i) (raised low z) high xs) same o) (omega arith))
keep_after-drop i low high (suc j) n (x ∷ xs) y (a, b, o) e f =
    let later = id_above (suc i) (raised low x.id) high j n xs y o e f in
    let rest = keep_after-drop (suc i) (raised low x.id) high j n xs y o e f in
    elim (int_cases x.id) [
      | inl (k, g) ↦
          let below : k < n = subst (λ z. raised low z < n) g later in
          rw (g, not_less n k (omega arith)) rest
      | inr (k, g) ↦ rw g rest
    ]

-- In a conversation in order, the page behind a message with an id that the store has assigned holds,
-- for a positive limit `k`, the next `k` messages that have no reserved id, or those that are left.
pub messages_page-drop :
    (m : MemMessageStore) (session : String) (j k n : ℕ) (y : StoredMessage)
    → InOrder 0 0 m.next (messages_for m session)
    → get_elem? (messages_for m session) j ≡ some y
    → y.id ≡ pos n
    → 0 < k
    → messages_page m session y.id (pos k)
      ≡ take k (keep (λ x. is_positive x.id) (drop (suc j) (messages_for m session)))
unfolding messages_after
messages_page-drop m session j k n y o e f h = rw f (
    (windows_lem m session (pos n) k h).0
    ∙ ap (take k) (keep_after-drop 0 0 m.next j n (messages_for m session) y o e f))
