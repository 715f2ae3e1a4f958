-- ===== src/Session/Store/Pages/Walk.antt =====
-- Following the cursors of the conversation list (internal/session/memstore.go).
use nowhere_agent.Base.{
  ℕ, zero, suc, ◌+◌, ◌-◌, ◌<◌, ◌≤◌, ◌≡◌, refl, sym, subst, ap, ◌∙◌, String, Bool, true, false, List,
  [], ◌∷◌, ◌++◌, Option, none, some, arith, length, take, drop, keep, get_elem?, get_elem?-some,
  if◌then◌else◌, All, append_empty, Bool-cases, inl, inr, ltb,
}
use nowhere_agent.Base.Int.{ℤ, is_positive, clamp}
use nowhere_agent.Base.TextOrder.{text_less_asym}
use nowhere_agent.Session.Types.{Session, SessionCursor, SessionPage}
use nowhere_agent.Session.Store.{
  values, listed_before, below_cursor, below, page_of, listed, list_sessions_by_user,
}
use nowhere_agent.Session.Store.Runs.{MemStore}
use nowhere_agent.Session.Store.Pages.{
  Apart, Listed, listed_before_asym, sort-Listed, keep-Apart, cursor_at, below-All,
}

All_at :
    (P : Session → Type 0) (ss : List Session) (j : ℕ) (s : Session)
    → All P ss
    → get_elem? ss j ≡ some s
    → P s
All_at P [] j s a e = absurd (ground (arith, e))
All_at P (t ∷ ss) zero s a e = let same : t ≡ s = ground (arith, e) in subst P same a.0
All_at P (t ∷ ss) (suc j) s a e = All_at P ss j s a.1 e

-- Behind the cursor of the session at `j` stand the sessions that follow it.
below-drop :
    (ss : List Session) (j : ℕ) (s : Session)
    → Listed ss
    → get_elem? ss j ≡ some s
    → keep (below_cursor (cursor_at s)) ss ≡ drop (suc j) ss
unfolding below_cursor listed_before
below-drop [] j s l e = refl
below-drop (t ∷ ss) zero s l e =
    let same : t ≡ s = ground (arith, e) in
    ground (arith, same, text_less_asym t.id t.id, below-All t ss l.0)
below-drop (t ∷ ss) (suc j) s l e =
    let before : listed_before t s ≡ true = All_at (λ u. listed_before t u ≡ true) ss j s l.0 e in
    ground (arith, below-drop ss j s l.1 e, listed_before_asym t s before)

drop_empty : (n : ℕ) → drop {A = Session} n [] ≡ []
drop_empty zero = refl
drop_empty (suc n) = refl

drop-drop : (n i : ℕ) (ss : List Session) → drop n (drop i ss) ≡ drop (i + n) ss
drop-drop n zero ss = ground arith
drop-drop n (suc i) [] = ground (arith, drop_empty n, drop_empty (suc i + n))
drop-drop n (suc i) (s ∷ ss) =
    let step : suc i + n ≡ suc (i + n) = omega arith in
    drop-drop n i ss ∙ ap (λ k. drop k (s ∷ ss)) (sym step)

get_elem?-drop : (i j : ℕ) (ss : List Session) → get_elem? (drop i ss) j ≡ get_elem? ss (i + j)
get_elem?-drop zero j ss = ground arith
get_elem?-drop (suc i) j [] = refl
get_elem?-drop (suc i) j (s ∷ ss) = ground (arith, get_elem?-drop i j ss)

take-drop : (n : ℕ) (ss : List Session) → take n ss ++ drop n ss ≡ ss
take-drop zero ss = refl
take-drop (suc n) [] = refl
take-drop (suc n) (s ∷ ss) = ground (arith, take-drop n ss)

drop_long : (n : ℕ) (ss : List Session) → length ss ≤ n → drop n ss ≡ []
drop_long zero [] h = refl
drop_long zero (s ∷ ss) h = absurd (omega (arith, h))
drop_long (suc n) [] h = refl
drop_long (suc n) (s ∷ ss) h = drop_long n ss (omega (arith, h))

-- The sessions that a client sees that follows the cursors for at most `fuel` pages.
unfoldable pub walk : (Option SessionCursor → SessionPage) → ℕ → Option SessionCursor → List Session
walk page zero c = []
walk page (suc fuel) c =
    (page c).sessions
    ++ elim (page c).next_cursor [ none ↦ [] | some next ↦ walk page fuel (some next) ]

page_short :
    (n : ℕ) (ss : List Session)
    → ltb n (length ss) ≡ false
    → page_of n ss ≡ (record { sessions = ss; next_cursor = none })
unfolding page_of
page_short n ss h = ground (arith, h)

page_long :
    (n : ℕ) (ss : List Session) (s : Session)
    → ltb n (length ss) ≡ true
    → get_elem? ss (n - 1) ≡ some s
    → page_of n ss ≡ (record { sessions = take n ss; next_cursor = some (cursor_at s) })
unfolding page_of
page_long n ss s h e = ground (arith, h, e)

-- From position `i` on, with fuel for the sessions left, a walk sees all of them.
walk-drop :
    (n : ℕ) (ss : List Session) (fuel i : ℕ) (c : Option SessionCursor)
    → Listed ss
    → 0 < n
    → below c ss ≡ drop i ss
    → length ss ≤ i + fuel
    → walk (λ c. page_of n (below c ss)) fuel c ≡ drop i ss
unfolding walk
walk-drop n ss zero i c l h e f = ground (arith, drop_long i ss (omega (arith, f)))
walk-drop n ss (suc fuel) i c l h e f = elim (Bool-cases (ltb n (length (drop i ss)))) [
  | inr long ↦
      let page : page_of n (below c ss) ≡ (record { sessions = drop i ss; next_cursor = none }) =
        ap (page_of n) e ∙ page_short n (drop i ss) long in
      rw page (append_empty (drop i ss))
  | inl long ↦
      let (s, at) = get_elem?-some (drop i ss) (n - 1) (ground (arith, h, long)) in
      let page = ap (page_of n) e ∙ page_long n (drop i ss) s long at in
      let last : get_elem? ss (i + (n - 1)) ≡ some s =
        ground (arith, at, get_elem?-drop i (n - 1) ss) in
      let next : suc (i + (n - 1)) ≡ i + n = omega (arith, h) in
      let rest : below (some (cursor_at s)) ss ≡ drop (i + n) ss =
        below-drop ss (i + (n - 1)) s l last ∙ ap (λ k. drop k ss) next in
      let more = walk-drop n ss fuel (i + n) (some (cursor_at s)) l h rest (omega (arith, f, h)) in
      rw (page, more) (ground (arith, drop-drop n i ss, take-drop n (drop i ss)))
]

-- If no two sessions have one id, then a client that follows the cursors from the first page on sees
-- every session of its list exactly once and in order, whatever the limit; one page for each session
-- is enough.
pub walk-listed :
    (to_lower : String → String) (has_part : String → String → Bool) (m : MemStore)
    (user q : String) (limit : ℤ)
    → Apart (values m.sessions)
    → let ss = listed to_lower has_part m user q in
      (walk (list_sessions_by_user to_lower has_part m user q limit) (length ss) none ≡ ss)
      × Listed ss
unfolding list_sessions_by_user listed
walk-listed to_lower has_part m user q limit d =
    let n = if is_positive limit then clamp limit else 25 in
    let ss = listed to_lower has_part m user q in
    let order : Listed ss = sort-Listed _ (keep-Apart _ (values m.sessions) d) in
    let positive : 0 < n = ground arith in
    (walk-drop n ss (length ss) 0 none order positive refl (omega arith), order)
