-- ===== src/Session/Store/Pages.antt =====
-- The order of the conversation list of internal/session/memstore.go.
pub mod Walk
use nowhere_agent.Base.{
  ℕ, zero, suc, ◌+◌, ◌-◌, ◌<◌, ◌≤◌, ◌≡◌, ◌≢◌, refl, sym, String, Bool, true, false, not, ◌&&◌, ◌||◌,
  ◌==◌, List, [], ◌∷◌, Option, none, some, arith, length, take, drop, keep, get_elem?,
  if◌then◌else◌, str_eq, eq_iff, All, Bool-cases, inl, inr, map, ltb,
}
use nowhere_agent.Base.Int.{ℤ, pos, negsuc, is_positive, clamp}
use nowhere_agent.Base.TextOrder.{text_less, text_less_trans, text_less_asym, text_less_total}
use nowhere_agent.Session.Types.{Session, SessionCursor, SessionPage, is_active}
use nowhere_agent.Session.Orders.{sort_by, insert_by}
use nowhere_agent.Session.Store.{
  values, listed_before, below_cursor, below, page_of, listed, list_sessions_by_user,
}
use nowhere_agent.Session.Store.Runs.{MemStore}

-- No two sessions have one id.
abbrev pub Apart : List Session → Type 0
Apart [] = Unit
Apart (s ∷ ss) = All (λ t. s.id ≢ t.id) ss × Apart ss

-- Each session is before all that follow.
abbrev pub Listed : List Session → Type 0
Listed [] = Unit
Listed (s ∷ ss) = All (λ t. listed_before s t ≡ true) ss × Listed ss

listed_before_trans :
    (s t u : Session)
    → listed_before s t ≡ true
    → listed_before t u ≡ true
    → listed_before s u ≡ true
unfolding listed_before
listed_before_trans s t u h k = ground (arith, h, k, text_less_trans u.id t.id s.id)

pub listed_before_asym : (s t : Session) → listed_before s t ≡ true → listed_before t s ≡ false
unfolding listed_before
listed_before_asym s t h = ground (arith, h, text_less_asym t.id s.id)

listed_before_total :
    (s t : Session) → s.id ≢ t.id → listed_before s t ≡ false → listed_before t s ≡ true
unfolding listed_before
listed_before_total s t d h = ground (arith, h, d, text_less_total s.id t.id)

All-listed_trans :
    (s t : Session) (ss : List Session)
    → listed_before s t ≡ true
    → All (λ u. listed_before t u ≡ true) ss
    → All (λ u. listed_before s u ≡ true) ss
All-listed_trans s t [] h a = tt
All-listed_trans s t (u ∷ ss) h a = (listed_before_trans s t u h a.0, All-listed_trans s t ss h a.1)

All-insert :
    (P : Session → Type 0) (s : Session) (ss : List Session)
    → P s
    → All P ss
    → All P (insert_by listed_before s ss)
unfolding insert_by
All-insert P s [] p a = (p, tt)
All-insert P s (t ∷ ss) p a = elim (Bool-cases (listed_before t s)) [
  | inl e ↦ rw e (a.0, All-insert P s ss p a.1)
  | inr e ↦ rw e (p, a)
]

insert-Listed :
    (s : Session) (ss : List Session)
    → All (λ t. s.id ≢ t.id) ss
    → Listed ss
    → Listed (insert_by listed_before s ss)
unfolding insert_by
insert-Listed s [] d l = (tt, tt)
insert-Listed s (t ∷ ss) d l = elim (Bool-cases (listed_before t s)) [
  | inl e ↦ rw e (All-insert (λ u. listed_before t u ≡ true) s ss e l.0, insert-Listed s ss d.1 l.1)
  | inr e ↦
      let first : listed_before s t ≡ true = listed_before_total t s (λ p. d.0 (sym p)) e in
      rw e ((first, All-listed_trans s t ss first l.0), l)
]

All-sort : (P : Session → Type 0) (ss : List Session) → All P ss → All P (sort_by listed_before ss)
unfolding sort_by
All-sort P [] a = tt
All-sort P (s ∷ ss) a = All-insert P s (sort_by listed_before ss) a.0 (All-sort P ss a.1)

pub sort-Listed : (ss : List Session) → Apart ss → Listed (sort_by listed_before ss)
unfolding sort_by
sort-Listed [] d = tt
sort-Listed (s ∷ ss) d =
    insert-Listed s (sort_by listed_before ss) (All-sort (λ t. s.id ≢ t.id) ss d.0)
      (sort-Listed ss d.1)

All-keep :
    (P : Session → Type 0) (p : Session → Bool) (ss : List Session) → All P ss → All P (keep p ss)
All-keep P p [] a = tt
All-keep P p (s ∷ ss) a = elim (Bool-cases (p s)) [
  | inl e ↦ rw e (a.0, All-keep P p ss a.1)
  | inr e ↦ rw e (All-keep P p ss a.1)
]

pub keep-Apart : (p : Session → Bool) (ss : List Session) → Apart ss → Apart (keep p ss)
keep-Apart p [] d = tt
keep-Apart p (s ∷ ss) d = elim (Bool-cases (p s)) [
  | inl e ↦ rw e (All-keep (λ t. s.id ≢ t.id) p ss d.0, keep-Apart p ss d.1)
  | inr e ↦ rw e (keep-Apart p ss d.1)
]

abbrev pub cursor_at : Session → SessionCursor
cursor_at s = record { updated_at = s.updated_at; id = s.id }

pub below-All :
    (s : Session) (ss : List Session)
    → All (λ t. listed_before s t ≡ true) ss
    → keep (below_cursor (cursor_at s)) ss ≡ ss
unfolding below_cursor listed_before
below-All s [] a = refl
below-All s (t ∷ ss) a = ground (arith, a.0, below-All s ss a.1)
