-- ===== src/Session/Ledger/Events.antt =====
-- The replay of a run's events (internal/session/memstore.go).
use nowhere_agent.Base.{
  ℕ, suc, ◌≡◌, refl, String, Bool, true, false, List, [], ◌∷◌, arith, keep, if◌then◌else◌, All,
  Bool-cases, inl, inr,
}
use nowhere_agent.Base.Int.{ℤ, pos, negsuc}
use nowhere_agent.Session.Types.{Event}
use nowhere_agent.Session.Orders.{int_less, insert_by, sort_by, Sorted}
use nowhere_agent.Session.Store.{MemStore, entries}
use nowhere_agent.Session.Ledger.{offset_less, events_after}

int_less_trans : (a b c : ℤ) → int_less b a ≡ false → int_less c b ≡ false → int_less c a ≡ false
int_less_trans (pos a) (pos b) (pos c) h k = ground (arith, h, k)
int_less_trans (pos a) (pos b) (negsuc c) h k = ground (arith, h, k)
int_less_trans (pos a) (negsuc b) c h k = ground (arith, h, k)
int_less_trans (negsuc a) (pos b) (pos c) h k = ground (arith, h, k)
int_less_trans (negsuc a) (pos b) (negsuc c) h k = ground (arith, h, k)
int_less_trans (negsuc a) (negsuc b) (pos c) h k = ground (arith, h, k)
int_less_trans (negsuc a) (negsuc b) (negsuc c) h k = ground (arith, h, k)

int_less_asym : (a b : ℤ) → int_less a b ≡ true → int_less b a ≡ false
int_less_asym (pos a) (pos b) h = ground (arith, h)
int_less_asym (pos a) (negsuc b) h = ground (arith, h)
int_less_asym (negsuc a) (pos b) h = ground (arith, h)
int_less_asym (negsuc a) (negsuc b) h = ground (arith, h)

-- No event of the list is before the given one.
abbrev NotBefore : Event → List Event → Type 0
NotBefore e = All (λ d. offset_less d e ≡ false)

NotBefore-step :
    (d e : Event) (es : List Event) → offset_less e d ≡ false → NotBefore e es → NotBefore d es
NotBefore-step d e [] h n = tt
NotBefore-step d e (x ∷ es) h n =
    (int_less_trans d.offset e.offset x.offset h n.0, NotBefore-step d e es h n.1)

All-insert :
    (P : Event → Type 0) (e : Event) (es : List Event)
    → P e
    → All P es
    → All P (insert_by offset_less e es)
unfolding insert_by
All-insert P e [] p a = (p, tt)
All-insert P e (d ∷ es) p a = elim (Bool-cases (offset_less d e)) [
  | inl h ↦ rw h (a.0, All-insert P e es p a.1)
  | inr h ↦ rw h (p, a)
]

insert-Sorted :
    (e : Event) (es : List Event)
    → Sorted offset_less es
    → Sorted offset_less (insert_by offset_less e es)
unfolding insert_by
insert-Sorted e [] s = (tt, tt)
insert-Sorted e (d ∷ es) s = elim (Bool-cases (offset_less d e)) [
  | inl h ↦ rw h (
    All-insert (λ x. offset_less x d ≡ false) e es (int_less_asym d.offset e.offset h) s.0,
    insert-Sorted e es s.1,
  )
  | inr h ↦ rw h ((h, NotBefore-step e d es h s.0), s)
]

sort-Sorted : (es : List Event) → Sorted offset_less (sort_by offset_less es)
unfolding sort_by
sort-Sorted [] = tt
sort-Sorted (e ∷ es) = insert-Sorted e (sort_by offset_less es) (sort-Sorted es)

-- How many events pass a test.
abbrev pub tally : (Event → Bool) → List Event → ℕ
tally p [] = 0
tally p (e ∷ es) = if p e then suc (tally p es) else tally p es

tally-insert :
    (p : Event → Bool) (e : Event) (es : List Event)
    → tally p (insert_by offset_less e es) ≡ tally p (e ∷ es)
unfolding insert_by
tally-insert p e [] = refl
tally-insert p e (d ∷ es) = ground (arith, tally-insert p e es)

tally-sort : (p : Event → Bool) (es : List Event) → tally p (sort_by offset_less es) ≡ tally p es
unfolding sort_by
tally-sort p [] = refl
tally-sort p (e ∷ es) = ground (arith, tally-insert p e (sort_by offset_less es), tally-sort p es)

-- The replay behind an offset is in the order of the offsets, and it has each event of the run as
-- often as the events behind the offset have it: none is lost, doubled or added.
events_after-Sorted :
    (m : MemStore) (run : String) (after : ℤ)
    → Sorted offset_less (events_after m run after)
      × ((p : Event → Bool)
          → tally p (events_after m run after)
            ≡ tally p (keep (λ e. int_less after e.offset) (entries run m.events)))
unfolding events_after
events_after-Sorted m run after =
    let es = keep (λ e. int_less after e.offset) (entries run m.events) in
    (sort-Sorted es, (λ p. tally-sort p es))
