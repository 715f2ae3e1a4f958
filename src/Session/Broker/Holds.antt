-- ===== src/Session/Broker/Holds.antt =====
-- What a stream of the broker of internal/session/streambroker.go holds, step by step.
use nowhere_agent.Base.{
  ℕ, suc, ◌-◌, ◌≤◌, ◌≡◌, refl, sym, ap, ◌∙◌, subst, leb, true, ◌&&◌, List, [], ◌∷◌, ◌++◌, Option,
  none, some, inl, inr, arith, length, length-append, length-drop, drop-length, drop, Bool-cases,
  if◌then◌else◌,
}
use nowhere_agent.Session.Broker.{StreamEvent, LiveStream, or_new, append_frame, remove_sub, is_nil}
use nowhere_agent.Session.Broker.Log.{Log, or_empty, numbered, last, retained, forget, log_settle}
use nowhere_agent.Session.Broker.Numbers.{
  last-append, length-numbered, drop_nothing, cut, more_published,
}

-- The stream holds what the log says that it retains.
abbrev pub Holds : ℕ → Option LiveStream → Option Log → Type 0
Holds capacity none none = Unit
Holds capacity none (some l) = ⊥
Holds capacity (some ls) none = ⊥
Holds capacity (some ls) (some l) =
    (ls.next ≡ length l.published)
    × (ls.frames ≡ retained capacity l)
    × (ls.subs ≡ l.attached)
    × (l.settled ≤ length l.published)

module _ (capacity : ℕ) (positive : 1 ≤ capacity) where
  pub or_new-Holds :
      (o : Option LiveStream) (l : Option Log)
      → Holds capacity o l
      → Holds capacity (some (or_new o)) (some (or_empty l))
  or_new-Holds none none h = (refl, sym (drop_nothing (0 - capacity)), refl, omega arith)
  or_new-Holds none (some l) h = absurd h
  or_new-Holds (some ls) none h = absurd h
  or_new-Holds (some ls) (some l) h = h

  pub append_frame-Holds :
      (ev : StreamEvent) (ls : LiveStream) (l : Log)
      → Holds capacity (some ls) (some l)
      → Holds capacity
          (some (append_frame capacity ev ls))
          (some (record l { published = l.published ++ ev ∷ [] }))
  unfolding append_frame
  append_frame-Holds ev ls l (n, f, s, b) =
      let kept = drop l.settled (numbered 1 l.published) in
      let e : ℕ → StreamEvent = λ i. record ev { offset = suc i } in
      (
        ground (arith, n, length-append l.published (ev ∷ [])),
        cut capacity (ls.frames ++ e ls.next ∷ [])
            ∙ ap (λ fs. last capacity (fs ++ e ls.next ∷ [])) f
            ∙ ap (λ i. last capacity (last capacity kept ++ e i ∷ [])) n
            ∙ last-append capacity kept (e (length l.published))
            ∙ ap (last capacity) (sym (more_published l.settled l.published ev b)),
        s,
        ground (arith, b, length-append l.published (ev ∷ [])),
      )

  is_nil-length : {A : Type 0} → (xs : List A) → is_nil xs ≡ leb (length xs) 0
  is_nil-length [] = refl
  is_nil-length (x ∷ xs) = ground arith

  -- Nothing is retained exactly where no frame has come since the run settled.
  is_nil-retained :
      (l : Log)
      → l.settled ≤ length l.published
      → is_nil (retained capacity l) ≡ leb (length l.published) l.settled
  is_nil-retained l b =
      let kept = drop l.settled (numbered 1 l.published) in
      let m : length kept ≡ length l.published - l.settled =
        length-drop l.settled (numbered 1 l.published)
        ∙ ap (λ n. n - l.settled) (length-numbered 1 l.published) in
      let r : length (retained capacity l) ≡ length kept - (length kept - capacity) =
        length-drop (length kept - capacity) kept in
      is_nil-length (retained capacity l) ∙ ground (arith, m, r, b, positive)

  settled_stream :
      (ls : LiveStream) (l : Log)
      → Holds capacity (some ls) (some l)
      → Holds capacity
          (some (record ls { frames = [] }))
          (some (record l { settled = length l.published }))
  settled_stream ls l (n, f, s, b) =
      let all = numbered 1 l.published in
      let none_left : drop (length l.published) all ≡ [] =
        ap (λ i. drop i all) (sym (length-numbered 1 l.published)) ∙ drop-length all in
      (n, sym (ap (last capacity) none_left ∙ drop_nothing (0 - capacity)), s, omega arith)

  pub forget-Holds :
      (ls : LiveStream) (l : Log)
      → Holds capacity (some ls) (some l)
      → Holds capacity (if is_nil ls.subs && is_nil ls.frames then none else some ls) (forget l)
  forget-Holds ls l (n, f, s, b) =
      let same : (is_nil ls.subs && is_nil ls.frames)
          ≡ (is_nil l.attached && leb (length l.published) l.settled) =
        ap (λ subs. is_nil subs && is_nil ls.frames) s
        ∙ ap (λ x. is_nil l.attached && x) (ap is_nil f ∙ is_nil-retained l b) in
      elim (Bool-cases (is_nil l.attached && leb (length l.published) l.settled)) [
        | inl e ↦ rw (same, e) tt
        | inr e ↦ rw (same, e) (n, f, s, b)
      ]

  pub attach-Holds :
      (ch : ℕ) (ls : LiveStream) (l : Log)
      → Holds capacity (some ls) (some l)
      → Holds capacity
          (some (record ls { subs = ch ∷ remove_sub ch ls.subs }))
          (some (record l { attached = ch ∷ remove_sub ch l.attached }))
  attach-Holds ch ls l (n, f, s, b) = (n, f, ap (λ subs. ch ∷ remove_sub ch subs) s, b)

  pub detach-Holds :
      (ch : ℕ) (ls : LiveStream) (o : Option Log)
      → Holds capacity (some ls) o
      → let subs = remove_sub ch ls.subs in
        Holds capacity
          (if is_nil subs && is_nil ls.frames then none else some (record ls { subs = subs }))
          (elim o [
            | none ↦ none
            | some l ↦ forget (record l { attached = remove_sub ch l.attached })
          ])
  detach-Holds ch ls none h = absurd h
  detach-Holds ch ls (some l) (n, f, s, b) =
      forget-Holds (record ls { subs = remove_sub ch ls.subs })
        (record l { attached = remove_sub ch l.attached }) (n, f, ap (remove_sub ch) s, b)

  pub settle_stream-Holds :
      (ls : LiveStream) (o : Option Log)
      → Holds capacity (some ls) o
      → Holds capacity
          (if is_nil ls.subs then none else some (record ls { frames = [] }))
          (elim o [ none ↦ none | some l ↦ log_settle l ])
  settle_stream-Holds ls none h = absurd h
  settle_stream-Holds ls (some l) h =
      let all : (is_nil ls.subs && true) ≡ is_nil ls.subs = ground arith in
      subst
        (λ t. Holds capacity (if t then none else some (record ls { frames = [] })) (log_settle l))
        all
        (forget-Holds (record ls { frames = [] }) (record l { settled = length l.published })
          (settled_stream ls l h))
