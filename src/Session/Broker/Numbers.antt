-- ===== src/Session/Broker/Numbers.antt =====
-- The positions of frames, and the last of them.
use nowhere_agent.Base.{
  ℕ, zero, suc, ◌+◌, ◌-◌, ◌≤◌, ◌≡◌, refl, sym, ap, ◌∙◌, ltb, ltb→lt, lt→ltb, List, [], ◌∷◌, ◌++◌,
  inl, inr, arith, length, length-append, length-drop, drop, Bool-cases, if◌then◌else◌,
}
use nowhere_agent.Session.Broker.{StreamEvent}
use nowhere_agent.Session.Broker.Log.{numbered, last}

module _ {A : Type 0} where
  pub drop-append : (k : ℕ) (xs ys : List A) → k ≤ length xs → drop k (xs ++ ys) ≡ drop k xs ++ ys
  drop-append zero xs ys h = refl
  drop-append (suc k) [] ys h = absurd (omega arith)
  drop-append (suc k) (x ∷ xs) ys h = drop-append k xs ys (omega arith)

  drop-suc : (k : ℕ) (xs : List A) → drop 1 (drop k xs) ≡ drop (suc k) xs
  drop-suc zero xs = refl
  drop-suc (suc k) [] = refl
  drop-suc (suc k) (x ∷ xs) = drop-suc k xs

  -- The last frames of what is kept and one more are the last of all and one more.
  pub last-append :
      (n : ℕ) (xs : List A) (x : A) → last n (last n xs ++ x ∷ []) ≡ last n (xs ++ x ∷ [])
  last-append n xs x = elim (Bool-cases (ltb (length xs) n)) [
    | inl e ↦ let all : length xs - n ≡ 0 = ground (arith, e, ltb→lt (length xs) n e) in rw all refl
    | inr e ↦
        let k = length xs - n in
        let enough : n ≤ length xs = ground (arith, e, lt→ltb (length xs) n) in
        let kept = drop k xs ++ x ∷ [] in
        let one : length kept - n ≡ 1 =
          ground (arith, enough, length-append (drop k xs) (x ∷ []), length-drop k xs) in
        let next : suc k ≡ length (xs ++ x ∷ []) - n =
          ground (arith, enough, length-append xs (x ∷ [])) in
        ap (λ i. drop i kept) one
        ∙ ap (drop 1) (sym (drop-append k xs (x ∷ []) (omega arith)))
        ∙ drop-suc k (xs ++ x ∷ [])
        ∙ ap (λ i. drop i (xs ++ x ∷ [])) next
  ]

pub numbered-append :
    (n : ℕ) (xs ys : List StreamEvent)
    → numbered n (xs ++ ys) ≡ numbered n xs ++ numbered (n + length xs) ys
numbered-append n [] ys = let here : n ≡ n + 0 = omega arith in ap (λ k. numbered k ys) here
numbered-append n (x ∷ xs) ys =
    let step : suc n + length xs ≡ n + length (x ∷ xs) = omega arith in
    ap (λ evs. record x { offset = n } ∷ evs)
      (numbered-append (suc n) xs ys ∙ ap (λ k. numbered (suc n) xs ++ numbered k ys) step)

pub length-numbered : (n : ℕ) (xs : List StreamEvent) → length (numbered n xs) ≡ length xs
length-numbered n [] = refl
length-numbered n (x ∷ xs) = ap suc (length-numbered (suc n) xs)

pub drop_nothing : {A : Type 0} → (k : ℕ) → drop {A = A} k [] ≡ []
drop_nothing zero = refl
drop_nothing (suc k) = refl

pub cut :
    (n : ℕ) (xs : List StreamEvent)
    → (if ltb n (length xs) then drop (length xs - n) xs else xs) ≡ last n xs
cut n xs = elim (Bool-cases (ltb n (length xs))) [
  | inl e ↦ rw e refl
  | inr e ↦
      let all : 0 ≡ length xs - n = ground (arith, e, lt→ltb n (length xs)) in
      rw e (ap (λ k. drop k xs) all)
]

-- One more frame is published: it gets the next position.
pub more_published :
    (settled : ℕ) (evs : List StreamEvent) (ev : StreamEvent)
    → settled ≤ length evs
    → drop settled (numbered 1 (evs ++ ev ∷ []))
      ≡ drop settled (numbered 1 evs) ++ record ev { offset = suc (length evs) } ∷ []
more_published settled evs ev b =
    let enough : settled ≤ length (numbered 1 evs) = ground (arith, b, length-numbered 1 evs) in
    let position : 1 + length evs ≡ suc (length evs) = omega arith in
    ap (drop settled) (numbered-append 1 evs (ev ∷ []))
    ∙ drop-append settled (numbered 1 evs) _ enough
    ∙ ap (λ n. drop settled (numbered 1 evs) ++ record ev { offset = n } ∷ []) position
