-- ===== src/Base/Reverse.antt =====
-- Reversing a list, and what it does to the elements taken.
use Prim.Native.Nat.{ℕ, zero, suc, ◌-◌, ◌≤◌}
use mathlib.Core.Path.{◌≡◌, refl, ap}
use mathlib.Core.Logic.{inl, inr}
use mathlib.Core.Bool.{Bool}
use mathlib.Core.List.{List, [], ◌∷◌, ◌++◌}
use native.Mathlib.Omega.{arith}
use nowhere_agent.Base.Tests.{leb, Bool-cases}
use nowhere_agent.Base.Lists.{length, take, drop, keep, reverse, length-append, drop-length}

module _ {ℓ} {A : Type ℓ} where
  pub append_assoc : (xs ys zs : List A) → (xs ++ ys) ++ zs ≡ xs ++ (ys ++ zs)
  append_assoc [] ys zs = refl
  append_assoc (x ∷ xs) ys zs = ap (λ l. x ∷ l) (append_assoc xs ys zs)

  pub append_empty : (xs : List A) → xs ++ [] ≡ xs
  append_empty [] = refl
  append_empty (x ∷ xs) = ap (λ l. x ∷ l) (append_empty xs)

  pub reverse-append : (xs ys : List A) → reverse (xs ++ ys) ≡ reverse ys ++ reverse xs
  reverse-append [] ys = ground (arith, append_empty (reverse ys))
  reverse-append (x ∷ xs) ys =
      ground (arith, reverse-append xs ys, append_assoc (reverse ys) (reverse xs) (x ∷ []))

  pub length-reverse : (xs : List A) → length (reverse xs) ≡ length xs
  length-reverse [] = refl
  length-reverse (x ∷ xs) = omega (arith, length-reverse xs, length-append (reverse xs) (x ∷ []))

  pub keep-append : (p : A → Bool) (xs ys : List A) → keep p (xs ++ ys) ≡ keep p xs ++ keep p ys
  keep-append p [] ys = refl
  keep-append p (x ∷ xs) ys = ground (arith, keep-append p xs ys)

  pub keep-reverse : (p : A → Bool) (xs : List A) → keep p (reverse xs) ≡ reverse (keep p xs)
  keep-reverse p [] = refl
  keep-reverse p (x ∷ xs) = ground (
    arith,
    keep-reverse p xs,
    keep-append p (reverse xs) (x ∷ []),
    append_empty (keep p (reverse xs)),
    append_empty (reverse (keep p xs)),
  )

  take_of-append : (n : ℕ) (xs ys : List A) → n ≤ length xs → take n (xs ++ ys) ≡ take n xs
  take_of-append zero xs ys h = refl
  take_of-append (suc n) [] ys h = absurd (omega arith)
  take_of-append (suc n) (x ∷ xs) ys h = ap (λ l. x ∷ l) (take_of-append n xs ys (omega arith))

  take_all : (n : ℕ) (xs : List A) → length xs ≤ n → take n xs ≡ xs
  take_all zero [] h = refl
  take_all zero (x ∷ xs) h = absurd (omega arith)
  take_all (suc n) [] h = refl
  take_all (suc n) (x ∷ xs) h = ap (λ l. x ∷ l) (take_all n xs (omega arith))

  pub reverse-reverse : (xs : List A) → reverse (reverse xs) ≡ xs
  reverse-reverse [] = refl
  reverse-reverse (x ∷ xs) =
      ground (arith, reverse-reverse xs, reverse-append (reverse xs) (x ∷ []))

  pub take_empty : (n : ℕ) → take {A = A} n [] ≡ []
  take_empty zero = refl
  take_empty (suc n) = refl

  -- The last `n` elements, read from the end.
  pub reverse-take-reverse :
      (n : ℕ) (xs : List A) → reverse (take n (reverse xs)) ≡ drop (length xs - n) xs
  reverse-take-reverse zero [] = refl
  reverse-take-reverse (suc n) [] = ground arith
  reverse-take-reverse zero (x ∷ xs) = ground (arith, drop-length (x ∷ xs))
  reverse-take-reverse (suc n) (x ∷ xs) = elim (Bool-cases (leb (suc n) (length xs))) [
    | inl e ↦
        let step : suc (length xs) - suc n ≡ suc (length xs - suc n) = ground (arith, e) in
        let few : suc n ≤ length (reverse xs) = ground (arith, e, length-reverse xs) in
        ground (
          arith,
          step,
          reverse-take-reverse (suc n) xs,
          take_of-append (suc n) (reverse xs) (x ∷ []) few,
        )
    | inr e ↦
        let step : suc (length xs) - suc n ≡ zero = ground (arith, e) in
        let all : length (reverse xs ++ x ∷ []) ≤ suc n =
          ground (arith, e, length-reverse xs, length-append (reverse xs) (x ∷ [])) in
        ground (
          arith,
          step,
          take_all (suc n) (reverse xs ++ x ∷ []) all,
          reverse-append (reverse xs) (x ∷ []),
          reverse-reverse xs,
        )
  ]
