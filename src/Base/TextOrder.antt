-- ===== src/Base/TextOrder.antt =====
-- `<` on Go's strings, the order of their bytes, and its laws.
use Prim.Native.String.compare
use Prim.Native.String.{String, [], ◌∷◌, compare}
use Prim.Native.Nat.{Ordering}
use mathlib.Core.Path.{◌≡◌}
use mathlib.Core.Logic.{◌⊎◌, inl, inr}
use mathlib.Core.Bool.{Bool, true, false}
use native.Mathlib.Omega.{arith}
use text.Mathlib.TextEquality.{path_by_compare}

abbrev pub text_less : String → String → Bool
text_less s t = elim (compare s t) [ Ordering.lt ↦ true | _ ↦ false ]

text_less_empty : (s : String) → text_less s [] ≡ false
text_less_empty [] = ground (arith, compare.nil-nil)
text_less_empty (c ∷ s) = ground (arith, compare.cons-nil c s)

pub text_less_trans :
    (s t u : String) → text_less s t ≡ true → text_less t u ≡ true → text_less s u ≡ true
text_less_trans s t [] h k = ground (arith, k, text_less_empty t)
text_less_trans s [] (e ∷ u) h k = ground (arith, h, text_less_empty s)
text_less_trans [] (d ∷ t) (e ∷ u) h k = ground (arith, compare.nil-cons e u)
text_less_trans (c ∷ s) (d ∷ t) (e ∷ u) h k = ground (
  arith,
  h,
  k,
  compare.cons-cons c d s t,
  compare.cons-cons d e t u,
  compare.cons-cons c e s u,
  text_less_trans s t u,
)

-- Of two strings neither both nor, where they differ, none is less.
pub text_less_asym : (s t : String) → text_less s t ≡ true → text_less t s ≡ false
text_less_asym [] [] h = ground (arith, h, compare.nil-nil)
text_less_asym [] (d ∷ t) h = ground (arith, compare.cons-nil d t)
text_less_asym (c ∷ s) [] h = ground (arith, h, compare.cons-nil c s)
text_less_asym (c ∷ s) (d ∷ t) h =
    ground (arith, h, compare.cons-cons c d s t, compare.cons-cons d c t s, text_less_asym s t)

compared :
    (s t : String) → (compare s t ≡ Ordering.eq) ⊎ ((text_less s t ≡ true) ⊎ (text_less t s ≡ true))
compared [] [] = inl compare.nil-nil
compared [] (d ∷ t) = ground (arith, compare.nil-cons d t)
compared (c ∷ s) [] = ground (arith, compare.nil-cons c s)
compared (c ∷ s) (d ∷ t) =
    ground (arith, compare.cons-cons c d s t, compare.cons-cons d c t s, compared s t)

pub text_less_total : (s t : String) → (s ≡ t) ⊎ ((text_less s t ≡ true) ⊎ (text_less t s ≡ true))
text_less_total s t = elim (compared s t) [ inl e ↦ inl (path_by_compare s t e) | inr o ↦ inr o ]
