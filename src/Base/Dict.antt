-- ===== src/Base/Dict.antt =====
-- Go's maps with text keys, as association lists. A range over a map has no order that the code
-- may rely on; here it is the order of insertion.
use Prim.Native.Nat.{suc, ◌≤◌}
use Prim.Native.String.{String}
use mathlib.Core.Path.{◌≡◌, refl}
use mathlib.Core.Bool.{Bool, true, false}
use mathlib.Core.Option.{Option, none, some}
use mathlib.Core.List.{List, [], ◌∷◌, map}
use native.Mathlib.Omega.{arith}
use text.Mathlib.Text.{◌==◌ as str_eq}
use text.Mathlib.TextEquality.{eq_iff}
use nowhere_agent.Base.Tests.{if◌then◌else◌}
use nowhere_agent.Base.Lists.{length}

abbrev pub Dict : Type 0 → Type 0
Dict V = List (String × V)

module _ {V : Type 0} where
  -- `delete(m, key)`
  unfoldable pub delete : String → Dict V → Dict V
  delete key [] = []
  delete key ((first, x) ∷ rest) =
      let shorter = delete key rest in if str_eq first key then shorter else (first, x) ∷ shorter

  -- `m[key]`, with `none` for a key that is missing
  unfoldable pub lookup : String → Dict V → Option V
  lookup key [] = none
  lookup key ((first, x) ∷ rest) =
      let later = lookup key rest in if str_eq first key then some x else later

  pub lookup-delete :
      (key other : String) (m : Dict V)
      → lookup other (delete key m) ≡ (if str_eq key other then none else lookup other m)
  unfolding lookup delete
  lookup-delete key other [] = ground arith
  lookup-delete key other ((first, x) ∷ rest) =
      ground (
        arith,
        lookup-delete key other rest,
        eq_iff first other,
        eq_iff first key,
        eq_iff key other,
      )

  abbrev pub has : String → Dict V → Bool
  has key m = elim (lookup key m) [ none ↦ false | some x ↦ true ]

  abbrev pub keys : Dict V → List String
  keys = map (λ e. e.0)

  -- `m[key] = x`
  unfoldable pub insert : String → V → Dict V → Dict V
  insert key x [] = (key, x) ∷ []
  insert key x ((first, old) ∷ rest) =
      let later = insert key x rest in
      if str_eq first key then (key, x) ∷ rest else (first, old) ∷ later

  pub lookup-insert :
      (key other : String) (x : V) (m : Dict V)
      → lookup other (insert key x m) ≡ (if str_eq key other then some x else lookup other m)
  unfolding insert lookup
  lookup-insert key other x [] = refl
  lookup-insert key other x ((first, old) ∷ rest) = ground (
    arith,
    lookup-insert key other x rest,
    eq_iff first other,
    eq_iff first key,
    eq_iff key other,
  )

  -- Only a new key makes the map larger.
  pub length-insert :
      (k : String) (v : V) (m : Dict V)
      → length (insert k v m) ≡ (if has k m then length m else suc (length m))
  unfolding lookup insert
  length-insert k v [] = refl
  length-insert k v ((i, w) ∷ m) = ground (arith, length-insert k v m)

  pub length-delete-le : (k : String) (m : Dict V) → length (delete k m) ≤ length m
  unfolding delete
  length-delete-le k [] = omega arith
  length-delete-le k ((i, w) ∷ m) = ground (arith, length-delete-le k m)
