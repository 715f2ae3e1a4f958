-- ===== src/Base/Int.antt =====
-- Go's signed integers where the sign matters; `negsuc n` is -(n + 1).
use Prim.Native.Nat.{ℕ, suc, ◌+◌, ◌-◌}
use mathlib.Core.Bool.{Bool, true, false}
use nowhere_agent.Base.Tests.{ltb, leb, if◌then◌else◌}

pub data ℤ : Type 0 where
  pos : ℕ → ℤ
  negsuc : ℕ → ℤ

abbrev pub is_positive : ℤ → Bool
is_positive (pos n) = ltb 0 n
is_positive (negsuc n) = false

-- The integer, or 0 where it is negative.
abbrev pub clamp : ℤ → ℕ
clamp (pos n) = n
clamp (negsuc n) = 0

-- Whether the natural number is above the integer, and whether it is at most the integer.
abbrev pub above : ℕ → ℤ → Bool
above n (pos k) = ltb k n
above n (negsuc k) = true

abbrev pub at_most : ℕ → ℤ → Bool
at_most n (pos k) = leb n k
at_most n (negsuc k) = false

-- The difference of two natural numbers, and the sum.
abbrev pub minus : ℕ → ℕ → ℤ
minus m n = if ltb m n then negsuc (n - m - 1) else pos (m - n)

infixl 20 ◌+ℤ◌
abbrev pub ◌+ℤ◌ : ℤ → ℤ → ℤ
pos a +ℤ pos b = pos (a + b)
pos a +ℤ negsuc b = minus a (suc b)
negsuc a +ℤ pos b = minus b (suc a)
negsuc a +ℤ negsuc b = negsuc (suc (a + b))
