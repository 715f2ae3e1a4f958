-- ===== src/Session/Orders.antt =====
-- `<` on int64, for internal/session, and the sorting that it uses.
unfoldable pub use nowhere_agent.Base.Sorting.{insert_by, sort_by, Sorted}
use nowhere_agent.Base.{Bool, true, false, ltb}
use nowhere_agent.Base.Int.{ℤ, pos, negsuc}

abbrev pub int_less : ℤ → ℤ → Bool
int_less (pos m) (pos n) = ltb m n
int_less (pos m) (negsuc n) = false
int_less (negsuc m) (pos n) = true
int_less (negsuc m) (negsuc n) = ltb n m
