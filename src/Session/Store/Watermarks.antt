-- ===== src/Session/Store/Watermarks.antt =====
-- The watermarks of internal/session/memstore.go, which only ever rise: a negative argument would
-- change nothing, and is left out.
use nowhere_agent.Base.{
  ℕ, ◌≡◌, String, List, [], ◌∷◌, none, some, arith, ltb, if◌then◌else◌, str_eq, eq_iff,
}
use nowhere_agent.Base.Dict.{Dict, lookup, insert, lookup-insert}
use nowhere_agent.Session.Store.Runs.{MemStore}

-- `m[id]`: the zero value where the key is missing.
abbrev pub mark_of : String → Dict ℕ → ℕ
mark_of id marks = elim (lookup id marks) [ none ↦ 0 | some n ↦ n ]

unfoldable pub raise : String → ℕ → Dict ℕ → Dict ℕ
raise id n marks = if ltb (mark_of id marks) n then insert id n marks else marks

unfoldable pub dreamed_seq_of : MemStore → String → ℕ
dreamed_seq_of m id = mark_of id m.dreamed_seq

unfoldable pub mark_dreamed_seq : MemStore → String → ℕ → MemStore
mark_dreamed_seq m id seq = record m { dreamed_seq = raise id seq m.dreamed_seq }

unfoldable pub memory_injected_at_of : MemStore → String → ℕ
memory_injected_at_of m id = mark_of id m.memory_injected_at

unfoldable pub mark_memory_injected_at : MemStore → String → ℕ → MemStore
mark_memory_injected_at m id at = record m { memory_injected_at = raise id at m.memory_injected_at }

abbrev pub max : ℕ → ℕ → ℕ
max a b = if ltb a b then b else a

mark-raise :
    (id j : String) (n : ℕ) (marks : Dict ℕ)
    → mark_of j (raise id n marks)
      ≡ (if str_eq id j then max n (mark_of j marks) else mark_of j marks)
unfolding raise
mark-raise id j n marks = ground (arith, eq_iff id j, lookup-insert id j n marks)

-- The effect of a sequence of marks is the maximum of those of the session, in whatever order they
-- come.
abbrev pub best : String → List (String × ℕ) → ℕ
best id [] = 0
best id ((j, n) ∷ rest) = if str_eq j id then max n (best id rest) else best id rest

unfoldable pub mark_dreamed : MemStore → List (String × ℕ) → MemStore
mark_dreamed m [] = m
mark_dreamed m ((id, n) ∷ rest) = mark_dreamed (mark_dreamed_seq m id n) rest

unfoldable pub mark_injected : MemStore → List (String × ℕ) → MemStore
mark_injected m [] = m
mark_injected m ((id, n) ∷ rest) = mark_injected (mark_memory_injected_at m id n) rest

dreamed-best :
    (m : MemStore) (marks : List (String × ℕ)) (id : String)
    → dreamed_seq_of (mark_dreamed m marks) id ≡ max (dreamed_seq_of m id) (best id marks)
unfolding mark_dreamed mark_dreamed_seq dreamed_seq_of
dreamed-best m [] id = ground arith
dreamed-best m ((j, n) ∷ rest) id =
    ground (arith, dreamed-best (mark_dreamed_seq m j n) rest id, mark-raise j id n m.dreamed_seq)

injected-best :
    (m : MemStore) (marks : List (String × ℕ)) (id : String)
    → memory_injected_at_of (mark_injected m marks) id
      ≡ max (memory_injected_at_of m id) (best id marks)
unfolding mark_injected mark_memory_injected_at memory_injected_at_of
injected-best m [] id = ground arith
injected-best m ((j, n) ∷ rest) id = ground (
  arith,
  injected-best (mark_memory_injected_at m j n) rest id,
  mark-raise j id n m.memory_injected_at,
)

-- After any sequence of marks, each watermark of a session is the maximum of what it was and of the
-- session's marks.
marks-best :
    (m : MemStore) (marks : List (String × ℕ)) (id : String)
    → (dreamed_seq_of (mark_dreamed m marks) id ≡ max (dreamed_seq_of m id) (best id marks))
      × (memory_injected_at_of (mark_injected m marks) id
          ≡ max (memory_injected_at_of m id) (best id marks))
marks-best m marks id = (dreamed-best m marks id, injected-best m marks id)
