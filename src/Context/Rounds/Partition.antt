-- ===== src/Context/Rounds/Partition.antt =====
-- The rounds of internal/contextmgmt/rounds.go cover a conversation without gap or overlap.
use native.Mathlib.Nat.{suc-add, zero-add}
use nowhere_agent.Base.{
  ℕ, zero, suc, ◌+◌, ◌-◌, ◌≤◌, ◌<◌, ◌≡◌, refl, String, List, [], ◌∷◌, arith, length, length-drop,
  drop, ap,
}
use nowhere_agent.Provider.{Message}
use nowhere_agent.Context.Rounds.{
  Round, answers_end, round_at, group_from, group_rounds, count_answered, tool_use_ids,
}

-- The rounds begin at `i`, each where the one before ends and with at least one message, and the
-- last ends at `n`.
abbrev pub Covers : ℕ → List Round → ℕ → Type 0
Covers i [] n = i ≡ n
Covers i (r ∷ rs) n = (r.start ≡ i) × (i < r.end) × Covers r.end rs n

answers_end_bounds :
    (ids : List String) (answered j : ℕ) (ms : List Message)
    → (j ≤ answers_end ids answered j ms) × (answers_end ids answered j ms ≤ j + length ms)
unfolding answers_end
answers_end_bounds ids answered j [] = (omega arith, omega arith)
answers_end_bounds ids answered j (m ∷ ms) =
    ground (arith, answers_end_bounds ids (answered + count_answered m.content ids) (j + 1) ms)

pub round_at_bounds :
    (i : ℕ) (m : Message) (ms : List Message)
    → (i < (round_at i m ms).end) × ((round_at i m ms).end ≤ i + length (m ∷ ms))
unfolding round_at
round_at_bounds i m ms = ground (arith, answers_end_bounds (tool_use_ids m.content) 0 (i + 1) ms)

pub round_at-start : (i : ℕ) (m : Message) (ms : List Message) → (round_at i m ms).start ≡ i
unfolding round_at
round_at-start i m ms = refl

pub drop_later :
    (i k : ℕ) (msgs : List Message) {m : Message} {ms : List Message}
    → drop i msgs ≡ m ∷ ms
    → drop (i + suc k) msgs ≡ drop k ms
drop_later zero k [] e = cc
drop_later zero k (x ∷ msgs) {m} {ms} e = let t : msgs ≡ ms = cc in rw zero-add (ap (drop k) t)
drop_later (suc i) k [] e = cc
drop_later (suc i) k (x ∷ msgs) e = rw suc-add (drop_later i k msgs e)

group_from-Covers :
    (fuel i : ℕ) (msgs rest : List Message)
    → drop i msgs ≡ rest
    → i ≤ length msgs
    → length msgs - i ≤ fuel
    → Covers i (group_from fuel i msgs) (length msgs)
unfolding group_from
group_from-Covers zero i msgs rest e h k = omega arith
group_from-Covers (suc fuel) i msgs [] e h k =
    rw (e, group_from) (omega (arith, length-drop i msgs, ap length e))
group_from-Covers (suc fuel) i msgs (m ∷ ms) e h k =
    let len = length-drop i msgs in
    let bounds = round_at_bounds i m ms in
    let e' = (round_at i m ms).end in
    rw (e, group_from)
      (
        round_at-start i m ms,
        bounds.0,
        group_from-Covers fuel e' msgs (drop e' msgs) refl (omega (arith, bounds, len, ap length e))
            (omega (arith, bounds, len, ap length e)),
      )

-- The rounds of a conversation cover all of its messages, in order, none of them empty; the
-- grouping loop ends within one round for each message.
pub group_rounds-Covers : (msgs : List Message) → Covers 0 (group_rounds msgs) (length msgs)
unfolding group_rounds
group_rounds-Covers msgs = group_from-Covers _ 0 msgs msgs refl (omega arith) (omega arith)
