-- ===== src/Session/Ledger/Steps.antt =====
-- The numbers and the attempts of a run's steps, and its usage (internal/session/memstore.go).
use nowhere_agent.Base.{
  ℕ, zero, suc, ◌+◌, ◌%◌, ◌<◌, ◌≡◌, refl, String, Bool, not, List, [], ◌∷◌, ◌++◌, Option, arith,
  length, length-append, take, keep, reverse, if◌then◌else◌, str_eq, eq_iff, keep-reverse,
  append_empty, append_assoc, Bool-cases, inl, inr, subst, sym,
}
use nowhere_agent.Base.Int.{ℤ, is_positive, clamp}
use nowhere_agent.Session.Types.{Usage, RunStep, StepKind, step_overflow_compact, UsageRecord}
use nowhere_agent.Session.Store.{MemStore, entries, entries-insert}
use nowhere_agent.Session.Ledger.{
  append_run_step, attempt_after, same_kind, latest, latest_run_steps, append_usage_record,
  sum_records, add_usage, sum_usage, word,
}

-- Each step has its position as number, and its attempt counts the earlier steps of its kind.
unfoldable pub IsCounted : List RunStep → List RunStep → Type 0
IsCounted before [] = Unit
IsCounted before (s ∷ ss) =
    (s.seq ≡ suc (length before))
    × (s.attempt ≡ attempt_after s.kind before)
    × IsCounted (before ++ s ∷ []) ss

IsCounted-append :
    (before ss : List RunStep) (s : RunStep)
    → IsCounted before ss
    → s.seq ≡ suc (length before + length ss)
    → s.attempt ≡ attempt_after s.kind (before ++ ss)
    → IsCounted before (ss ++ s ∷ [])
unfolding IsCounted
IsCounted-append before [] s c h k = ground (arith, h, k, append_empty before)
IsCounted-append before (x ∷ ss) s (e, f, c) h k = (
  e,
  f,
  IsCounted-append (before ++ x ∷ []) ss s c (omega (arith, h, length-append before (x ∷ [])))
      (ground (arith, k, append_assoc before (x ∷ []) ss)),
)

-- Appending a step keeps the steps of every run counted.
append_run_step-IsCounted :
    (m : MemStore) (run run' tool_call : String) (kind : StepKind) (result_message : Option ℤ)
    (now : ℕ)
    → IsCounted [] (entries run' m.steps)
    → IsCounted [] (entries run' (append_run_step m run kind tool_call result_message now).0.steps)
unfolding append_run_step
append_run_step-IsCounted m run run' tool_call kind result_message now c =
    let (m', st) = append_run_step m run kind tool_call result_message now in
    let frame = entries-insert run run' (entries run m.steps ++ st ∷ []) m.steps in
    elim (Bool-cases (str_eq run run')) [
      | inl e ↦
          let same : run ≡ run' = ground (arith, e, eq_iff run run') in
          let grown : entries run' m'.steps ≡ entries run' m.steps ++ st ∷ [] =
            ground (arith, e, frame, same) in
          subst (IsCounted []) (sym grown) (
            IsCounted-append [] (entries run' m.steps) st c (ground (arith, same))
              (ground (arith, same)))
      | inr e ↦
          let kept : entries run' m'.steps ≡ entries run' m.steps = ground (arith, e, frame) in
          subst (IsCounted []) (sym kept) c
    ]

latest-take :
    (n : ℕ) (ss : List RunStep)
    → latest n ss ≡ take n (keep (λ s. not (same_kind s.kind step_overflow_compact)) ss)
unfolding latest
latest-take zero ss = refl
latest-take (suc n) [] = refl
latest-take (suc n) (s ∷ ss) = ground (arith, latest-take n ss, latest-take (suc n) ss)

-- The latest steps are the last ones that record no compaction, newest first, as many as the limit
-- allows, and one where the limit is not positive.
latest_run_steps-take :
    (m : MemStore) (run : String) (limit : ℤ)
    → latest_run_steps m run limit
      ≡ take
          (if is_positive limit then clamp limit else 1)
          (reverse (keep (λ s. not (same_kind s.kind step_overflow_compact)) (entries run m.steps)))
unfolding latest_run_steps
latest_run_steps-take m run limit =
    let p : RunStep → Bool = λ s. not (same_kind s.kind step_overflow_compact) in
    ground (
      arith,
      latest-take (if is_positive limit then clamp limit else 1) (reverse (entries run m.steps)),
      keep-reverse p (entries run m.steps),
    )

-- The plain sum of one count over the records.
abbrev pub total : (Usage → ℕ) → List UsageRecord → ℕ
total f [] = 0
total f (r ∷ rs) = f r.usage + total f rs

sum_records-total :
    (u : Usage) (rs : List UsageRecord)
    → u.input < word
    → u.output < word
    → u.cache_read < word
    → u.cache_write < word
    → let v = sum_records u rs in
      (v.input ≡ (u.input + total (λ w. w.input) rs) % word)
      × (v.output ≡ (u.output + total (λ w. w.output) rs) % word)
      × (v.cache_read ≡ (u.cache_read + total (λ w. w.cache_read) rs) % word)
      × (v.cache_write ≡ (u.cache_write + total (λ w. w.cache_write) rs) % word)
unfolding sum_records
sum_records-total u [] a b c d = (omega arith, omega arith, omega arith, omega arith)
sum_records-total u (r ∷ rs) a b c d =
    let (e, f, g, h) =
      sum_records-total (add_usage u r.usage) rs (omega arith) (omega arith) (omega arith)
        (omega arith) in
    (omega (arith, e), omega (arith, f), omega (arith, g), omega (arith, h))

total-append :
    (f : Usage → ℕ) (xs ys : List UsageRecord) → total f (xs ++ ys) ≡ total f xs + total f ys
total-append f [] ys = omega arith
total-append f (x ∷ xs) ys = omega (arith, total-append f xs ys)

unfoldable pub append_usage_records : MemStore → List UsageRecord → ℕ → MemStore
append_usage_records m [] now = m
append_usage_records m (r ∷ rs) now = append_usage_records (append_usage_record m r now) rs now

total_appended :
    (f : Usage → ℕ) (m : MemStore) (recs : List UsageRecord) (run : String) (now : ℕ)
    → total f (entries run (append_usage_records m recs now).usage_records)
      ≡ total f (entries run m.usage_records) + total f (keep (λ r. str_eq r.run run) recs)
unfolding append_usage_records append_usage_record
total_appended f m [] run now = omega arith
total_appended f m (r ∷ rs) run now =
    let records = entries r.run m.usage_records in
    let r' : UsageRecord = record r { id = length records + 1; created_at = now } in
    ground (
      arith,
      total_appended f (append_usage_record m r now) rs run now,
      entries-insert r.run run (records ++ r' ∷ []) m.usage_records,
      total-append f records (r' ∷ []),
      eq_iff r.run run,
    )

-- However the records of several runs are appended, the usage of a run is the sum of the counts of
-- its records, those that it had included, as 64-bit integers.
sum_usage-total :
    (m : MemStore) (recs : List UsageRecord) (run : String) (now : ℕ)
    → let v = sum_usage (append_usage_records m recs now) run in
      let expected : (Usage → ℕ) → ℕ = λ f.
        (total f (entries run m.usage_records) + total f (keep (λ r. str_eq r.run run) recs))
        % word in
      (v.input ≡ expected (λ u. u.input))
      × (v.output ≡ expected (λ u. u.output))
      × (v.cache_read ≡ expected (λ u. u.cache_read))
      × (v.cache_write ≡ expected (λ u. u.cache_write))
unfolding sum_usage
sum_usage-total m recs run now =
    let zeros : Usage = record {
      input = 0;
      output = 0;
      cache_read = 0;
      cache_write = 0;
      reasoning = 0;
    } in
    let rs = entries run (append_usage_records m recs now).usage_records in
    let (e, f, g, h) =
      sum_records-total zeros rs (omega arith) (omega arith) (omega arith) (omega arith) in
    (
      omega (arith, e, total_appended (λ u. u.input) m recs run now),
      omega (arith, f, total_appended (λ u. u.output) m recs run now),
      omega (arith, g, total_appended (λ u. u.cache_read) m recs run now),
      omega (arith, h, total_appended (λ u. u.cache_write) m recs run now),
    )
