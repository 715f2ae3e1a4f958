-- ===== src/Context/Rounds/Cuts.antt =====
-- Where internal/contextmgmt/rounds.go cuts a conversation, no call is separated from its answer.
use nowhere_agent.Base.{
  ℕ, zero, suc, ◌+◌, ◌≤◌, ◌≡◌, ◌≢◌, refl, String, true, false, List, [], ◌∷◌, arith, length, drop,
  contains, count, All, eq_iff, eq_refl, ◌⊎◌, inl, inr, subst, Bool-cases, sym, ap, ◌∙◌,
}
use nowhere_agent.Provider.{Block, Message, is_assistant}
use nowhere_agent.Context.Pairing.Contract.{use_ids, result_ids}
use nowhere_agent.Context.Pairing.Settled.{answered_by, owed_after, Settled}
use nowhere_agent.Context.Rounds.Partition.{round_at-start, drop_later}
use nowhere_agent.Context.Rounds.{
  tool_use_ids, is_tool_result_msg, count_answered, answers_end, round_at, group_from, group_rounds,
}

abbrev Distinct : List String → Type 0
Distinct [] = Unit
Distinct (id ∷ ids) = (contains id ids ≡ false) × Distinct ids

tool_use_ids-Distinct : (bs : List Block) → Distinct (tool_use_ids bs)
unfolding tool_use_ids
tool_use_ids-Distinct [] = tt
tool_use_ids-Distinct (b ∷ bs) = ground (arith, tool_use_ids-Distinct bs)

tool_use_ids_called :
    (bs : List Block) (xs : List String)
    → ((id : String) → count id (use_ids bs) ≤ count id xs)
    → All (λ id. 1 ≤ count id xs) (tool_use_ids bs)
unfolding tool_use_ids
tool_use_ids_called [] xs h = tt
tool_use_ids_called (b ∷ bs) xs h = ground (
  arith,
  h b.tool_use_id,
  eq_refl b.tool_use_id,
  tool_use_ids_called bs xs (λ id. ground (arith, h id)),
)

length-pos : (id : String) (ids : List String) → contains id ids ≡ true → 1 ≤ length ids
length-pos id [] h = ground arith
length-pos id (x ∷ ids) h = omega arith

tool_use_ids_empty :
    (bs : List Block) → count "" (use_ids bs) ≡ 0 → length (tool_use_ids bs) ≡ 0 → use_ids bs ≡ []
unfolding tool_use_ids
tool_use_ids_empty [] h k = refl
tool_use_ids_empty (b ∷ bs) h k =
    ground (arith, tool_use_ids_empty bs, length-pos b.tool_use_id (tool_use_ids bs))

count_answered-cons :
    (bs : List Block) (id : String) (ids : List String)
    → contains id ids ≡ false
    → count_answered bs (id ∷ ids) ≡ count id (result_ids bs) + count_answered bs ids
unfolding count_answered
count_answered-cons [] id ids h = omega arith
count_answered-cons (b ∷ bs) id ids h =
    ground (
      arith,
      count_answered-cons bs id ids h,
      eq_iff id b.tool_result_id,
      eq_iff b.tool_result_id id,
    )

length-count_answered :
    (bs : List Block) (ids : List String)
    → Distinct ids
    → All (λ id. 1 ≤ count id (result_ids bs)) ids
    → length ids ≤ count_answered bs ids
length-count_answered bs [] d a = omega arith
length-count_answered bs (id ∷ ids) d a =
    omega (arith, length-count_answered bs ids d.1 a.1, count_answered-cons bs id ids d.0, a.0)

is_tool_result_msg-nil : (bs : List Block) → is_tool_result_msg bs ≡ false → result_ids bs ≡ []
unfolding is_tool_result_msg
is_tool_result_msg-nil [] h = refl
is_tool_result_msg-nil (b ∷ bs) h = ground (arith, is_tool_result_msg-nil bs)

no_calls : (bs : List Block) → use_ids bs ≡ [] → tool_use_ids bs ≡ []
unfolding tool_use_ids
no_calls [] h = refl
no_calls (b ∷ bs) h = ground (arith, no_calls bs)

answers_end-stop :
    (ids : List String) (n j : ℕ) (ms : List Message) → length ids ≤ n → answers_end ids n j ms ≡ j
unfolding answers_end
answers_end-stop ids n j [] h = refl
answers_end-stop ids n j (m ∷ ms) h = ground arith

round_at-alone :
    (i : ℕ) (m : Message) (ms : List Message)
    → length (tool_use_ids m.content) ≡ 0 ⊎ (is_assistant m ≡ false)
    → (round_at i m ms).end ≡ i + 1
unfolding round_at
round_at-alone i m ms h = ground arith

nonempty_count : (ids : List String) → ids ≢ [] → (x : String) × (1 ≤ count x ids)
nonempty_count [] h = absurd (h refl)
nonempty_count (x ∷ ids) h = (x, ground (arith, eq_refl x))

module _ (m m2 : Message) (a : is_assistant m ≡ true)
    (answer : (id : String) → count id (answered_by m2) ≡ count id (owed_after m)) where
  answered_by_user : (x : String) → 1 ≤ count x (use_ids m.content) → is_assistant m2 ≡ false
  answered_by_user x h = ground (arith, answer x)

  same_count :
      is_assistant m2 ≡ false
      → (id : String) → count id (result_ids m2.content) ≡ count id (use_ids m.content)
  same_count u id = ground (arith, answer id)

  answers_are_results :
      (x : String)
      → 1 ≤ count x (use_ids m.content)
      → is_assistant m2 ≡ false
      → is_tool_result_msg m2.content ≡ true
  answers_are_results x h u = ground (arith, is_tool_result_msg-nil m2.content, same_count u x)

  -- After a message with calls, the next one has all of the answers.
  round_at-answered :
      (i : ℕ) (ms : List Message)
      → count "" (use_ids m.content) ≡ 0
      → use_ids m.content ≢ []
      → ((round_at i m (m2 ∷ ms)).end ≡ i + 2) × (owed_after m2 ≡ [])
  unfolding round_at answers_end
  round_at-answered i ms named called =
      let (x, h) = nonempty_count (use_ids m.content) called in
      let u = answered_by_user x h in
      let ids = tool_use_ids m.content in
      let enough = length-count_answered m2.content ids (tool_use_ids-Distinct m.content) (
        tool_use_ids_called m.content (result_ids m2.content)
          (λ id. omega (arith, same_count u id))) in
      (
        ground (
          arith,
          enough,
          u,
          answers_are_results x h u,
          tool_use_ids_empty m.content named,
          answers_end-stop ids (0 + count_answered m2.content ids) (i + 1 + 1) ms,
        ),
        ground (arith, u),
      )

empty_or_not : (ids : List String) → (ids ≡ []) ⊎ (ids ≢ [])
empty_or_not [] = inl refl
empty_or_not (x ∷ ids) = inr (λ e. cc)

-- The round that begins with `m` is followed by messages to which nothing is owed.
abbrev EndsSettled : ℕ → Message → List Message → Type 0
EndsSettled i m ms = (k : ℕ) × ((round_at i m ms).end ≡ i + suc k) × Settled [] (drop k ms)

one_message :
    (i : ℕ) (m : Message) (ms : List Message)
    → (length (tool_use_ids m.content) ≡ 0) ⊎ (is_assistant m ≡ false)
    → owed_after m ≡ []
    → Settled (owed_after m) ms
    → EndsSettled i m ms
one_message i m ms short e h =
    (0, omega (arith, round_at-alone i m ms short), subst (λ ids. Settled ids ms) e h)

with_answer :
    (i : ℕ) (m : Message) (ms : List Message)
    → is_assistant m ≡ true
    → count "" (use_ids m.content) ≡ 0
    → use_ids m.content ≢ []
    → Settled (owed_after m) ms
    → EndsSettled i m ms
with_answer i m [] a named called h = absurd (called (ground arith))
with_answer i m (m2 ∷ ms) a named called (_, answer, h) =
    let (e, u) = round_at-answered m m2 a answer i ms named called in
    (1, omega (arith, e), subst (λ ids. Settled ids ms) u h)

next_round :
    (i : ℕ) (m : Message) (ms : List Message)
    → count "" (use_ids m.content) ≡ 0
    → Settled (owed_after m) ms
    → EndsSettled i m ms
next_round i m ms named h = elim (Bool-cases (is_assistant m)) [
  | inr u ↦ one_message i m ms (inr u) (ground arith) h
  | inl a ↦ elim (empty_or_not (use_ids m.content)) [
    | inl e ↦ one_message i m ms (inl (ground (arith, no_calls m.content e))) (ground arith) h
    | inr called ↦ with_answer i m ms a named called h
  ]
]

-- Calls have an id.
abbrev pub Named : List Message → Type 0
Named = All (λ m. count "" (use_ids m.content) ≡ 0)

Named-drop : (n : ℕ) (ms : List Message) → Named ms → Named (drop n ms)
Named-drop zero ms h = h
Named-drop (suc n) [] h = h
Named-drop (suc n) (m ∷ ms) h = Named-drop n ms h.1

group_from-Settled :
    (fuel i : ℕ) (msgs rest : List Message)
    → drop i msgs ≡ rest
    → Named msgs
    → Settled [] rest
    → All (λ r. Settled [] (drop r.start msgs)) (group_from fuel i msgs)
unfolding group_from
group_from-Settled zero i msgs rest e named h = tt
group_from-Settled (suc fuel) i msgs [] e named h = rw (e, group_from) tt
group_from-Settled (suc fuel) i msgs (m ∷ ms) e named h =
    let here : Named (m ∷ ms) = subst Named e (Named-drop i msgs named) in
    let (k, next, settled) = next_round i m ms here.0 h.2 in
    rw (e, group_from)
      (
        subst (Settled []) (sym (ap (λ n. drop n msgs) (round_at-start i m ms) ∙ e)) h,
        group_from-Settled fuel (round_at i m ms).end msgs (drop k ms)
            (ap (λ n. drop n msgs) next ∙ drop_later i k msgs e) named settled,
      )

-- In a conversation where every call has an id and is answered in the message after it, nothing is
-- owed where a round begins: dropping whole rounds separates no call from its answer.
pub group_rounds-Settled :
    (msgs : List Message)
    → Named msgs
    → Settled [] msgs
    → All (λ r. Settled [] (drop r.start msgs)) (group_rounds msgs)
unfolding group_rounds
group_rounds-Settled msgs named h = group_from-Settled _ 0 msgs msgs refl named h
