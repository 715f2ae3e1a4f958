-- ===== src/Context/Pairing/Measure.antt =====
-- A measure on conversations: the number of assistant messages, then the number of messages before
-- the first of them. The repair of internal/contextmgmt/pairing.go changes neither.
use nowhere_agent.Base.{
  ℕ, zero, suc, ◌≤◌, ◌<◌, ◌≡◌, refl, String, List, [], ◌∷◌, ◌++◌, arith, drop, ◌⊎◌, inl, inr, ap,
  if◌then◌else◌, length,
}
use nowhere_agent.Provider.{Message, is_assistant}
use nowhere_agent.Context.Pairing.{
  PairState, init_state, flush_message, pair_messages, ensure_pairing,
}
use nowhere_agent.Context.Pairing.Contract.{pending-result_blocks}
use nowhere_agent.Context.Pairing.Settled.{empty_of_count}
use nowhere_agent.Context.Pairing.Steps.{
  with_content, flushed, uses, results, role_cases, pair_messages-assistant, pair_messages-user,
  pair_messages-nil,
}

abbrev pub assistants : List Message → ℕ
assistants [] = 0
assistants (m ∷ ms) = if is_assistant m then suc (assistants ms) else assistants ms

abbrev pub leading : List Message → ℕ
leading [] = 0
leading (m ∷ ms) = if is_assistant m then 0 else suc (leading ms)

abbrev pub Smaller : List Message → List Message → Type 0
Smaller xs ys =
    (assistants xs < assistants ys) ⊎ ((assistants xs ≡ assistants ys) × (leading xs < leading ys))

pub leading-le-length : (ms : List Message) → leading ms ≤ length ms
leading-le-length [] = omega arith
leading-le-length (m ∷ ms) = ground (arith, leading-le-length ms)

pub assistants-le-length : (ms : List Message) → assistants ms ≤ length ms
assistants-le-length [] = omega arith
assistants-le-length (m ∷ ms) = ground (arith, assistants-le-length ms)

pub assistants-drop : (n : ℕ) (ms : List Message) → assistants (drop n ms) ≤ assistants ms
assistants-drop zero ms = omega arith
assistants-drop (suc n) [] = omega arith
assistants-drop (suc n) (m ∷ ms) = ground (arith, assistants-drop n ms)

assistants-flush_message :
    (ids : List String) (ms : List Message) → assistants (flush_message ids ++ ms) ≡ assistants ms
unfolding flush_message
assistants-flush_message [] ms = refl
assistants-flush_message (id ∷ ids) ms = refl

assistants-pair_messages :
    (s : PairState) (ms : List Message) → assistants (pair_messages s ms) ≡ assistants ms
assistants-pair_messages s [] = rw (pair_messages-nil, assistants-flush_message)
assistants-pair_messages s (m ∷ ms) = elim (role_cases m) [
  | inl e ↦
      rw (pair_messages-assistant s m ms e, assistants-flush_message)
        (ground (arith, assistants-pair_messages (uses s m).1 ms))
  | inr e ↦
      let t = (results s m).1 in
      rw (pair_messages-user s m ms e) (
        ground (
          arith,
          assistants-flush_message t.pending (pair_messages (flushed t) ms),
          assistants-pair_messages (flushed t) ms,
        ))
]

nothing_pending : (s : PairState) (m : Message) → s.pending ≡ [] → (results s m).1.pending ≡ []
nothing_pending s m e =
    empty_of_count _ (λ id. ground (arith, pending-result_blocks id s m.content))

flush_message-nil :
    (ids : List String) (ms : List Message) → ids ≡ [] → flush_message ids ++ ms ≡ ms
unfolding flush_message
flush_message-nil ids ms e = rw e

leading-pair_messages :
    (s : PairState) (ms : List Message) → s.pending ≡ [] → leading (pair_messages s ms) ≡ leading ms
leading-pair_messages s [] e = rw pair_messages-nil (ap leading (flush_message-nil s.pending [] e))
leading-pair_messages s (m ∷ ms) e = elim (role_cases m) [
  | inl a ↦
      let rest = pair_messages (uses s m).1 ms in
      let m' = with_content m (uses s m).0 in
      rw (pair_messages-assistant s m ms a)
        (ground (arith, flush_message-nil s.pending (m' ∷ rest) e))
  | inr u ↦
      let t = (results s m).1 in
      let rest = pair_messages (flushed t) ms in
      rw (pair_messages-user s m ms u) (
        ground (
          arith,
          flush_message-nil t.pending rest (nothing_pending s m e),
          leading-pair_messages (flushed t) ms refl,
        ))
]

pub Smaller-ensure_pairing : (xs ys : List Message) → Smaller xs ys → Smaller (ensure_pairing xs) ys
unfolding ensure_pairing
Smaller-ensure_pairing xs ys h =
    rw (assistants-pair_messages init_state xs, leading-pair_messages init_state xs refl) h
