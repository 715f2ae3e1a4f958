-- ===== src/Context/Pairing/Late.antt =====
-- Where internal/contextmgmt/pairing.go puts the answer to a call that the user does not answer.
use nowhere_agent.Base.{
  ◌≤◌, ◌≡◌, ◌≢◌, refl, sym, ap, subst, ◌∙◌, String, List, [], ◌∷◌, ◌++◌, map, arith, count,
  count_present, count-append, eq_iff, append_assoc, inl, inr,
}
use nowhere_agent.Provider.{Block, Message, user, assistant}
use nowhere_agent.Context.Pairing.{
  PairState, init_state, interrupted, flush_message, ensure_non_empty, use_block, result_block,
  filter_blocks, pair_messages, ensure_pairing,
}
use nowhere_agent.Context.Pairing.Steps.{
  flushed, uses, results, with_content, role_cases, pair_messages-assistant, pair_messages-user,
}
use nowhere_agent.Context.Pairing.Contract.{use_ids, result_ids, calls, pending-use_blocks}
use nowhere_agent.Context.Pairing.Settled.{owed_after, Settled}

module _ (id : String) where
  -- A call whose id has not been seen stays, and only calls that are made are seen.
  use_blocks-keep :
      (s : PairState) (bs : List Block)
      → count id s.seen_use ≡ 0
      → 1 ≤ count id (use_ids bs)
      → 1 ≤ count id (use_ids (filter_blocks use_block s bs).0)
  unfolding filter_blocks use_block
  use_blocks-keep s [] f h = h
  use_blocks-keep s (b ∷ bs) f h = ground (
    arith,
    f,
    h,
    use_blocks-keep (use_block s b).1 bs,
    count_present b.tool_use_id s.seen_use,
    eq_iff b.tool_use_id id,
  )

  use_blocks-unseen :
      (s : PairState) (bs : List Block)
      → count id s.seen_use ≡ 0
      → count id (use_ids bs) ≡ 0
      → count id (filter_blocks use_block s bs).1.seen_use ≡ 0
  unfolding filter_blocks use_block
  use_blocks-unseen s [] f h = f
  use_blocks-unseen s (b ∷ bs) f h =
      ground (arith, f, h, use_blocks-unseen (use_block s b).1 bs, eq_iff b.tool_use_id id)

  seen_use-result_blocks :
      (s : PairState) (bs : List Block) → (filter_blocks result_block s bs).1.seen_use ≡ s.seen_use
  unfolding filter_blocks result_block
  seen_use-result_blocks s [] = refl
  seen_use-result_blocks s (b ∷ bs) = ground (arith, seen_use-result_blocks (result_block s b).1 bs)

  -- The messages before do not see an id that they do not call.
  pair_messages-front :
      (s : PairState) (pre ms : List Message)
      → count id s.seen_use ≡ 0
      → count id (calls pre) ≡ 0
      → (front : List Message) × (s' : PairState) × (pair_messages s (pre ++ ms)
          ≡ front ++ pair_messages s' ms)
        × (count id s'.seen_use ≡ 0)
  pair_messages-front s [] ms f h = ([], s, refl, f)
  pair_messages-front s (m ∷ pre) ms f h = elim (role_cases m) [
    | inl e ↦
        let called = count-append id (use_ids m.content) (calls pre) in
        let (front, s', eq, g) =
          pair_messages-front (uses s m).1 pre ms
            (use_blocks-unseen (flushed s) m.content f (ground (arith, h, e, called)))
            (ground (arith, h, e, called)) in
        let now = flush_message s.pending in
        let m' = with_content m (uses s m).0 in
        (
          now ++ m' ∷ front,
          s',
          pair_messages-assistant s m (pre ++ ms) e
              ∙ ap (λ xs. now ++ m' ∷ xs) eq
              ∙ sym (append_assoc now (m' ∷ front) (pair_messages s' ms)),
          g,
        )
    | inr e ↦
        let r = results s m in
        let (front, s', eq, g) =
          pair_messages-front (flushed r.1) pre ms
            (ground (arith, f, seen_use-result_blocks s m.content)) (ground (arith, h, e)) in
        let later = flush_message r.1.pending in
        (
          with_content m r.0 ∷ (later ++ front),
          s',
          pair_messages-user s m (pre ++ ms) e
              ∙ ap (λ xs. with_content m r.0 ∷ (later ++ xs)) eq
              ∙ ap (λ xs. with_content m r.0 ∷ xs)
                  (sym (append_assoc later front (pair_messages s' ms))),
          g,
        )
  ]

plain_blocks :
    (s : PairState) (bs : List Block)
    → result_ids bs ≡ []
    → filter_blocks result_block s bs ≡ (bs, s)
unfolding filter_blocks result_block
plain_blocks s [] h = refl
plain_blocks s (b ∷ bs) h = ground (arith, h, plain_blocks s bs)

-- In a settled conversation the message after a call answers it.
unanswered :
    (id : String) (owed : List String) (front : List Message) (m u : Message) (ms : List Message)
    → m.role ≡ assistant
    → u.role ≡ user
    → result_ids u.content ≡ []
    → Settled owed (front ++ m ∷ u ∷ ms)
    → count id (use_ids m.content) ≡ 0
unanswered id owed [] m u ms a b r h = ground (arith, a, b, r, h.2.1 id)
unanswered id owed (x ∷ front) m u ms a b r h = unanswered id (owed_after x) front m u ms a b r h.2

ensure_non_empty-some : (bs : List Block) → bs ≢ [] → ensure_non_empty bs ≡ bs
unfolding ensure_non_empty
ensure_non_empty-some [] h = absurd (h refl)
ensure_non_empty-some (b ∷ bs) h = refl

flush_message-some :
    (ids : List String)
    → ids ≢ []
    → flush_message ids ≡ record { role = user; content = map interrupted ids } ∷ []
unfolding flush_message
flush_message-some [] h = absurd (h refl)
flush_message-some (id ∷ ids) h = refl

-- What the repair makes of a call and of a user message that answers nothing.
late_pair :
    (s : PairState) (m u : Message) (rest : List Message)
    → m.role ≡ assistant
    → u.role ≡ user
    → u.content ≢ []
    → result_ids u.content ≡ []
    → use_ids (uses s m).0 ≢ []
    → pair_messages s (m ∷ u ∷ rest)
      ≡ flush_message s.pending
        ++ record m { content = (uses s m).0 }
          ∷ u
          ∷ record { role = user; content = map interrupted (use_ids (uses s m).0) }
          ∷ pair_messages (flushed (uses s m).1) rest
late_pair s m u rest a b c r some_use =
    let (kept, t) = uses s m in
    let some_block : kept ≢ [] = λ e. some_use (ap use_ids e) in
    let owed : t.pending ≡ use_ids kept = pending-use_blocks (flushed s) m.content in
    let first : with_content m kept ≡ record m { content = kept } =
      ap (λ bs. record m { content = bs }) (ensure_non_empty-some kept some_block) in
    let said : with_content u (results t u).0 ≡ u =
      ap (with_content u) (ap (λ x. x.0) (plain_blocks t u.content r))
      ∙ ap (λ bs. record u { content = bs }) (ensure_non_empty-some u.content c) in
    let after : (results t u).1 ≡ t = ap (λ x. x.1) (plain_blocks t u.content r) in
    let synthesized : flush_message t.pending
        ≡ record { role = user; content = map interrupted (use_ids kept) } ∷ [] =
      ap flush_message owed ∙ flush_message-some (use_ids kept) some_use in
    pair_messages-assistant s m (u ∷ rest) a
    ∙ ap (λ x. flush_message s.pending ++ x ∷ pair_messages t (u ∷ rest)) first
    ∙ ap (λ xs. flush_message s.pending ++ record m { content = kept } ∷ xs)
        (pair_messages-user t u rest b
          ∙ ap
              (λ x.
                x
                ∷ (flush_message (results t u).1.pending
                    ++ pair_messages (flushed (results t u).1) rest))
              said
          ∙ ap (λ x. u ∷ (flush_message x.pending ++ pair_messages (flushed x) rest)) after
          ∙ ap (λ xs. u ∷ (xs ++ pair_messages (flushed t) rest)) synthesized)

-- Wherever a conversation calls an id for the first time and the user then says something without a tool
-- result, the repair keeps the call and what the user said, and synthesizes the result, together with
-- those of the other calls of the message, only behind what the user said: the message after the call
-- does not answer it, so that the repaired conversation is not settled.
pub ensure_pairing-late :
    (id : String) (pre : List Message) (m u : Message) (rest : List Message)
    → m.role ≡ assistant
    → u.role ≡ user
    → u.content ≢ []
    → result_ids u.content ≡ []
    → count id (calls pre) ≡ 0
    → 1 ≤ count id (use_ids m.content)
    → let repaired = ensure_pairing (pre ++ m ∷ u ∷ rest) in
      ((front : List Message) × (kept : List Block) × (more : List Message) × (1
          ≤ count id (use_ids kept))
        × (repaired
            ≡ front
              ++ record m { content = kept }
                ∷ u
                ∷ record { role = user; content = map interrupted (use_ids kept) }
                ∷ more))
      × (¬ Settled [] repaired)
unfolding ensure_pairing
ensure_pairing-late id pre m u rest a b c r new called =
    let (front, s, eq, f) = pair_messages-front id init_state pre (m ∷ u ∷ rest) refl new in
    let kept = (uses s m).0 in
    let t = (uses s m).1 in
    let stays = use_blocks-keep id (flushed s) m.content f called in
    let some_use : use_ids kept ≢ [] = λ e. absurd (ground (arith, stays, e)) in
    let more = pair_messages (flushed t) rest in
    let now = flush_message s.pending in
    let shown : ensure_pairing (pre ++ m ∷ u ∷ rest)
        ≡ (front ++ now)
          ++ record m { content = kept }
            ∷ u
            ∷ record { role = user; content = map interrupted (use_ids kept) }
            ∷ more =
      eq
      ∙ ap (λ xs. front ++ xs) (late_pair s m u rest a b c r some_use)
      ∙ sym (append_assoc front now _) in
    (
      (front ++ now, kept, more, stays, shown),
      λ h. absurd (
          ground (
            arith,
            stays,
            unanswered id [] (front ++ now) (record m { content = kept }) u _ a b r
                (subst (Settled []) shown h),
          )),
    )
