-- ===== src/Session/Fold/Commit/Once.antt =====
-- A batch is folded once, internal/session/fold.go.
use nowhere_agent.Base.{
  ℕ, ◌≡◌, refl, subst, sym, ap, ◌∙◌, String, List, [], ◌∷◌, ◌++◌, Option, none, some, ◌⊎◌, inl, inr,
  arith, Option-cases, Sum-cases, List-cases, eq_refl,
}
use nowhere_agent.Base.Dict.{lookup, insert, lookup-insert}
use nowhere_agent.Provider.{Block, Message, user}
use nowhere_agent.Agent.{Call, ToolResult, Registry, GateFunc}
use nowhere_agent.Session.Types.{Interaction, SuspendedBatch, ok}
use nowhere_agent.Session.Store.{entries-insert}
use nowhere_agent.Session.Gate.{
  approvals_for_run, suspended_batch_for_run, mark_batch_folded, interactions,
}
use nowhere_agent.Session.Messages.{StoredMessage, append_message, messages_for}
use nowhere_agent.Session.Fold.{Reader, suspended_batch_calls, fold_results, fold_content}
use nowhere_agent.Session.Fold.Commit.{
  Stores, fold_history, fold_message, commit_fold, fold_unfolded, fold_batch,
}

module _ (reader : Reader) (decimal : ℕ → String) where
  -- The record of the session has got one more message, which belongs to the run.
  abbrev pub OneMore : Stores → Stores → String → String → Type 0
  OneMore s s' session run =
      (m : StoredMessage) × (m.run ≡ run)
      × (messages_for s'.messages session ≡ messages_for s.messages session ++ m ∷ [])

  -- The batch of the run counts as folded: whatever executor, registry, gate and clock a fold is
  -- given, it returns the history of the record and changes nothing.
  abbrev pub IsFolded : Stores → String → String → Type 0
  IsFolded s session run =
      (exec : List Call → List ToolResult) (tools : Registry) (gate : Option GateFunc) (now : ℕ)
      → fold_batch reader decimal exec tools gate s session run now
        ≡ (s, inl (fold_history s.messages session).1)

  -- A fold that fails changes nothing; after one that returns the batch is folded, and the record is
  -- as it was or has got one message.
  abbrev pub Settles : Stores → String → String → Stores × (List Message ⊎ String) → Type 0
  Settles s session run (s', inr e) = s' ≡ s
  Settles s session run (s', inl history) =
      IsFolded s' session run × ((s' ≡ s) ⊎ OneMore s s' session run)

  folded_lem :
      (s : Stores) (session run : String) (snap : SuspendedBatch) (ap : Interaction)
      (aps : List Interaction) (seq : ℕ)
      → suspended_batch_for_run s.store run ≡ ok snap
      → approvals_for_run s.store run ≡ ap ∷ aps
      → snap.folded_seq ≡ some seq
      → IsFolded s session run
  unfolding fold_batch
  folded_lem s session run snap ap aps seq e a f exec tools gate now = rw (fold_batch, e, a, f) refl

  commit_fold-Settles :
      (s : Stores) (session run : String) (history : List Message) (content : List Block) (now : ℕ)
      (snap : SuspendedBatch) (ap : Interaction) (aps : List Interaction)
      → lookup run s.store.batches ≡ some snap
      → approvals_for_run s.store run ≡ ap ∷ aps
      → Settles s session run (commit_fold reader decimal s session run history content now)
  unfolding commit_fold mark_batch_folded suspended_batch_for_run append_message approvals_for_run
      interactions
  commit_fold-Settles s session run history content now snap ap aps e a =
      let msg =
        (append_message s.messages (fold_message reader decimal session run content) now).1 in
      let snap' : SuspendedBatch = record snap { folded_seq = some msg.seq } in
      let store' = record s.store { batches = insert run snap' s.store.batches } in
      let messages' =
        (append_message s.messages (fold_message reader decimal session run content) now).0 in
      let s' : Stores = record { store = store'; messages = messages' } in
      let result : List Message ⊎ String =
        inl (history ++ record { role = user; content = content } ∷ []) in
      let eq : commit_fold reader decimal s session run history content now ≡ (s', result) =
        rw (commit_fold, mark_batch_folded, e) refl in
      let found : suspended_batch_for_run store' run ≡ ok snap' =
        ground (arith, lookup-insert run run snap' s.store.batches, eq_refl run) in
      let more : messages_for messages' session ≡ messages_for s.messages session ++ msg ∷ [] =
        ground (
          arith,
          entries-insert session session (messages_for s.messages session ++ msg ∷ [])
              s.messages.by_session,
          eq_refl session,
        ) in
      subst (Settles s session run) (sym eq)
        (folded_lem s' session run snap' ap aps msg.seq found a refl, inr (msg, refl, more))

  module _ (exec : List Call → List ToolResult) (tools : Registry) (gate : Option GateFunc) where
    fold_unfolded-Settles :
        (s : Stores) (session run : String) (snap : SuspendedBatch) (ap : Interaction)
        (aps : List Interaction) (now : ℕ)
        → lookup run s.store.batches ≡ some snap
        → approvals_for_run s.store run ≡ ap ∷ aps
        → Settles s session run
            (fold_unfolded reader decimal exec tools gate s session run snap (ap ∷ aps) now)
    unfolding fold_unfolded
    fold_unfolded-Settles s session run snap ap aps now e a =
        let (stored, h) = fold_history s.messages session in
        let whole =
          fold_unfolded reader decimal exec tools gate s session run snap (ap ∷ aps) now in
        let is =
          λ (out : Stores × (List Message ⊎ String)) (e : whole ≡ out)
              (k : Settles s session run out).
            subst (Settles s session run) (sym e) k in
        elim (Sum-cases (suspended_batch_calls stored run snap)) [
          | inr (text, c) ↦ is (s, inr text) (rw (fold_unfolded, c) refl) refl
          | inl (calls, c) ↦
              elim (Sum-cases (fold_results reader exec tools gate (ap ∷ aps) calls)) [
                | inr (text, r) ↦ is (s, inr text) (rw (fold_unfolded, c, r) refl) refl
                | inl (results, r) ↦
                    is (commit_fold reader decimal s session run h (fold_content calls results) now)
                      (rw (fold_unfolded, c, r) refl)
                      (commit_fold-Settles s session run h (fold_content calls results) now snap ap
                        aps e a)
              ]
        ]

    -- However a fold of a batch goes: if it fails, because there is no such batch or interaction, the
    -- record does not have its calls or an interaction has no handler, the stores are as they were; if
    -- it returns, then every later fold of the batch, with whatever executor, registry, gate and
    -- clock, executes nothing that matters: it changes no store and returns the history as the record
    -- has it, and the record has got at most one message by the fold, which belongs to the run.
    pub fold_batch-Settles :
        (s : Stores) (session run : String) (now : ℕ)
        → Settles s session run (fold_batch reader decimal exec tools gate s session run now)
    unfolding fold_batch fold_unfolded suspended_batch_for_run
    fold_batch-Settles s session run now =
        let h = (fold_history s.messages session).1 in
        let whole = fold_batch reader decimal exec tools gate s session run now in
        let is =
          λ (out : Stores × (List Message ⊎ String)) (e : whole ≡ out)
              (k : Settles s session run out).
            subst (Settles s session run) (sym e) k in
        let choice =
          λ (x : Interaction) (xs : List Interaction) (snap : SuspendedBatch) (o : Option ℕ).
            let out : Stores × (List Message ⊎ String) = elim o [
              | some seq ↦ (s, inl h)
              | none ↦ fold_unfolded reader decimal exec tools gate s session run snap (x ∷ xs) now
            ] in
            out in
        elim (Option-cases (lookup run s.store.batches)) [
          | inl e ↦
              is (s, inr "fold batch: no suspended batch for run")
                (rw (fold_batch, suspended_batch_for_run, e) refl) refl
          | inr (snap, e) ↦
              let e' : suspended_batch_for_run s.store run ≡ ok snap =
                rw (suspended_batch_for_run, e) refl in
              elim (List-cases (approvals_for_run s.store run)) [
                | inl a ↦ is (s, inr "no interactions for run") (rw (fold_batch, e, a) refl) refl
                | inr (ap', aps, a) ↦ elim (Option-cases snap.folded_seq) [
                  | inr (seq, f) ↦
                      is (s, inl h) (rw (fold_batch, e, a, f) refl)
                        (folded_lem s session run snap ap' aps seq e' a f, inl refl)
                  | inl f ↦
                      is
                        (fold_unfolded reader decimal exec tools gate s session run snap (ap' ∷ aps)
                          now)
                        ((rw (fold_batch, e, a) refl) ∙ ap (choice ap' aps snap) f)
                        (fold_unfolded-Settles s session run snap ap' aps now e a)
                ]
              ]
        ]
