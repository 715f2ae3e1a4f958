-- ===== src/Session/Gate/Once.antt =====
-- An interaction is decided once (internal/session/approval.go, batch.go).
use nowhere_agent.Base.{
  suc, ℕ, ◌≡◌, refl, String, Bool, true, false, not, ◌&&◌, List, [], ◌∷◌, Option, none, some, arith,
  if◌then◌else◌, str_eq, eq_iff, Bool-cases, Option-cases, inl, inr,
}
use nowhere_agent.Base.Dict.{Dict, lookup, lookup-insert}
use nowhere_agent.Session.Types.{
  Interaction, resolved, rejected, expired, is_pending, SuspendedBatch, ok, err,
  no_pending_approval,
}
use nowhere_agent.Session.Store.{MemStore}
use nowhere_agent.Session.Gate.{
  create_approval, decide_approval, sweep, sweep_expired_interactions, create_interaction_batch,
  expires, get_approval,
}

-- The operations that write interactions.
pub data GateCall : Type 0 where
  create : Interaction → String → ℕ → GateCall
  create_batch : SuspendedBatch → Interaction → String → ℕ → GateCall
  decide : String → Bool → Option String → ℕ → GateCall
  sweep_before : ℕ → GateCall

unfoldable pub apply : MemStore → GateCall → MemStore
apply m (create a fresh now) = (create_approval m a fresh now).0
apply m (create_batch b a fresh now) = (create_interaction_batch m b a fresh now).0
apply m (decide id approve result now) = (decide_approval m id approve result now).0
apply m (sweep_before cutoff) = (sweep_expired_interactions m cutoff).0

unfoldable pub apply_all : MemStore → List GateCall → MemStore
apply_all m [] = m
apply_all m (c ∷ cs) = apply_all (apply m c) cs

-- The id that a creation gives is not `id`.
abbrev pub spares : String → GateCall → Bool
spares id (create a fresh now) = not (str_eq (if str_eq a.id "" then fresh else a.id) id)
spares id (create_batch b a fresh now) = not (str_eq (if str_eq a.id "" then fresh else a.id) id)
spares id (decide j approve result now) = true
spares id (sweep_before cutoff) = true

abbrev pub spare : String → List GateCall → Bool
spare id [] = true
spare id (c ∷ cs) = spares id c && spare id cs

unfoldable pub swept : ℕ → Option Interaction → Option Interaction
swept cutoff none = none
swept cutoff (some a) = some (if expires a cutoff then record a { status = expired } else a)

lookup-sweep :
    (as' : Dict Interaction) (cutoff : ℕ) (id : String)
    → lookup id (sweep as' cutoff).0 ≡ swept cutoff (lookup id as')
unfolding sweep lookup swept
lookup-sweep [] cutoff id = refl
lookup-sweep ((j, a) ∷ rest) cutoff id = ground (arith, lookup-sweep rest cutoff id)

-- No operation changes an interaction that is not pending.
apply_settled :
    (m : MemStore) (c : GateCall) (id : String) (a : Interaction)
    → lookup id m.approvals ≡ some a
    → is_pending a.status ≡ false
    → spares id c ≡ true
    → lookup id (apply m c).approvals ≡ some a
unfolding apply create_approval create_interaction_batch decide_approval sweep_expired_interactions
    swept
apply_settled m (create b fresh now) id a h k s =
    let (m', b') = create_approval m b fresh now in
    ground (arith, h, s, lookup-insert b'.id id b' m.approvals)
apply_settled m (create_batch batch b fresh now) id a h k s =
    let (m', b') = create_approval m b fresh now in
    ground (arith, h, s, lookup-insert b'.id id b' m.approvals)
apply_settled m (decide j approve result now) id a h k s =
    elim (Option-cases (lookup j m.approvals)) [
      | inl e ↦ ground (arith, h, e)
      | inr (b, e) ↦ elim (Bool-cases (is_pending b.status)) [
        | inr f ↦ ground (arith, h, e, f)
        | inl f ↦
            let b' : Interaction = record b {
              decided_at = some now;
              result = result;
              status = if approve then resolved else rejected;
            } in
            ground (arith, h, k, e, f, eq_iff j id, lookup-insert j id b' m.approvals)
      ]
    ]
apply_settled m (sweep_before cutoff) id a h k s =
    ground (arith, h, k, lookup-sweep m.approvals cutoff id)

apply_all_settled :
    (m : MemStore) (cs : List GateCall) (id : String) (a : Interaction)
    → lookup id m.approvals ≡ some a
    → is_pending a.status ≡ false
    → spare id cs ≡ true
    → lookup id (apply_all m cs).approvals ≡ some a
unfolding apply_all
apply_all_settled m [] id a h k s = h
apply_all_settled m (c ∷ cs) id a h k s =
    apply_all_settled (apply m c) cs id a (apply_settled m c id a h k (ground (arith, s))) k
      (ground (arith, s))

-- Once an interaction is decided or expired, no later creation, decision or sweep changes it, and
-- every later decision on it fails. The creations give other ids.
pub decided_once :
    (m : MemStore) (cs : List GateCall) (id : String) (a : Interaction)
    → lookup id m.approvals ≡ some a
    → is_pending a.status ≡ false
    → spare id cs ≡ true
    → (get_approval (apply_all m cs) id ≡ ok a)
      × ((approve : Bool) (result : Option String) (now : ℕ)
          → decide_approval (apply_all m cs) id approve result now
            ≡ (apply_all m cs, err no_pending_approval))
unfolding get_approval decide_approval
decided_once m cs id a h k s =
    let e = apply_all_settled m cs id a h k s in
    (ground (arith, e), (λ approve result now. ground (arith, e, k)))

-- A decision on a pending interaction succeeds: its status follows the verdict, its result is the
-- one that is given, and the other interactions stay as they are.
decide_pending :
    (m : MemStore) (id : String) (approve : Bool) (result : Option String) (now : ℕ)
    (a : Interaction)
    → lookup id m.approvals ≡ some a
    → is_pending a.status ≡ true
    → let (m', answer) = decide_approval m id approve result now in
      let a' : Interaction = record a {
        decided_at = some now;
        result = result;
        status = if approve then resolved else rejected;
      } in
      (answer ≡ ok a')
      × (is_pending a'.status ≡ false)
      × ((j : String)
          → lookup j m'.approvals ≡ (if str_eq id j then some a' else lookup j m.approvals))
unfolding decide_approval
decide_pending m id approve result now a h k =
    let a' : Interaction = record a {
      decided_at = some now;
      result = result;
      status = if approve then resolved else rejected;
    } in
    (
      ground (arith, h, k),
      ground arith,
      (λ j. ground (arith, h, k, lookup-insert id j a' m.approvals)),
    )

-- How many interactions a sweep is to expire.
abbrev pub due : ℕ → Dict Interaction → ℕ
due cutoff [] = 0
due cutoff ((id, a) ∷ rest) = if expires a cutoff then suc (due cutoff rest) else due cutoff rest
