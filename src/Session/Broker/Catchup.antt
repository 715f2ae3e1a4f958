-- ===== src/Session/Broker/Catchup.antt =====
-- Catching up with the broker of internal/session/streambroker.go after a lost connection.
use nowhere_agent.Base.{
  ℕ, suc, ◌+◌, ◌≤◌, ◌<◌, ◌≡◌, refl, sym, ap, ◌∙◌, List, [], ◌∷◌, none, some, String, arith, length,
  length-append, drop, Bool-cases, inl, inr, Bool, false, Option, ◌++◌, All, subst, append_empty,
  append_assoc, str_eq, if◌then◌else◌,
}
use nowhere_agent.Base.Int.{ℤ}
use nowhere_agent.Session.Broker.{
  StreamEvent, new_mem_broker, read, Op, apply_all, op_publish, op_subscribe, op_unsub, op_settle,
  op_send, op_receive, remove_sub,
}
use nowhere_agent.Session.Broker.Log.{Log, numbered, read_log, forget, log_step, log_of}
use nowhere_agent.Session.Broker.Numbers.{numbered-append, length-numbered}
use nowhere_agent.Session.Broker.Refines.{read-log_of}
use nowhere_agent.Session.Broker.Stretches.{drop-numbered, read_log-numbered}

-- What the steps publish in the session, and whether a step settles it.
abbrev pub published_by : String → Op → List StreamEvent
published_by session (op_publish s ev) = if str_eq s session then ev ∷ [] else []
published_by session (op_subscribe s ch buffer) = []
published_by session (op_unsub s ch) = []
published_by session (op_settle s) = []
published_by session (op_send i) = []
published_by session (op_receive ch) = []

abbrev pub published_in : String → List Op → List StreamEvent
published_in session [] = []
published_in session (op ∷ ops) = published_by session op ++ published_in session ops

abbrev pub settles : String → Op → Bool
settles session (op_publish s ev) = false
settles session (op_subscribe s ch buffer) = false
settles session (op_unsub s ch) = false
settles session (op_settle s) = str_eq s session
settles session (op_send i) = false
settles session (op_receive ch) = false

-- The log grows by what is published, and nothing else of it that a read depends on changes.
abbrev Grown : Log → List StreamEvent → Option Log → Type 0
Grown l evs o =
    (l' : Log) × (o ≡ some l') × (l'.settled ≡ l.settled) × (l'.published ≡ l.published ++ evs)

log_step-Grown :
    (session : String) (op : Op) (l : Log)
    → settles session op ≡ false
    → l.settled < length l.published
    → Grown l (published_by session op) (log_step session op (some l))
log_step-Grown session (op_publish s ev) l q h = elim (Bool-cases (str_eq s session)) [
  | inl e ↦ (record l { published = l.published ++ ev ∷ [] }, rw e refl, refl, rw e refl)
  | inr e ↦ (l, rw e refl, refl, rw e (sym (append_empty l.published)))
]
log_step-Grown session (op_subscribe s ch buffer) l q h = elim (Bool-cases (str_eq s session)) [
  | inl e ↦ (
    record l { attached = ch ∷ remove_sub ch l.attached },
    rw e refl,
    refl,
    sym (append_empty l.published),
  )
  | inr e ↦ (l, rw e refl, refl, sym (append_empty l.published))
]
log_step-Grown session (op_unsub s ch) l q h = elim (Bool-cases (str_eq s session)) [
  | inl e ↦
      let left = record l { attached = remove_sub ch l.attached } in
      let kept : forget left ≡ some left = ground (arith, h) in
      (left, rw e kept, refl, sym (append_empty l.published))
  | inr e ↦ (l, rw e refl, refl, sym (append_empty l.published))
]
log_step-Grown session (op_settle s) l q h = (l, rw q refl, refl, sym (append_empty l.published))
log_step-Grown session (op_send i) l q h = (l, refl, refl, sym (append_empty l.published))
log_step-Grown session (op_receive ch) l q h = (l, refl, refl, sym (append_empty l.published))

log_of-Grown :
    (session : String) (ops : List Op) (l : Log)
    → All (λ op. settles session op ≡ false) ops
    → l.settled < length l.published
    → Grown l (published_in session ops) (log_of session ops (some l))
log_of-Grown session [] l q h = (l, refl, refl, sym (append_empty l.published))
log_of-Grown session (op ∷ ops) l (q, qs) h =
    let (l', e, f, g) = log_step-Grown session op l q h in
    let more : l'.settled < length l'.published =
      ground (arith, f, g, h, length-append l.published (published_by session op)) in
    let (l'', e', f', g') = log_of-Grown session ops l' qs more in
    (
      l'',
      ap (log_of session ops) e ∙ e',
      f' ∙ f,
      g'
          ∙ ap (λ xs. xs ++ published_in session ops) g
          ∙ append_assoc l.published (published_by session op) (published_in session ops),
    )

log_of-append :
    (session : String) (xs ys : List Op) (o : Option Log)
    → log_of session (xs ++ ys) o ≡ log_of session ys (log_of session xs o)
log_of-append session [] ys o = refl
log_of-append session (x ∷ xs) ys o = log_of-append session xs ys (log_step session x o)

-- A read behind an offset above the last settled frame, when steps that do not settle have followed.
read-later :
    (capacity : ℤ) (session : String) (after : ℕ) (before later : List Op) (l : Log)
    → log_of session before none ≡ some l
    → l.settled < after
    → after ≤ length l.published
    → All (λ op. settles session op ≡ false) later
    → let frames = l.published ++ published_in session later in
      length frames ≤ after + (new_mem_broker capacity).capacity
      → read session after (apply_all (before ++ later) (new_mem_broker capacity))
        ≡ numbered (suc after) (drop after frames)
read-later capacity session after before later l e s k q c =
    let n = (new_mem_broker capacity).capacity in
    let (l', e', f, g) = log_of-Grown session later l q (omega arith) in
    read-log_of capacity session after (before ++ later)
    ∙ ap (read_log n after)
        (log_of-append session before later none ∙ ap (log_of session later) e ∙ e')
    ∙ read_log-numbered n after l' (ground (arith, f, s))
        (subst (λ xs. length xs ≤ after + n) (sym g) c)
    ∙ ap (λ xs. numbered (suc after) (drop after xs)) g

drop-prefix : (xs ys : List StreamEvent) → drop (length xs) (xs ++ ys) ≡ ys
drop-prefix [] ys = refl
drop-prefix (x ∷ xs) ys = drop-prefix xs ys

-- After the steps `before` a client has the frames `seen` of a session: the first ones that the broker
-- has numbered in the stream that it then holds, at least one of them since the last settled run. Then
-- anything happens to the broker, to this and to other sessions and clients, except that the session is
-- settled, and at most as many frames as the capacity come after those that the client has. What the
-- client reads behind its last frame completes what it has to all frames of the stream, in order, none
-- missing and none twice.
pub read-numbered :
    (capacity : ℤ) (session : String) (before later : List Op) (l : Log)
    (seen unseen : List StreamEvent)
    → log_of session before none ≡ some l
    → numbered 1 l.published ≡ seen ++ unseen
    → l.settled < length seen
    → All (λ op. settles session op ≡ false) later
    → let frames = l.published ++ published_in session later in
      length frames ≤ length seen + (new_mem_broker capacity).capacity
      → seen ++ read session (length seen) (apply_all (before ++ later) (new_mem_broker capacity))
        ≡ numbered 1 frames
read-numbered capacity session before later l seen unseen e p s q c =
    let after = length seen in
    let frames = l.published ++ published_in session later in
    let some_left : after ≤ length l.published =
      omega (arith, length-numbered 1 l.published, ap length p, length-append seen unseen) in
    let position : suc after ≡ 1 + after = omega arith in
    let new = numbered (1 + length l.published) (published_in session later) in
    let whole : numbered 1 frames ≡ seen ++ (unseen ++ new) =
      numbered-append 1 l.published (published_in session later)
      ∙ ap (λ xs. xs ++ new) p
      ∙ append_assoc seen unseen new in
    ap (λ xs. seen ++ xs)
      (read-later capacity session after before later l e s some_left q c
        ∙ ap (λ n. numbered n (drop after frames)) position
        ∙ sym (drop-numbered after 1 frames)
        ∙ ap (drop after) whole
        ∙ drop-prefix seen (unseen ++ new))
    ∙ sym whole
