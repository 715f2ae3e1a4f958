-- ===== src/Session/Broker/Refines.antt =====
-- The broker of internal/session/streambroker.go keeps its promise.
use nowhere_agent.Base.{
  ℕ, ◌≤◌, ◌≡◌, refl, sym, ap, ◌∙◌, subst, ltb, String, Bool, true, false, ◌&&◌, List, [], ◌∷◌,
  Option, none, some, inl, inr, arith, keep, get_elem?, str_eq, eq_iff, Bool-cases, Option-cases,
  if◌then◌else◌,
}
use nowhere_agent.Base.Int.{ℤ, pos, negsuc}
use nowhere_agent.Base.Dict.{Dict, lookup, insert, delete, lookup-insert, lookup-delete}
use nowhere_agent.Session.Broker.{
  StreamEvent, LiveStream, MemBroker, new_mem_broker, or_new, publish, read, remove_sub, subscribe,
  unsub, settle, send, is_nil, Op, op_publish, op_subscribe, op_unsub, op_settle, op_send,
  op_receive, apply, apply_all,
}
use nowhere_agent.Session.Broker.Log.{Log, or_empty, read_log, log_settle, log_step, log_of}
use nowhere_agent.Session.Broker.Holds.{
  Holds, or_new-Holds, append_frame-Holds, attach-Holds, detach-Holds, settle_stream-Holds,
}

module _ (capacity : ℕ) (positive : 1 ≤ capacity) where
  -- A step at one key of a map, of which only that key is changed.
  lookup_replaced :
      (s session : String) (t : Bool) (ls : LiveStream) (m : Dict LiveStream)
      → lookup session (if t then delete s m else insert s ls m)
        ≡ (if str_eq s session then (if t then none else some ls) else lookup session m)
  lookup_replaced s session true ls m = lookup-delete s session m
  lookup_replaced s session false ls m = lookup-insert s session ls m

  -- Where the step is at another session, nothing changes; else the stream is that of the session.
  at_session :
      (s session : String) (m : Dict LiveStream) (o step : Option Log) (x : Option LiveStream)
      → Holds capacity (lookup session m) o
      → (Holds capacity (lookup s m) o → Holds capacity x step)
      → Holds capacity
          (if str_eq s session then x else lookup session m)
          (if str_eq s session then step else o)
  at_session s session m o step x h k = elim (Bool-cases (str_eq s session)) [
    | inr e ↦ rw e h
    | inl e ↦
        rw e (k (subst (λ key. Holds capacity (lookup key m) o) (sym ((eq_iff s session).0 e)) h))
  ]

  streams-send : (i : ℕ) (b : MemBroker) → (send i b).streams ≡ b.streams
  unfolding send
  streams-send i b = elim (Option-cases (get_elem? b.sends i)) [
    | inl e ↦ rw (send, e) refl
    | inr (x, e) ↦ rw (send, e) refl
  ]

  publish-Holds :
      (session s : String) (ev : StreamEvent) (b : MemBroker) (o : Option Log)
      → b.capacity ≡ capacity
      → Holds capacity (lookup session b.streams) o
      → Holds capacity
          (lookup session (publish s ev b).1.streams)
          (log_step session (op_publish s ev) o)
  unfolding publish
  publish-Holds session s ev b o c h =
      rw (lookup-insert s session _ b.streams, c)
        (at_session s session b.streams o _ _ h (λ k.
          append_frame-Holds capacity positive ev (or_new (lookup s b.streams)) (or_empty o)
            (or_new-Holds capacity positive (lookup s b.streams) o k)))

  subscribe-Holds :
      (session s : String) (ch buffer : ℕ) (b : MemBroker) (o : Option Log)
      → Holds capacity (lookup session b.streams) o
      → Holds capacity
          (lookup session (subscribe s ch buffer b).streams)
          (log_step session (op_subscribe s ch buffer) o)
  unfolding subscribe
  subscribe-Holds session s ch buffer b o h = rw (lookup-insert s session _ b.streams) (
      at_session s session b.streams o _ _ h (λ k.
        attach-Holds capacity positive ch (or_new (lookup s b.streams)) (or_empty o)
          (or_new-Holds capacity positive (lookup s b.streams) o k)))

  -- Where there is no stream, a step that needs one changes nothing.
  missing :
      (s session : String) (m : Dict LiveStream) (o : Option Log) (f : Log → Option Log)
      → lookup s m ≡ none
      → Holds capacity (lookup session m) o
      → Holds capacity
          (lookup session m)
          (if str_eq s session then (elim o [ none ↦ none | some l ↦ f l ]) else o)
  missing s session m none f e h = elim (Bool-cases (str_eq s session)) [
    | inl t ↦ rw t h
    | inr t ↦ rw t h
  ]
  missing s session m (some l) f e h = elim (Bool-cases (str_eq s session)) [
    | inr t ↦ rw t h
    | inl t ↦
        let key : session ≡ s = sym ((eq_iff s session).0 t) in
        let gone : lookup session m ≡ none = ap (λ k. lookup k m) key ∙ e in
        absurd (subst (λ x. Holds capacity x (some l)) gone h)
  ]

  unsub-Holds :
      (session s : String) (ch : ℕ) (b : MemBroker) (o : Option Log)
      → Holds capacity (lookup session b.streams) o
      → Holds capacity (lookup session (unsub s ch b).streams) (log_step session (op_unsub s ch) o)
  unfolding unsub
  unsub-Holds session s ch b o h = elim (Option-cases (lookup s b.streams)) [
    | inl e ↦ rw (unsub, e) (missing s session b.streams o _ e h)
    | inr (ls, e) ↦
        let subs = remove_sub ch ls.subs in
        let drop_it = is_nil subs && is_nil ls.frames in
        rw (unsub, e, lookup_replaced s session drop_it (record ls { subs = subs }) b.streams)
          (at_session s session b.streams o _ _ h
            (λ k. detach-Holds capacity positive ch ls o (subst (λ x. Holds capacity x o) e k)))
  ]

  settle-Holds :
      (session s : String) (b : MemBroker) (o : Option Log)
      → Holds capacity (lookup session b.streams) o
      → Holds capacity (lookup session (settle s b).streams) (log_step session (op_settle s) o)
  unfolding settle
  settle-Holds session s b o h = elim (Option-cases (lookup s b.streams)) [
    | inl e ↦ rw (settle, e) (missing s session b.streams o log_settle e h)
    | inr (ls, e) ↦
        rw
          (
            settle,
            e,
            lookup_replaced s session (is_nil ls.subs) (record ls { frames = [] }) b.streams,
          )
          (at_session s session b.streams o _ _ h
            (λ k. settle_stream-Holds capacity positive ls o (subst (λ x. Holds capacity x o) e k)))
  ]

  apply-Holds :
      (session : String) (op : Op) (b : MemBroker) (o : Option Log)
      → b.capacity ≡ capacity
      → Holds capacity (lookup session b.streams) o
      → Holds capacity (lookup session (apply op b).streams) (log_step session op o)
  unfolding apply
  apply-Holds session (op_publish s ev) b o c h = publish-Holds session s ev b o c h
  apply-Holds session (op_subscribe s ch buffer) b o c h = subscribe-Holds session s ch buffer b o h
  apply-Holds session (op_unsub s ch) b o c h = unsub-Holds session s ch b o h
  apply-Holds session (op_settle s) b o c h = settle-Holds session s b o h
  apply-Holds session (op_send i) b o c h = rw (streams-send i b) h
  apply-Holds session (op_receive ch) b o c h = h

capacity-apply : (op : Op) (b : MemBroker) → (apply op b).capacity ≡ b.capacity
unfolding apply publish subscribe unsub settle send
capacity-apply (op_publish s ev) b = refl
capacity-apply (op_subscribe s ch buffer) b = refl
capacity-apply (op_unsub s ch) b = ground arith
capacity-apply (op_settle s) b = ground arith
capacity-apply (op_send i) b = ground arith
capacity-apply (op_receive ch) b = refl

apply_all-Holds :
    (capacity : ℕ) (session : String) (ops : List Op) (b : MemBroker) (o : Option Log)
    → 1 ≤ capacity
    → b.capacity ≡ capacity
    → Holds capacity (lookup session b.streams) o
    → Holds capacity (lookup session (apply_all ops b).streams) (log_of session ops o)
unfolding apply_all
apply_all-Holds capacity session [] b o p c h = h
apply_all-Holds capacity session (op ∷ ops) b o p c h =
    apply_all-Holds capacity session ops (apply op b) (log_step session op o) p
      (capacity-apply op b ∙ c) (apply-Holds capacity p session op b o c h)

read_stream :
    (capacity after : ℕ) (x : Option LiveStream) (o : Option Log)
    → Holds capacity x o
    → (elim x as (λ y. List StreamEvent) [
      | none ↦ []
      | some ls ↦ keep (λ ev. ltb after ev.offset) ls.frames
    ])
      ≡ read_log capacity after o
read_stream capacity after none none h = refl
read_stream capacity after none (some l) h = absurd h
read_stream capacity after (some ls) none h = absurd h
read_stream capacity after (some ls) (some l) (n, f, s, b) = ap (keep (λ ev. ltb after ev.offset)) f

read-Holds :
    (capacity after : ℕ) (session : String) (b : MemBroker) (o : Option Log)
    → Holds capacity (lookup session b.streams) o
    → read session after b ≡ read_log capacity after o
unfolding read
read-Holds capacity after session b o h = read_stream capacity after (lookup session b.streams) o h

at_least_one : (capacity : ℤ) → 1 ≤ (new_mem_broker capacity).capacity
unfolding new_mem_broker lookup
at_least_one (pos n) = ground arith
at_least_one (negsuc n) = omega arith

-- Whatever the calls to a new broker and the sends that follow them, in whatever order: a read of a
-- session after an offset gives the frames with larger offsets among the last ones, as many as the
-- capacity, of those that were published since the last settled run; the offset of a frame is its
-- position among all frames of the stream, which starts anew when it is forgotten.
pub read-log_of :
    (capacity : ℤ) (session : String) (after : ℕ) (ops : List Op)
    → read session after (apply_all ops (new_mem_broker capacity))
      ≡ read_log (new_mem_broker capacity).capacity after (log_of session ops none)
unfolding new_mem_broker lookup
read-log_of capacity session after ops =
    let b = new_mem_broker capacity in
    read-Holds b.capacity after session (apply_all ops b) (log_of session ops none)
      (apply_all-Holds b.capacity session ops b none (at_least_one capacity) refl tt)
