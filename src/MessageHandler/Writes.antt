-- ===== src/MessageHandler/Writes.antt =====
-- The event loop's side of the queues: the steps of handle_write.
use zrsocket.Base.{
  ℕ, ◌≤◌, ◌<◌, ◌≡◌, ◌⊎◌, inl, inr, refl, sym, subst, ap, ◌∙◌, Bool, true, false, List, [], ◌++◌,
  append_assoc, append-nil, length, take, take-append-drop, ltb, ltb→lt, ◌==◌, if◌then◌else◌,
  if_intro, Bool-cases, All, arith,
}
use zrsocket.ByteBuffer.{ByteBuffer}
use zrsocket.MessageHandler.{
  ErrorIds, transient, Reply, Connection, no_buffer, gathered, take_off, WriteResult, not_data,
  success, partial, failure, delete_handler, write_active, take_standby, handle_write,
}
use zrsocket.MessageHandler.Queues.{
  IsQueued, waiting, take-gathered, take_off_lem, no_buffer_waiting,
}
use zrsocket.MessageHandler.Stream.{IsSound, stream}

-- The queue that handle_write sends from, and the bytes that it hands to the socket.
abbrev pub count_of : ℕ → List ByteBuffer → ℕ
count_of iovecs_count q = if ltb (length q) iovecs_count then length q else iovecs_count

abbrev pub sending : Connection → List ByteBuffer
sending c = if no_buffer c.queue_active then c.queue_standby else c.queue_active

abbrev pub offered : ℕ → Connection → List ℕ
offered iovecs_count c = gathered (count_of iovecs_count (sending c)) (sending c)

-- Bytes that go from the front of the queues to the socket stay in the stream.
moved : (w a s t rest : List ℕ) → t ++ rest ≡ a → (w ++ t) ++ (rest ++ s) ≡ w ++ (a ++ s)
moved w a s t rest e =
    append_assoc w t (rest ++ s)
    ∙ ap (λ x. w ++ x) (sym (append_assoc t rest s))
    ∙ ap (λ x. w ++ (x ++ s)) e

-- What a step of handle_write on c leaves and returns: `lost` are the bytes that it has thrown away.
pub record Writes (c : Connection) (x : Connection × WriteResult) : Type 0 where
  pub active : All IsQueued x.0.queue_active
  pub standby : All IsQueued x.0.queue_standby
  pub event :
      (x.0.write_event ≡ c.write_event)
      ⊎ ((no_buffer x.0.queue_active ≡ true) × (no_buffer x.0.queue_standby ≡ true))
  pub lost : List ℕ
  pub order : stream x.0 ++ lost ≡ stream c
  pub reason : (lost ≡ []) ⊎ ((x.0.deleted ≡ true) × (x.1 ≡ failure))

-- A step that throws nothing away.
kept :
    (c c' : Connection) (r : WriteResult)
    → All IsQueued c'.queue_active
    → All IsQueued c'.queue_standby
    → c'.write_event ≡ c.write_event
    → stream c' ≡ stream c
    → Writes c (c', r)
kept c c' r va vs on e = record {
  active = va;
  standby = vs;
  event = inl on;
  lost = [];
  order = append-nil (stream c') ∙ e;
  reason = inl refl;
}

module _ (ids : ErrorIds) (iovecs_count : ℕ) (reply : Reply) where
  taken_off-Writes :
      (c : Connection)
      → All IsQueued c.queue_active
      → All IsQueued c.queue_standby
      → 0 < reply.send_bytes
      → reply.send_bytes ≤ length (gathered (count_of iovecs_count c.queue_active) c.queue_active)
      → Writes c (
          let count = count_of iovecs_count c.queue_active in
          let out = gathered count c.queue_active in
          (
            record c {
              queue_active = take_off count reply.send_bytes c.queue_active;
              wire = c.wire ++ take reply.send_bytes out;
            },
            if reply.send_bytes == length out then success else partial,
          ))
  unfolding stream
  taken_off-Writes c v w some_sent h =
      let count = count_of iovecs_count c.queue_active in
      let (va, e) = take_off_lem count reply.send_bytes c.queue_active v some_sent h in
      kept c _ _ va w refl (
        moved c.wire (waiting c.queue_active) (waiting c.queue_standby) _ _ (
          ap (λ t. t ++ waiting (take_off count reply.send_bytes c.queue_active))
            (take-gathered count reply.send_bytes c.queue_active h)
          ∙ ap (λ t. take reply.send_bytes (waiting c.queue_active) ++ t) e
          ∙ take-append-drop reply.send_bytes (waiting c.queue_active)))

  -- An error that is not transient: the handler is deleted, and what waits is lost.
  failed-Writes :
      (c : Connection)
      → All IsQueued c.queue_active
      → All IsQueued c.queue_standby
      → Writes c
          (delete_handler reply.unregisters (record c { last_error = reply.error_id }), failure)
  unfolding delete_handler stream waiting
  failed-Writes c v w =
      if_intro (λ (c' : Connection). Writes c (c', failure)) c.deleted
        (λ _. kept c _ failure v w refl refl)
        (λ _.
          if_intro (λ (c' : Connection). Writes c (c', failure)) reply.unregisters
            (λ _. record {
              active = _;
              standby = _;
              event = inr (refl, refl);
              lost = waiting c.queue_active ++ waiting c.queue_standby;
              order =
                  ap (λ t. t ++ (waiting c.queue_active ++ waiting c.queue_standby))
                    (append-nil c.wire);
              reason = inr (refl, refl);
            })
            (λ _. kept c _ failure v w refl refl))

  pub write_active-Writes :
      (c : Connection)
      → All IsQueued c.queue_active
      → All IsQueued c.queue_standby
      → reply.send_bytes ≤ length (gathered (count_of iovecs_count c.queue_active) c.queue_active)
      → Writes c (write_active ids iovecs_count reply c)
  unfolding write_active
  write_active-Writes c v w h =
      if_intro (Writes c) (ltb 0 reply.send_bytes)
        (λ some_sent. taken_off-Writes c v w (ltb→lt 0 reply.send_bytes some_sent) h)
        (λ _.
          if_intro (Writes c) (transient ids reply.error_id) (λ _. kept c c partial v w refl refl)
            (λ _. failed-Writes c v w))

abbrev pub swapped : Connection → Connection
swapped c = record c { queue_active = c.queue_standby; queue_standby = c.queue_active }

pub take_standby-cases :
    (c : Connection)
    → ((take_standby c ≡ (c, false)) × (no_buffer c.queue_standby ≡ true))
      ⊎ ((take_standby c ≡ (swapped c, true)) × (no_buffer c.queue_standby ≡ false))
unfolding take_standby
take_standby-cases c = elim (Bool-cases (no_buffer c.queue_standby)) [
  | inl none ↦ inl (rw none refl, none)
  | inr some_standby ↦ inr (rw some_standby refl, some_standby)
]

-- Swapping the queues when the active one is empty keeps the order of the bytes.
pub stream-swapped :
    (c : Connection) → no_buffer c.queue_active ≡ true → stream (swapped c) ≡ stream c
unfolding stream
stream-swapped c idle =
    ap (λ t. c.wire ++ (waiting c.queue_standby ++ t)) none
    ∙ ap (λ t. c.wire ++ t) (append-nil (waiting c.queue_standby))
    ∙ ap (λ t. c.wire ++ (t ++ waiting c.queue_standby)) (sym none)
  where
    none : waiting c.queue_active ≡ []
    none = no_buffer_waiting c.queue_active idle

registered_if :
    (c : Connection)
    → IsSound c
    → (no_buffer c.queue_active ≡ false) ⊎ (no_buffer c.queue_standby ≡ false)
    → c.write_event ≡ true
registered_if c v h = ground arith

-- What handle_write promises: the bytes in order, and the registration.
pub record Handles (c : Connection) (x : Connection × WriteResult) : Type 0 where
  pub sound : IsSound x.0
  pub lost : List ℕ
  pub order : stream x.0 ++ lost ≡ stream c
  pub reason : (lost ≡ []) ⊎ ((x.0.deleted ≡ true) × (x.1 ≡ failure))

Writes-Handles :
    (c b : Connection) (x : Connection × WriteResult)
    → b.write_event ≡ true
    → stream b ≡ stream c
    → Writes b x
    → Handles c x
Writes-Handles c b x on e w = record {
  sound = record {
    active = w.active;
    standby = w.standby;
    registered = elim w.event [ inl same ↦ inl (same ∙ on) | inr none ↦ inr none ];
  };
  lost = w.lost;
  order = w.order ∙ e;
  reason = w.reason;
}

-- `handle_write`, if no step of another thread comes in between: what the socket has taken and what
-- waits is, in order, what it was. Only if the result is failure and the handler has been deleted,
-- the bytes that waited are lost, which are the last ones. The registration for writing is given up
-- only if no bytes wait.
pub handle_write_lem :
    (ids : ErrorIds) (iovecs_count : ℕ) (reply : Reply) (c : Connection)
    → IsSound c
    → reply.send_bytes ≤ length (offered iovecs_count c)
    → Handles c (handle_write ids iovecs_count reply c)
unfolding handle_write
handle_write_lem ids iovecs_count reply c v h =
    if_intro (Handles c) (no_buffer c.queue_active)
      (λ idle. elim (take_standby-cases c) [
        | inl (e, none) ↦ subst Rest (sym e) (record {
          sound = record { active = v.active; standby = v.standby; registered = inr (idle, none) };
          lost = [];
          order = unfold stream in append-nil (stream c);
          reason = inl refl;
        })
        | inr (e, some_standby) ↦ subst Rest (sym e) (
            Writes-Handles c (swapped c) _ (registered_if c v (inr some_standby))
              (stream-swapped c idle)
              (write_active-Writes ids iovecs_count reply (swapped c) v.standby v.active
                (of_queue idle)))
      ])
      (λ busy.
        Writes-Handles c c _ (registered_if c v (inl busy)) refl
          (write_active-Writes ids iovecs_count reply c v.active v.standby (of_queue busy)))
  where
    Rest : Connection × Bool → Type 0
    Rest s = Handles c (
        if s.1
        then write_active ids iovecs_count reply s.0
        else (record s.0 { write_event = false }, not_data))

    of_queue :
        {b : Bool}
        → no_buffer c.queue_active ≡ b
        → let q = (if b then c.queue_standby else c.queue_active) in
          reply.send_bytes ≤ length (gathered (count_of iovecs_count q) q)
    of_queue e =
        subst
          (λ b.
            let q = (if b then c.queue_standby else c.queue_active) in
            reply.send_bytes ≤ length (gathered (count_of iovecs_count q) q))
          e h
