-- ===== src/MessageHandler/Stream.antt =====
-- The order of the bytes, from the callers of `send` to the socket.
use zrsocket.Base.{
  ℕ, zero, suc, ◌+◌, ◌≤◌, ◌<◌, ◌^◌, ◌≡◌, ◌⊎◌, inl, inr, refl, sym, ap, ◌∙◌, Bool, true, ◌&&◌, List,
  [], ◌∷◌, ◌++◌, append_assoc, append-nil, length, length-drop, take, drop, take-append-drop,
  take_all, ltb, ltb→lt, ltb→le, ◌==◌, if◌then◌else◌, if_intro, All, All-append, ℤ, pos, negsuc,
  Memory, arith,
}
use zrsocket.ByteBuffer.{ByteBuffer, contents, data_size, construct_data, transfer, set_data_begin}
use zrsocket.MessageHandler.{
  ErrorIds, transient, Reply, Connection, no_buffer, negated, emplace_back, delete_handler,
  after_send, send_i, send, send_i_message, send_message,
}
use zrsocket.MessageHandler.Queues.{
  IsQueued, waiting, waiting-append, set_data_begin_lem, length-contents, construct_data_lem,
  transfer_lem, no_buffer_waiting,
}

-- The handler is registered for writing, or nothing waits.
abbrev pub Registered : Connection → Type 0
Registered c =
    (c.write_event ≡ true)
    ⊎ ((no_buffer c.queue_active ≡ true) × (no_buffer c.queue_standby ≡ true))

-- Between two calls: the buffers of both queues are sound, and the handler is registered for
-- writing if any stands there.
pub record IsSound (c : Connection) : Type 0 where
  pub active : All IsQueued c.queue_active
  pub standby : All IsQueued c.queue_standby
  pub registered : Registered c

-- What the socket has taken, then what waits, the active queue first.
unfoldable pub stream : Connection → List ℕ
stream c = c.wire ++ (waiting c.queue_active ++ waiting c.queue_standby)

-- The bytes that a call of `send` with the result `ret` is answerable for.
abbrev pub taken : ℤ → List ℕ → List ℕ
taken (pos n) bytes = bytes
taken (negsuc n) bytes = []

-- How a send may be answered: some of the bytes are taken, or there is an error.
abbrev pub IsReply : List ℕ → Reply → Type 0
IsReply bytes reply =
    ((0 < reply.send_bytes) × (reply.send_bytes ≤ length bytes))
    ⊎ ((reply.send_bytes ≡ 0) × (0 < reply.error_id))

-- What a call of `send` on c leaves and returns.
pub record Sends (bytes : List ℕ) (c : Connection) (x : Connection × ℤ) : Type 0 where
  pub active : All IsQueued x.0.queue_active
  pub standby : All IsQueued x.0.queue_standby
  pub registered : Registered c → Registered x.0
  pub same_stream : stream x.0 ≡ stream c ++ taken x.1 bytes

stream_empty :
    (c : Connection)
    → no_buffer c.queue_active ≡ true
    → no_buffer c.queue_standby ≡ true
    → stream c ≡ c.wire
unfolding stream
stream_empty c a s =
    ap (λ t. c.wire ++ (t ++ waiting c.queue_standby)) (no_buffer_waiting c.queue_active a)
    ∙ ap (λ t. c.wire ++ t) (no_buffer_waiting c.queue_standby s)
    ∙ append-nil c.wire

stream-emplace_back :
    (b : ByteBuffer) (c : Connection) → stream (emplace_back b c) ≡ stream c ++ contents b
unfolding stream waiting
stream-emplace_back b c =
    ap (λ t. c.wire ++ (waiting c.queue_active ++ t))
      (waiting-append c.queue_standby (b ∷ [])
        ∙ ap (λ t. waiting c.queue_standby ++ t) (append-nil (contents b)))
    ∙ ap (λ t. c.wire ++ t)
        (sym (append_assoc (waiting c.queue_active) (waiting c.queue_standby) (contents b)))
    ∙ sym (append_assoc c.wire (waiting c.queue_active ++ waiting c.queue_standby) (contents b))

-- Both kinds of `send` take the same paths: `rest` and `all` are the buffers that they queue when
-- the socket has taken a part and when it has taken nothing.
module _ (ids : ErrorIds) (bytes : List ℕ) (rest all : ByteBuffer) (reply : Reply) (c : Connection)
    (v : All IsQueued c.queue_active) (w : All IsQueued c.queue_standby)
    (answer : IsReply bytes reply) where
  abbrev refused : Connection
  refused = record c { last_error = reply.error_id }

  abbrev part : Connection
  part = record c { wire = c.wire ++ take reply.send_bytes bytes }

  abbrev paths : ℕ → Bool → Connection × ℤ
  paths len direct_send =
      let n = reply.send_bytes in
      if direct_send && no_buffer c.queue_standby && no_buffer c.queue_active
      then (if ltb 0 n
          then (if n == len then (part, pos 1) else (emplace_back rest part, pos 0))
          else if transient ids reply.error_id
          then (emplace_back all refused, pos 0)
          else (refused, negated reply.error_id))
      else (emplace_back all c, pos 0)

  abbrev Goal : Connection × ℤ → Type 0
  Goal x = Sends bytes c (after_send reply.unregisters x)

  module _ (idle : no_buffer c.queue_active ≡ true) (idle' : no_buffer c.queue_standby ≡ true) where
    -- The queues are empty when a send fails, so that deleting the handler loses nothing.
    failed-Sends : (e : ℕ) → 0 < e → Goal (refused, negated e)
    unfolding after_send delete_handler stream waiting
    failed-Sends zero h = absurd (omega arith)
    failed-Sends (suc e) h =
        if_intro (λ (c' : Connection). Sends bytes c (c', negsuc e)) c.deleted (λ _. kept)
          (λ _.
            if_intro (λ (c' : Connection). Sends bytes c (c', negsuc e)) reply.unregisters
              (λ _. record {
                active = _;
                standby = _;
                registered = λ _. inr (refl, refl);
                same_stream =
                    append-nil c.wire
                    ∙ sym (stream_empty c idle idle')
                    ∙ sym (append-nil (stream c));
              })
              (λ _. kept))
      where
        kept : Sends bytes c (refused, negsuc e)
        kept = record {
          active = v;
          standby = w;
          registered = λ r. r;
          same_stream = sym (append-nil (stream c));
        }

    stream-part : stream part ≡ stream c ++ take reply.send_bytes bytes
    stream-part =
        stream_empty part idle idle'
        ∙ ap (λ t. t ++ take reply.send_bytes bytes) (sym (stream_empty c idle idle'))

    whole-Sends : reply.send_bytes ≡ length bytes → Goal (part, pos 1)
    unfolding after_send
    whole-Sends e = record {
      active = v;
      standby = w;
      registered = λ r. r;
      same_stream =
          stream-part ∙ ap (λ t. stream c ++ t) (take_all reply.send_bytes bytes (omega arith));
    }

    part-Sends :
        IsQueued rest
        → contents rest ≡ drop reply.send_bytes bytes
        → Goal (emplace_back rest part, pos 0)
    unfolding after_send stream
    part-Sends vr er = record {
      active = v;
      standby = All-append IsQueued _ _ w (vr, _);
      registered = λ _. inl refl;
      same_stream =
          stream-emplace_back rest part
          ∙ ap (λ t. t ++ contents rest) stream-part
          ∙ append_assoc (stream c) (take reply.send_bytes bytes) (contents rest)
          ∙ ap (λ t. stream c ++ (take reply.send_bytes bytes ++ t)) er
          ∙ ap (λ t. stream c ++ t) (take-append-drop reply.send_bytes bytes);
    }

  unsent-Sends :
      (b : Connection)
      → All IsQueued b.queue_active
      → All IsQueued b.queue_standby
      → stream b ≡ stream c
      → IsQueued all
      → contents all ≡ bytes
      → Goal (emplace_back all b, pos 0)
  unfolding after_send stream
  unsent-Sends b va vs same vb e = record {
    active = va;
    standby = All-append IsQueued _ _ vs (vb, _);
    registered = λ _. inl refl;
    same_stream =
        stream-emplace_back all b ∙ ap (λ t. t ++ contents all) same ∙ ap (λ t. stream c ++ t) e;
  }

  paths-Sends :
      (len : ℕ) (direct_send : Bool)
      → len ≡ length bytes
      → IsQueued all
      → contents all ≡ bytes
      → (reply.send_bytes ≤ length bytes
          → IsQueued rest × (contents rest ≡ drop reply.send_bytes bytes))
      → Goal (paths len direct_send)
  unfolding stream
  paths-Sends len direct_send e va ea left =
      if_intro Goal (direct_send && no_buffer c.queue_standby && no_buffer c.queue_active)
        (λ direct.
          if_intro Goal (ltb 0 reply.send_bytes)
            (λ some_sent.
              if_intro Goal (reply.send_bytes == len)
                (λ whole. whole-Sends (ground arith) (ground arith) (ground arith))
                (λ few.
                  let (vr, er) = left (omega (arith, ltb→lt 0 reply.send_bytes some_sent)) in
                  part-Sends (ground arith) (ground arith) vr er))
            (λ none_sent.
              if_intro Goal (transient ids reply.error_id)
                (λ _. unsent-Sends refused v w refl va ea)
                (λ _.
                  failed-Sends (ground arith) (ground arith) reply.error_id
                    (omega (arith, ltb→le 0 reply.send_bytes none_sent)))))
        (λ busy. unsent-Sends c v w refl va ea)

module _ (ids : ErrorIds) (alloc : ℕ → Bool) (room : (n : ℕ) → alloc n ≡ true)
    (fresh : Memory) where
  pub send-Sends :
      (bytes : List ℕ) (direct_send : Bool) (reply : Reply) (c : Connection)
      → All IsQueued c.queue_active
      → All IsQueued c.queue_standby
      → length bytes < 2 ^ 32
      → IsReply bytes reply
      → Sends bytes c (send ids alloc fresh bytes direct_send reply c)
  unfolding send send_i
  send-Sends bytes direct_send reply c v w word answer =
      let (va, ea) = construct_data_lem alloc fresh bytes (room _) word in
      paths-Sends ids bytes (construct_data alloc fresh (drop reply.send_bytes bytes))
        (construct_data alloc fresh bytes) reply c v w answer (length bytes) direct_send refl va ea
        (λ h.
          construct_data_lem alloc fresh (drop reply.send_bytes bytes) (room _)
            (omega (arith, length-drop reply.send_bytes bytes)))

  pub send_message-Sends :
      (msg : ByteBuffer) (direct_send : Bool) (reply : Reply) (c : Connection)
      → All IsQueued c.queue_active
      → All IsQueued c.queue_standby
      → IsQueued msg
      → IsReply (contents msg) reply
      → Sends (contents msg) c (send_message ids alloc fresh msg direct_send reply c)
  unfolding send_message send_i_message
  send_message-Sends msg direct_send reply c v w vm answer =
      let (va, ea) = transfer_lem msg vm in
      paths-Sends ids (contents msg)
        (transfer (set_data_begin (msg.data_begin_index + reply.send_bytes) msg)).0 (transfer msg).0
        reply c v w answer (data_size msg) direct_send (sym (length-contents msg vm)) va ea
        (λ h.
          let (vs, es) =
            set_data_begin_lem reply.send_bytes msg vm (omega (arith, length-contents msg vm)) in
          let (vt, et) = transfer_lem _ vs in (vt, et ∙ es))

  -- While memory lasts, `send` puts its bytes behind all that were sent before, on the socket or in
  -- a queue, whatever the socket answers; if it reports an error, nothing is added and nothing lost.
  pub send_lem :
      (bytes : List ℕ) (direct_send : Bool) (reply : Reply) (c : Connection)
      → IsSound c
      → length bytes < 2 ^ 32
      → IsReply bytes reply
      → let (c', ret) = send ids alloc fresh bytes direct_send reply c in
        IsSound c' × (stream c' ≡ stream c ++ taken ret bytes)
  send_lem bytes direct_send reply c v word answer =
      let s = send-Sends bytes direct_send reply c v.active v.standby word answer in
      (
        record { active = s.active; standby = s.standby; registered = s.registered v.registered },
        s.same_stream,
      )
