-- ===== src/MessageHandler.antt =====
-- include/zrsocket/message_handler.h, class MessageHandler with ByteBuffer for TSendBuffer: the two
-- send queues between the callers of `send` and the event loop's `handle_write`.
-- What the operating system does with a call is a parameter of the call: `Reply`.
-- `wire` is what the socket has taken so far. Of the event loop the handler keeps whether it is
-- registered for writing and whether it was deleted: `in_event_loop_` is false then.
pub mod Queues
pub mod Stream
pub mod Writes
pub mod Order
mod Tests
use zrsocket.Base.{
  ℕ, zero, suc, ◌+◌, ◌-◌, Bool, true, false, ◌&&◌, ◌||◌, List, [], ◌∷◌, ◌++◌, length, take, drop,
  ltb, leb, ◌==◌, if◌then◌else◌, ℤ, pos, negsuc, Memory,
}
use zrsocket.ByteBuffer.{
  ByteBuffer, contents, data_size, construct_data, transfer, set_data_begin, reset, reserve,
}

-- The error numbers of a socket that would block.
pub record ErrorIds : Type 0 where
  pub again : ℕ
  pub would_block : ℕ
  pub io_pending : ℕ
  pub no_buffers : ℕ

pub transient : ErrorIds → ℕ → Bool
transient ids e =
    (e == ids.again) || (e == ids.would_block) || (e == ids.io_pending) || (e == ids.no_buffers)

-- How socket_send or socket_sendv has answered: the bytes taken, 0 for none or an error, and
-- `error_id`; and whether epoll_ctl takes the descriptor out, if the handler is deleted then.
pub record Reply : Type 0 where
  pub send_bytes : ℕ
  pub error_id : ℕ
  pub unregisters : Bool

-- `last_errno_` is the negative of `last_error`.
pub record Connection : Type 0 where
  pub queue_active : List ByteBuffer
  pub queue_standby : List ByteBuffer
  pub last_error : ℕ
  pub write_event : Bool
  pub deleted : Bool
  pub wire : List ℕ

abbrev pub no_buffer : List ByteBuffer → Bool
no_buffer [] = true
no_buffer (b ∷ q) = false

-- -e as an int
abbrev pub negated : ℕ → ℤ
negated zero = pos 0
negated (suc e) = negsuc e

-- queue_standby_->emplace_back
abbrev pub emplace_back : ByteBuffer → Connection → Connection
emplace_back b c = record c { queue_standby = c.queue_standby ++ b ∷ [] }

-- delete_handler of the event loop, with the handle_close that it calls: both queues are cleared. A
-- handler that is not in the loop, or that epoll_ctl does not take out, stays as it is.
unfoldable pub delete_handler : Bool → Connection → Connection
delete_handler unregisters c =
    if c.deleted
    then c
    else if unregisters
    then record c { queue_active = []; queue_standby = []; write_event = false; deleted = true }
    else c

-- What follows the unlocking in each `send`: PUSH_QUEUE is 0.
unfoldable pub after_send : Bool → Connection × ℤ → Connection × ℤ
after_send unregisters (c, pos zero) = (record c { write_event = true }, pos 0)
after_send unregisters (c, pos (suc n)) = (c, pos (suc n))
after_send unregisters (c, negsuc n) = (delete_handler unregisters c, negsuc n)

module _ (ids : ErrorIds) (alloc : ℕ → Bool) (fresh : Memory) where
  -- send_i(data, len, direct_send)
  unfoldable pub send_i : List ℕ → Bool → Reply → Connection → Connection × ℤ
  send_i bytes direct_send reply c =
      let n = reply.send_bytes in
      let refused : Connection = record c { last_error = reply.error_id } in
      let part : Connection = record c { wire = c.wire ++ take n bytes } in
      if direct_send && no_buffer c.queue_standby && no_buffer c.queue_active
      then (if ltb 0 n
          then (if n == length bytes
              then (part, pos 1)
              else (emplace_back (construct_data alloc fresh (drop n bytes)) part, pos 0))
          else if transient ids reply.error_id
          then (emplace_back (construct_data alloc fresh bytes) refused, pos 0)
          else (refused, negated reply.error_id))
      else (emplace_back (construct_data alloc fresh bytes) c, pos 0)

  unfoldable pub send : List ℕ → Bool → Reply → Connection → Connection × ℤ
  send bytes direct_send reply c = after_send reply.unregisters (send_i bytes direct_send reply c)

  -- send_i(msg, direct_send): the message's bytes are moved out of `msg`.
  unfoldable pub send_i_message : ByteBuffer → Bool → Reply → Connection → Connection × ℤ
  send_i_message msg direct_send reply c =
      let n = reply.send_bytes in
      let refused : Connection = record c { last_error = reply.error_id } in
      let part : Connection = record c { wire = c.wire ++ take n (contents msg) } in
      if direct_send && no_buffer c.queue_standby && no_buffer c.queue_active
      then (if ltb 0 n
          then (if n == data_size msg then (part, pos 1) else (
            emplace_back (transfer (set_data_begin (msg.data_begin_index + n) msg)).0 part,
            pos 0,
          ))
          else if transient ids reply.error_id
          then (emplace_back (transfer msg).0 refused, pos 0)
          else (refused, negated reply.error_id))
      else (emplace_back (transfer msg).0 c, pos 0)

  unfoldable pub send_message : ByteBuffer → Bool → Reply → Connection → Connection × ℤ
  send_message msg direct_send reply c =
      after_send reply.unregisters (send_i_message msg direct_send reply c)

pub data WriteResult : Type 0 where
  not_data success partial failure : WriteResult

-- The bytes that the first `count` buffers of the queue hand to socket_sendv.
unfoldable pub gathered : ℕ → List ByteBuffer → List ℕ
gathered zero q = []
gathered (suc count) [] = []
gathered (suc count) (b ∷ q) = contents b ++ gathered count q

-- The loop that takes `send_bytes` bytes off the front of the queue.
unfoldable pub take_off : ℕ → ℕ → List ByteBuffer → List ByteBuffer
take_off zero send_bytes q = q
take_off (suc count) send_bytes [] = []
take_off (suc count) send_bytes (b ∷ q) =
    let rest = take_off count (send_bytes - data_size b) q in
    if leb (data_size b) send_bytes
    then (if ltb (send_bytes - data_size b) 1 then q else rest)
    else set_data_begin (b.data_begin_index + send_bytes) b ∷ q

-- The swap under the mutex, if the active queue is empty; the second component says whether there
-- is something to send.
unfoldable pub take_standby : Connection → Connection × Bool
take_standby c =
    if no_buffer c.queue_standby
    then (c, false)
    else (record c { queue_active = c.queue_standby; queue_standby = c.queue_active }, true)

module _ (ids : ErrorIds) where
  -- handle_write behind the swap: the sending of what is in the active queue.
  unfoldable pub write_active : ℕ → Reply → Connection → Connection × WriteResult
  write_active iovecs_count reply c =
      let n = reply.send_bytes in
      let size = length c.queue_active in
      let count = (if ltb size iovecs_count then size else iovecs_count) in
      let out = gathered count c.queue_active in
      if ltb 0 n
      then (
        record c { queue_active = take_off count n c.queue_active; wire = c.wire ++ take n out },
        if n == length out then success else partial,
      )
      else if transient ids reply.error_id
      then (c, partial)
      else (delete_handler reply.unregisters (record c { last_error = reply.error_id }), failure)

  -- handle_write without a step of another thread in between.
  unfoldable pub handle_write : ℕ → Reply → Connection → Connection × WriteResult
  handle_write iovecs_count reply c =
      if no_buffer c.queue_active
      then (let taken = take_standby c in
          if taken.1
          then write_active iovecs_count reply taken.0
          else (record taken.0 { write_event = false }, not_data))
      else write_active iovecs_count reply c

-- The end of handle_open: the queues are cleared.
unfoldable pub clear_queues : Connection → Connection
clear_queues c = record c { queue_active = []; queue_standby = [] }
