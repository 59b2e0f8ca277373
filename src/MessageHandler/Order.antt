-- ===== src/MessageHandler/Order.antt =====
-- Runs of the callers of `send` and of the event loop, in any order of their steps.
use zrsocket.Base.{
  ℕ, ◌≤◌, ◌<◌, ◌^◌, ◌≡◌, ◌⊎◌, Bool, true, false, List, [], ◌++◌, length, All, Memory,
}
use zrsocket.ByteBuffer.{ByteBuffer, contents}
use zrsocket.MessageHandler.{
  ErrorIds, Reply, Connection, no_buffer, send, send_message, gathered, write_active, take_standby,
}
use zrsocket.MessageHandler.Queues.{IsQueued}
use zrsocket.MessageHandler.Stream.{stream, taken, IsReply}
use zrsocket.MessageHandler.Writes.{count_of, Writes}

-- The steps of the threads that share a handler, in any order, until it is deleted. A `send` decides
-- under the mutex what becomes of its bytes. The loop's thread takes the standby queue under the mutex
-- and sends from the active queue without it: it alone takes from that queue, and while the queue is
-- not empty every `send` only queues. The registration for writing may change at any time, since it is
-- made and given up behind the unlocking. The list is what the calls of `send` that reported no error
-- were given.
pub data Run (ids : ErrorIds) (alloc : ℕ → Bool) (fresh : Memory)
    : Connection → List ℕ → Connection → Type 0 where
  starts : (c : Connection) → Run ids alloc fresh c [] c
  sends :
      {c c' : Connection} {given : List ℕ}
      → Run ids alloc fresh c given c'
      → c'.deleted ≡ false
      → (bytes : List ℕ) (direct_send : Bool) (reply : Reply) → length bytes < 2 ^ 32
      → IsReply bytes reply
      → Run ids alloc fresh c
          (given ++ taken (send ids alloc fresh bytes direct_send reply c').1 bytes)
          (send ids alloc fresh bytes direct_send reply c').0
  sends_message :
      {c c' : Connection} {given : List ℕ}
      → Run ids alloc fresh c given c'
      → c'.deleted ≡ false
      → (msg : ByteBuffer) (direct_send : Bool) (reply : Reply) → IsQueued msg
      → IsReply (contents msg) reply
      → Run ids alloc fresh c
          (given ++ taken (send_message ids alloc fresh msg direct_send reply c').1 (contents msg))
          (send_message ids alloc fresh msg direct_send reply c').0
  registers :
      {c c' : Connection} {given : List ℕ}
      → Run ids alloc fresh c given c'
      → (on : Bool) → Run ids alloc fresh c given (record c' { write_event = on })
  takes :
      {c c' : Connection} {given : List ℕ}
      → Run ids alloc fresh c given c'
      → no_buffer c'.queue_active ≡ true
      → Run ids alloc fresh c given (take_standby c').0
  writes :
      {c c' : Connection} {given : List ℕ}
      → Run ids alloc fresh c given c'
      → c'.deleted ≡ false
      → (iovecs_count : ℕ) (reply : Reply)
      → reply.send_bytes ≤ length (gathered (count_of iovecs_count c'.queue_active) c'.queue_active)
      → Run ids alloc fresh c given (write_active ids iovecs_count reply c').0

-- What a run from c has made of the handler: `lost` are bytes that were given and are neither sent nor
-- waiting.
pub record Ordered (c : Connection) (given : List ℕ) (c' : Connection) : Type 0 where
  pub active : All IsQueued c'.queue_active
  pub standby : All IsQueued c'.queue_standby
  pub lost : List ℕ
  pub order : stream c' ++ lost ≡ stream c ++ given
  pub reason : (c'.deleted ≡ true) ⊎ (lost ≡ [])
