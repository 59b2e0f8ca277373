-- ===== src/Decoder/FixedLength.antt =====
-- include/zrsocket/fixed_length_message_handler.h: messages of one length.
-- `do_message` is the subclass's, on a state H of its own: it returns whether its result was not
-- negative. `data` is the list of the `len` bytes received.
pub mod Loop
pub mod Refines
pub mod Pieces
mod Tests
use zrsocket.Base.{
  ℕ, zero, suc, ◌+◌, Bool, true, false, Option, none, some, List, [], ◌∷◌, length, take, drop, leb,
  ltb, if◌then◌else◌, slice, Memory, sub32,
}
use zrsocket.ByteBuffer.{ByteBuffer, data_size, empty, write, reset, reserve}

-- The handler: `message_buffer_`, whether `last_errno_` is ERROR_CLOSE_ACTIVE, and the subclass.
pub record Handler (H : Type 0) : Type 0 where
  pub message_buffer : ByteBuffer
  pub closing : Bool
  pub app : H

-- The result of a call of `decode`: 0 or -1.
pub data Result : Type 0 where
  ok failed : Result

module _ {H : Type 0} (do_message : List ℕ → H → H × Bool) (alloc : ℕ → Bool)
    (message_length : ℕ) where
  -- handle_open, as far as the decoder is concerned.
  pub handle_open : Memory → Handler H → Handler H
  handle_open fresh s = record s {
    message_buffer = (reserve alloc fresh message_length (reset s.message_buffer)).0;
  }

  -- `while (remain_len >= message_length)`: what remains, and whether no message was refused. The
  -- first argument is fuel.
  pub deliver : ℕ → List ℕ → H → Option (List ℕ × H × Bool)
  deliver zero remain h = none
  deliver (suc fuel) remain h = elim (leb message_length (length remain)) [
    | false ↦ some (remain, h, true)
    | true ↦
        let (h', content) = do_message (take message_length remain) h in
        elim content [
          | false ↦ some (remain, h', false)
          | true ↦ deliver fuel (drop message_length remain) h'
        ]
  ]

  -- The end of both branches: what remains is kept for the next call.
  unfoldable pub keep_rest : Handler H → Option (List ℕ × H × Bool) → Option (Handler H × Result)
  keep_rest s none = none
  keep_rest s (some (remain, h, true)) = some (
    record s {
      message_buffer =
          if ltb 0 (length remain)
          then (write alloc remain 100 s.message_buffer).0
          else s.message_buffer;
      app = h;
    },
    ok,
  )
  keep_rest s (some (remain, h, false)) = some (record s { closing = true; app = h }, failed)

  -- What follows the call of `do_message` on the completed message in the buffer b.
  pub completed : Handler H → ByteBuffer → ℕ → List ℕ → H × Bool → Option (Handler H × Result)
  completed s b fuel remain (h, false) =
      some (record s { message_buffer = b; closing = true; app = h }, failed)
  completed s b fuel remain (h, true) =
      keep_rest (record s { message_buffer = reset b; app = h }) (deliver fuel remain h)

  -- The branch for a buffer that holds the start of a message, of which `need_len` bytes miss.
  pub complete : ℕ → Handler H → List ℕ → Option (Handler H × Result)
  complete need_len s bytes =
      if leb need_len (length bytes)
      then (let b = (write alloc (take need_len bytes) 100 s.message_buffer).0 in
          completed s b (length bytes + 1) (drop need_len bytes)
            (do_message (slice b.cells b.data_begin_index message_length) s.app))
      else some (record s { message_buffer = (write alloc bytes 100 s.message_buffer).0 }, ok)

  pub decode : Handler H → List ℕ → Option (Handler H × Result)
  decode s bytes =
      if empty s.message_buffer
      then keep_rest s (deliver (length bytes + 1) bytes s.app)
      else complete (sub32 message_length (data_size s.message_buffer)) s bytes
