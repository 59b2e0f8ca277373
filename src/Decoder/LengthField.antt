-- ===== src/Decoder/LengthField.antt =====
-- include/zrsocket/length_field_message_handler.h: messages that carry their length in a field of
-- their header. `do_message` and `data` are as in FixedLength.
pub mod Refines
pub mod Reader
pub mod Pieces
pub mod Total
mod Tests
use zrsocket.Base.{
  ℕ, zero, suc, ◌+◌, ◌-◌, Bool, true, false, ◌||◌, Option, none, some, List, [], ◌∷◌, length, take,
  drop, leb, ltb, ◌==◌, if◌then◌else◌, add32, slice, Memory, sub32,
}
use zrsocket.ByteBuffer.{ByteBuffer, data_size, empty, write, reset, reserve}
use zrsocket.Decoder.Common.{
  ByteOrder, big_endian, little_endian, read_length_field_int8, read_length_field_int16_host,
  read_length_field_int16_network, read_length_field_int32_host, read_length_field_int32_network,
}

-- LengthFieldMessageDecoderConfig
pub record Config : Type 0 where
  pub length_field_offset : ℕ
  pub length_field_length : ℕ
  pub max_message_length : ℕ
  pub byte_order : Option ByteOrder
  pub read_length_field_proc : List ℕ → ℕ
  pub min_head_length : ℕ

-- `update()` on a machine of byte order `host`; BYTE_ORDER_UNKNOWN_ENDIAN is `none`.
abbrev pub known_order : ByteOrder → Option ByteOrder → ByteOrder
known_order host none = host
known_order host (some order) = order

pub network_proc : ByteOrder → ℕ → List ℕ → ℕ
network_proc host n =
    if n == 1
    then read_length_field_int8
    else if n == 2
    then read_length_field_int16_network host
    else if n == 4
    then read_length_field_int32_network host
    else read_length_field_int16_network host

pub host_proc : ByteOrder → ℕ → List ℕ → ℕ
host_proc host n =
    if n == 1
    then read_length_field_int8
    else if n == 2
    then read_length_field_int16_host host
    else if n == 4
    then read_length_field_int32_host host
    else read_length_field_int16_host host

pub chosen_proc : ByteOrder → ℕ → ByteOrder → List ℕ → ℕ
chosen_proc host n big_endian = network_proc host n
chosen_proc host n little_endian = host_proc host n

pub update : ByteOrder → Config → Config
update host c =
    let order = known_order host c.byte_order in
    record c {
      min_head_length = add32 c.length_field_offset c.length_field_length;
      byte_order = some order;
      read_length_field_proc = chosen_proc host c.length_field_length order;
    }

-- The handler: `message_buffer_`, `message_length_`, whether `last_errno_` is ERROR_CLOSE_ACTIVE,
-- and the subclass.
pub record Handler (H : Type 0) : Type 0 where
  pub message_buffer : ByteBuffer
  pub message_length : ℕ
  pub closing : Bool
  pub app : H

-- One round of the loop returns 0 or -1, or goes on with what remains.
pub data Round (H : Type 0) : Type 0 where
  returns : Handler H → Bool → Round H
  goes_on : Handler H → List ℕ → Round H

-- The bytes from `data() + offset` to the end of the block.
abbrev pub at_data : ByteBuffer → ℕ → List ℕ
at_data b offset = let i = b.data_begin_index + offset in slice b.cells i (b.buffer_size - i)

module _ {H : Type 0} (do_message : List ℕ → H → H × Bool) (alloc : ℕ → Bool) (c : Config) where
  -- handle_open, as far as the decoder is concerned.
  pub handle_open : Memory → Handler H → Handler H
  handle_open fresh s = record s {
    message_buffer = (reserve alloc fresh c.max_message_length (reset s.message_buffer)).0;
    message_length = 0;
  }

  -- `message_buffer_.write(remain, remain_len); return 0;`
  pub keep : Handler H → List ℕ → Round H
  keep s remain =
      returns (record s { message_buffer = (write alloc remain 100 s.message_buffer).0 }) true

  -- `last_errno_ = EventHandler::ERROR_CLOSE_ACTIVE; return -1;`
  pub close_active : Handler H → Round H
  close_active s = returns (record s { closing = true }) false

  -- What follows a call of `do_message`: the rest of the bytes, and the buffer to go on with.
  pub answered : Handler H → ByteBuffer → List ℕ → H × Bool → Round H
  answered s b rest (h, true) =
      goes_on (record s { message_buffer = b; message_length = 0; app = h }) rest
  answered s b rest (h, false) = close_active (record s { app = h })

  -- A message that stands whole in what was received.
  pub deliver_direct : Handler H → List ℕ → Round H
  deliver_direct s remain =
      let n = s.message_length in
      if leb n (length remain)
      then answered s s.message_buffer (drop n remain) (do_message (take n remain) s.app)
      else keep s remain

  -- The first branch: the buffer is empty.
  pub unbuffered : Handler H → List ℕ → Round H
  unbuffered s remain =
      if s.message_length == 0
      then (if leb c.min_head_length (length remain)
          then (let n = c.read_length_field_proc (drop c.length_field_offset remain) in
              let s' : Handler H = record s { message_length = n } in
              if ltb c.max_message_length n || (n == 0)
              then close_active s'
              else deliver_direct s' remain)
          else keep s remain)
      else deliver_direct s remain

  -- The buffer holds a header, and the length is known.
  pub complete : ℕ → Handler H → List ℕ → Round H
  complete need_len s remain =
      if leb need_len (length remain)
      then (let b = (write alloc (take need_len remain) 100 s.message_buffer).0 in
          answered (record s { message_buffer = b }) (reset b) (drop need_len remain)
            (do_message (slice b.cells b.data_begin_index s.message_length) s.app))
      else keep s remain

  -- The buffer holds a part of a header.
  pub complete_head : ℕ → Handler H → List ℕ → Round H
  complete_head need_len s remain =
      if leb need_len (length remain)
      then (let b = (write alloc (take need_len remain) 100 s.message_buffer).0 in
          let n = c.read_length_field_proc (at_data b c.length_field_offset) in
          let s' : Handler H = record s { message_buffer = b; message_length = n } in
          if ltb c.max_message_length n || (n == 0)
          then close_active s'
          else goes_on s' (drop need_len remain))
      else keep s remain

  pub round : Handler H → List ℕ → Round H
  round s remain =
      let last_len = data_size s.message_buffer in
      if empty s.message_buffer
      then unbuffered s remain
      else if ltb 0 s.message_length
      then complete (sub32 s.message_length last_len) s remain
      else complete_head (sub32 c.min_head_length last_len) s remain

  -- `do { … } while (remain_len > 0); return 0;` on fuel.
  pub rounds : ℕ → Handler H → List ℕ → Option (Handler H × Bool)
  rounds zero s remain = none
  rounds (suc fuel) s remain = elim (round s remain) [
    | returns s' good ↦ some (s', good)
    | goes_on s' rest ↦ elim (ltb 0 (length rest)) [
      | true ↦ rounds fuel s' rest
      | false ↦ some (s', true)
    ]
  ]

  -- A round that goes on has consumed a byte.
  pub decode : Handler H → List ℕ → Option (Handler H × Bool)
  decode s bytes = rounds (length bytes + 1) s bytes
