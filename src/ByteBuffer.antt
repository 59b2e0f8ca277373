-- ===== src/ByteBuffer.antt =====
-- include/zrsocket/byte_buffer.h, class ByteBuffer.
-- `cells` is the block at `buffer_`; what stands behind the block's end is nobody's, and realloc
-- keeps what stands before it. A null `buffer_` is a block of size 0. Whether the allocator has
-- `n` bytes is `alloc n`, a parameter of each operation that allocates.
-- Two objects that share a block after a copy have each their own `cells` here.
pub mod Laws
pub mod Holding
pub mod Steps
mod Tests
use zrsocket.Base.{
  ℕ, zero, suc, ◌+◌, ◌-◌, ◌*◌, ◌/◌, ◌%◌, ◌^◌, ◌≤◌, ◌<◌, ◌≡◌, Bool, true, false, not, ◌&&◌, Option,
  none, some, List, [], ◌∷◌, length, leb, ltb, ◌==◌, if◌then◌else◌, Memory, slice, copy_to, add32,
  sub32, mul32,
}

pub record ByteBuffer : Type 0 where
  pub cells : Memory
  pub buffer_size : ℕ
  pub data_begin_index : ℕ
  pub data_end_index : ℕ
  pub owner : Bool

-- `data_size`, `free_size`, `empty`
abbrev pub data_size : ByteBuffer → ℕ
data_size b = sub32 b.data_end_index b.data_begin_index

abbrev pub free_size : ByteBuffer → ℕ
free_size b = sub32 b.buffer_size b.data_end_index

abbrev pub empty : ByteBuffer → Bool
empty b = data_size b == 0

-- The unread bytes, at `data()`.
abbrev pub contents : ByteBuffer → List ℕ
contents b = slice b.cells b.data_begin_index (b.data_end_index - b.data_begin_index)

module _ (alloc : ℕ → Bool) where
  -- ByteBuffer(buffer_size): the fresh block holds whatever the allocator left in it.
  unfoldable pub construct : Memory → ℕ → ByteBuffer
  construct fresh size = record {
    cells = fresh;
    buffer_size = if alloc size then size else 0;
    data_begin_index = 0;
    data_end_index = 0;
    owner = true;
  }

  -- ByteBuffer(data, size)
  unfoldable pub construct_data : Memory → List ℕ → ByteBuffer
  construct_data fresh bytes =
      if alloc (length bytes)
      then record {
        cells = copy_to fresh 0 bytes;
        buffer_size = length bytes;
        data_begin_index = 0;
        data_end_index = length bytes;
        owner = true;
      }
      else record {
        cells = fresh;
        buffer_size = 0;
        data_begin_index = 0;
        data_end_index = 0;
        owner = true;
      }

-- ByteBuffer(buf), copying or moving: the new object, and `buf` behind it.
unfoldable pub transfer : ByteBuffer → ByteBuffer × ByteBuffer
transfer buf = if buf.owner then (record buf { owner = true }, record buf { owner = false }) else (
  record {
    cells = buf.cells;
    buffer_size = 0;
    data_begin_index = 0;
    data_end_index = 0;
    owner = false;
  },
  buf,
)

unfoldable pub clear : ByteBuffer → ByteBuffer
clear b = record b { buffer_size = 0; data_begin_index = 0; data_end_index = 0; owner = true }

unfoldable pub reset : ByteBuffer → ByteBuffer
reset b = record b { data_begin_index = 0; data_end_index = 0 }

-- data_begin(new_begin_index)
unfoldable pub set_data_begin : ℕ → ByteBuffer → ByteBuffer
set_data_begin index b =
    let new = (if ltb b.buffer_size index then b.buffer_size else index) in
    record b {
      data_begin_index = new;
      data_end_index = if ltb b.data_end_index new then new else b.data_end_index;
    }

-- data_end(new_end_index)
unfoldable pub set_data_end : ℕ → ByteBuffer → ByteBuffer
set_data_end index b =
    let new = (if ltb b.buffer_size index then b.buffer_size else index) in
    record b {
      data_begin_index = if ltb new b.data_begin_index then new else b.data_begin_index;
      data_end_index = new;
    }

unfoldable pub advance : ℕ → ByteBuffer → ByteBuffer
advance amount b =
    if leb (add32 b.data_end_index amount) b.buffer_size
    then record b { data_end_index = add32 b.data_end_index amount }
    else b

unfoldable pub set_owner : Bool → ByteBuffer → ByteBuffer
set_owner own b = record b { owner = own }

-- The size that `write` asks for when the bytes do not fit.
abbrev pub grown_size : ℕ → ℕ → ByteBuffer → ℕ
grown_size size multiple b = add32 (add32 (mul32 b.buffer_size multiple / 100) b.buffer_size) size

module _ (alloc : ℕ → Bool) where
  -- A larger block in place of the old one, with no data in it.
  abbrev restarted : Memory → ℕ → ByteBuffer
  restarted cells new_size = record {
    cells = cells;
    buffer_size = new_size;
    data_begin_index = 0;
    data_end_index = 0;
    owner = true;
  }

  -- realloc keeps the bytes of the old block, malloc gives a block with `fresh` in it.
  unfoldable pub reserve : Memory → ℕ → ByteBuffer → ByteBuffer × Bool
  reserve fresh new_size b =
      if b.owner
      then (if ltb b.buffer_size new_size && alloc new_size
          then (restarted b.cells new_size, true)
          else (b, false))
      else if alloc new_size
      then (restarted fresh new_size, true)
      else (b, false)

  -- write(data, size, multiple)
  unfoldable pub write : List ℕ → ℕ → ByteBuffer → ByteBuffer × Bool
  write bytes multiple b =
      let size = length bytes in
      let new_size = grown_size size multiple b in
      let written = copy_to b.cells b.data_end_index bytes in
      if not b.owner
      then (b, false)
      else if leb size (free_size b)
      then (record b { cells = written; data_end_index = add32 b.data_end_index size }, true)
      else if alloc new_size
      then (
        record b {
          cells = written;
          buffer_size = new_size;
          data_end_index = add32 b.data_end_index size;
        },
        true,
      )
      else (b, false)

-- read(size): the bytes read, or none where the source returns -1 or nullptr.
unfoldable pub read : ℕ → ByteBuffer → ByteBuffer × Option (List ℕ)
read size b =
    if leb size (data_size b)
    then (
      record b { data_begin_index = add32 b.data_begin_index size },
      some (slice b.cells b.data_begin_index size),
    )
    else (b, none)

module _ (alloc : ℕ → Bool) where
  -- c_str(): the buffer behind the call, and whether a pointer is returned.
  unfoldable pub c_str : ByteBuffer → ByteBuffer × Bool
  c_str b =
      if empty b
      then (b, false)
      else if b.cells (b.data_end_index - 1) == 0
      then (b, true)
      else (let (b', done) = write alloc (0 ∷ []) 100 b in
          if done then (record b' { data_end_index = b'.data_end_index - 1 }, true) else (b', true))
