-- ===== src/ByteBuffer/Laws.antt =====
-- The invariant of ByteBuffer, and what reads and writes do to its contents.
use mathlib.Core.Path.{ap₂}
use zrsocket.Base.{
  ℕ, ◌+◌, ◌-◌, ◌*◌, ◌/◌, ◌^◌, ◌≤◌, ◌<◌, ◌≡◌, ap, ◌∙◌, refl, sym, subst, Option, Bool, true, false,
  not, if_intro, ◌&&◌, ◌||◌, none, some, List, [], ◌++◌, length, leb, if◌then◌else◌, slice, copy_to,
  slice-copy_to_append, length-slice, take-slice, drop-slice, take, drop, length-append, take_all,
  drop_all, add32, add32_lem, arith,
}
use zrsocket.ByteBuffer.{ByteBuffer, contents, free_size, data_size, grown_size, write, read}

pub record IsValid (b : ByteBuffer) : Type 0 where
  pub ordered : b.data_begin_index ≤ b.data_end_index
  pub inside : b.data_end_index ≤ b.buffer_size
  pub word : b.buffer_size < 2 ^ 32

pub data_size_lem :
    (b : ByteBuffer) → IsValid b → data_size b ≡ b.data_end_index - b.data_begin_index
data_size_lem b v = omega arith

-- Bytes put at the end of the data extend the contents.
pub contents-copy_to :
    (b : ByteBuffer) (bytes : List ℕ)
    → IsValid b
    → slice
        (copy_to b.cells b.data_end_index bytes)
        b.data_begin_index
        (b.data_end_index + length bytes - b.data_begin_index)
      ≡ contents b ++ bytes
contents-copy_to b bytes v =
    ap₂ (λ e n. slice (copy_to b.cells e bytes) b.data_begin_index n) at_end longer
    ∙ slice-copy_to_append b.cells b.data_begin_index (b.data_end_index - b.data_begin_index) bytes
  where
    old : ℕ
    old = b.data_end_index - b.data_begin_index

    at_end : b.data_end_index ≡ b.data_begin_index + old
    at_end = omega arith

    longer : b.data_end_index + length bytes - b.data_begin_index ≡ old + length bytes
    longer = omega arith

-- The buffer with bytes put at the end of its data, in a block that has room for them.
appended : (b : ByteBuffer) (bytes : List ℕ) (size : ℕ) → ByteBuffer
appended b bytes size = record b {
  cells = copy_to b.cells b.data_end_index bytes;
  buffer_size = size;
  data_end_index = add32 b.data_end_index (length bytes);
}

appended_lem :
    (b : ByteBuffer) (bytes : List ℕ) (size : ℕ)
    → IsValid b
    → b.data_end_index + length bytes ≤ size
    → size < 2 ^ 32
    → IsValid (appended b bytes size) × (contents (appended b bytes size) ≡ contents b ++ bytes)
unfolding appended
appended_lem b bytes size v h w = (
  omega arith,
  ap
        (λ e.
          slice (copy_to b.cells b.data_end_index bytes) b.data_begin_index
            (e - b.data_begin_index))
        (add32_lem b.data_end_index (length bytes) (omega arith))
      ∙ contents-copy_to b bytes v,
)

-- A write that fails leaves the buffer as it was.
write_failed :
    (alloc : ℕ → Bool) (bytes : List ℕ) (multiple : ℕ) (b : ByteBuffer)
    → let (b', done) = write alloc bytes multiple b in (if done then b else b') ≡ b
unfolding write
write_failed alloc bytes multiple b =
    if_intro Untouched (not b.owner) (λ _. refl)
      (λ _.
        if_intro Untouched (leb (length bytes) (free_size b)) (λ _. refl)
          (λ _.
            if_intro Untouched (alloc (grown_size (length bytes) multiple b)) (λ _. refl)
              (λ _. refl)))
  where
    Untouched : ByteBuffer × Bool → Type 0
    Untouched x = (if x.1 then b else x.0) ≡ b

write_parts :
    (alloc : ℕ → Bool) (bytes : List ℕ) (multiple : ℕ) (b : ByteBuffer)
    → IsValid b
    → b.buffer_size * multiple / 100 + b.buffer_size + length bytes < 2 ^ 32
    → let (b', done) = write alloc bytes multiple b in
      IsValid b'
      × (done ≡ (
          b.owner
          && (leb (length bytes) (free_size b) || alloc (grown_size (length bytes) multiple b))))
      × (contents b' ≡ (if done then contents b ++ bytes else contents b))
unfolding write appended
write_parts alloc bytes multiple b v fits = ground (
  arith,
  appended_lem b bytes b.buffer_size v,
  appended_lem b bytes (grown_size (length bytes) multiple b) v,
)

-- `write` succeeds exactly if the buffer owns its block and the bytes fit or the allocator has the
-- larger block; it then appends the bytes to the contents, and otherwise leaves the buffer exactly as it was.
-- The size that it asks for must not wrap around.
pub write_lem :
    (alloc : ℕ → Bool) (bytes : List ℕ) (multiple : ℕ) (b : ByteBuffer)
    → IsValid b
    → b.buffer_size * multiple / 100 + b.buffer_size + length bytes < 2 ^ 32
    → let (b', done) = write alloc bytes multiple b in
      IsValid b'
      × (done ≡ (
          b.owner
          && (leb (length bytes) (free_size b) || alloc (grown_size (length bytes) multiple b))))
      × (contents b' ≡ (if done then contents b ++ bytes else contents b))
      × ((if done then b else b') ≡ b)
write_lem alloc bytes multiple b v fits =
    let (a, c, d) = write_parts alloc bytes multiple b v fits in
    (a, c, d, write_failed alloc bytes multiple b)

read_parts :
    (size : ℕ) (b : ByteBuffer)
    → IsValid b
    → let (b', out) = read size b in
      let enough = leb size (length (contents b)) in
      IsValid b'
      × (out ≡ (if enough then some (take size (contents b)) else none))
      × (contents b' ≡ (if enough then drop size (contents b) else contents b))
unfolding read
read_parts size b v = ground (
  arith,
  length-slice b.cells b.data_begin_index (b.data_end_index - b.data_begin_index),
  take-slice size b.cells b.data_begin_index (b.data_end_index - b.data_begin_index),
  drop-slice size b.cells b.data_begin_index (b.data_end_index - b.data_begin_index),
)

read_failed :
    (size : ℕ) (b : ByteBuffer)
    → IsValid b
    → (if leb size (length (contents b)) then b else (read size b).0) ≡ b
unfolding read
read_failed size b v =
    subst (λ t. (if t then b else (read size b).0) ≡ b) (ap (leb size) same_length)
      (untouched (leb size (data_size b)))
  where
    same_length : data_size b ≡ length (contents b)
    same_length =
        data_size_lem b v
        ∙ sym (length-slice b.cells b.data_begin_index (b.data_end_index - b.data_begin_index))

    untouched :
        (t : Bool)
        → let x : ByteBuffer × Option (List ℕ) =
            if t
            then (
              record b { data_begin_index = add32 b.data_begin_index size },
              some (slice b.cells b.data_begin_index size),
            )
            else (b, none) in
          (if t then b else x.0) ≡ b
    untouched true = refl
    untouched false = refl

-- `read` hands out the first bytes of the contents and leaves the others, or leaves the buffer
-- exactly as it was if there are too few.
pub read_lem :
    (size : ℕ) (b : ByteBuffer)
    → IsValid b
    → let (b', out) = read size b in
      let enough = leb size (length (contents b)) in
      IsValid b'
      × (out ≡ (if enough then some (take size (contents b)) else none))
      × (contents b' ≡ (if enough then drop size (contents b) else contents b))
      × ((if enough then b else b') ≡ b)
read_lem size b v = let (a, c, d) = read_parts size b v in (a, c, d, read_failed size b v)

-- A successful write, then a read of all there is: the bytes come out behind those that were
-- there, and the buffer is empty. The size that the write may ask for must not wrap around.
pub read-write :
    (alloc : ℕ → Bool) (bytes : List ℕ) (multiple : ℕ) (b : ByteBuffer)
    → IsValid b
    → b.buffer_size * multiple / 100 + b.buffer_size + length bytes < 2 ^ 32
    → (write alloc bytes multiple b).1 ≡ true
    → let (b', out) = read (length (contents b) + length bytes) (write alloc bytes multiple b).0 in
      (out ≡ some (contents b ++ bytes)) × (contents b' ≡ [])
read-write alloc bytes multiple b v fits done = ground (
  arith,
  write_parts alloc bytes multiple b v fits,
  read_parts (length (contents b) + length bytes) (write alloc bytes multiple b).0,
  length-append (contents b) bytes,
  take_all (length (contents b) + length bytes) (contents b ++ bytes),
  drop_all (length (contents b) + length bytes) (contents b ++ bytes),
)
