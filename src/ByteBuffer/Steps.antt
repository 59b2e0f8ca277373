-- ===== src/ByteBuffer/Steps.antt =====
-- Calls of ByteBuffer's operations in any order, and `c_str`.
use zrsocket.Base.{
  ℕ, ◌+◌, ◌-◌, ◌*◌, ◌/◌, ◌^◌, ◌≤◌, ◌<◌, ◌≡◌, Bool, true, false, not, List, [], ◌∷◌, length, Memory,
  slice, slice_eq, copy_to, copy_to_outside, add32, update, update_self, ◌⊎◌, ap, ◌∙◌, arith,
}
use zrsocket.ByteBuffer.{
  ByteBuffer, contents, empty, construct, construct_data, transfer, clear, reset, set_data_begin,
  set_data_end, advance, set_owner, reserve, write, read, c_str, grown_size,
}
use zrsocket.ByteBuffer.Laws.{IsValid, write_lem, read_lem}

-- A call, its arguments uint_t values. The bounds are those under which its sums do not wrap.
pub data Step (alloc : ℕ → Bool) : ByteBuffer → ByteBuffer → Type 0 where
  clears : (b : ByteBuffer) → Step alloc b (clear b)
  resets : (b : ByteBuffer) → Step alloc b (reset b)
  begins : (b : ByteBuffer) (index : ℕ) → Step alloc b (set_data_begin index b)
  ends : (b : ByteBuffer) (index : ℕ) → Step alloc b (set_data_end index b)
  advances :
      (b : ByteBuffer) (amount : ℕ)
      → b.data_end_index + amount < 2 ^ 32
      → Step alloc b (advance amount b)
  owns : (b : ByteBuffer) (own : Bool) → Step alloc b (set_owner own b)
  reserves :
      (b : ByteBuffer) (fresh : Memory) (size : ℕ)
      → size < 2 ^ 32
      → Step alloc b (reserve alloc fresh size b).0
  writes :
      (b : ByteBuffer) (bytes : List ℕ) (multiple : ℕ)
      → b.buffer_size * multiple / 100 + b.buffer_size + length bytes < 2 ^ 32
      → Step alloc b (write alloc bytes multiple b).0
  reads : (b : ByteBuffer) (size : ℕ) → Step alloc b (read size b).0
  terminates :
      (b : ByteBuffer)
      → b.buffer_size * 100 / 100 + b.buffer_size + 1 < 2 ^ 32
      → Step alloc b (c_str alloc b).0
  moves_to : (b : ByteBuffer) → Step alloc b (transfer b).0
  moves_from : (b : ByteBuffer) → Step alloc b (transfer b).1

-- A constructor, then calls in any order.
pub data Reachable (alloc : ℕ → Bool) : ByteBuffer → Type 0 where
  constructs :
      (fresh : Memory) (size : ℕ) → size < 2 ^ 32 → Reachable alloc (construct alloc fresh size)
  constructs_data :
      (fresh : Memory) (bytes : List ℕ)
      → length bytes < 2 ^ 32
      → Reachable alloc (construct_data alloc fresh bytes)
  calls : {b b' : ByteBuffer} → Reachable alloc b → Step alloc b b' → Reachable alloc b'

advance-IsValid :
    (b : ByteBuffer) (amount : ℕ)
    → b.data_end_index + amount < 2 ^ 32
    → IsValid b
    → IsValid (advance amount b)
unfolding advance
advance-IsValid b amount h v = ground arith

reserve-IsValid :
    (alloc : ℕ → Bool) (b : ByteBuffer) (fresh : Memory) (size : ℕ)
    → size < 2 ^ 32
    → IsValid b
    → IsValid (reserve alloc fresh size b).0
unfolding reserve
reserve-IsValid alloc b fresh size h v = ground arith

-- What `c_str` leaves when its write of a NUL has succeeded.
abbrev nul_behind : ℕ → ByteBuffer → ByteBuffer
nul_behind size b = record b {
  cells = copy_to b.cells b.data_end_index (0 ∷ []);
  buffer_size = size;
  data_end_index = add32 b.data_end_index 1 - 1;
}

nul_behind_lem :
    (size : ℕ) (b : ByteBuffer)
    → IsValid b
    → b.data_end_index + 1 ≤ size
    → size < 2 ^ 32
    → IsValid (nul_behind size b)
      × (contents (nul_behind size b) ≡ contents b)
      × ((nul_behind size b).cells (nul_behind size b).data_end_index ≡ 0)
nul_behind_lem size b v h w = (omega arith, same, nul)
  where
    e : add32 b.data_end_index 1 - 1 ≡ b.data_end_index
    e = omega arith

    same : contents (nul_behind size b) ≡ contents b
    same =
        ap
          (λ k.
            slice (copy_to b.cells b.data_end_index (0 ∷ [])) b.data_begin_index
              (k - b.data_begin_index))
          e
        ∙ slice_eq (copy_to b.cells b.data_end_index (0 ∷ [])) b.cells b.data_begin_index
            (b.data_end_index - b.data_begin_index)
            (λ j _ lt. copy_to_outside b.cells b.data_end_index (0 ∷ []) j (omega arith))

    nul : copy_to b.cells b.data_end_index (0 ∷ []) (add32 b.data_end_index 1 - 1) ≡ 0
    nul =
        unfold copy_to in
        ap (update b.cells b.data_end_index 0) e ∙ update_self b.cells b.data_end_index 0

-- `c_str` returns a pointer exactly if there is data, and keeps the invariant and the contents.
pub c_str_lem :
    (alloc : ℕ → Bool) (b : ByteBuffer)
    → IsValid b
    → b.buffer_size * 100 / 100 + b.buffer_size + 1 < 2 ^ 32
    → let (b', found) = c_str alloc b in
      IsValid b' × (found ≡ not (empty b)) × (contents b' ≡ contents b)
unfolding c_str write
c_str_lem alloc b v fits =
    ground (arith, nul_behind_lem b.buffer_size b v, nul_behind_lem (grown_size 1 100 b) b v)

-- If there is data and a NUL can be written behind it, the text at the pointer that `c_str`
-- returns ends: the last byte of the data is a NUL, or the byte behind it is.
pub c_str_terminated :
    (alloc : ℕ → Bool) (b : ByteBuffer)
    → IsValid b
    → b.buffer_size * 100 / 100 + b.buffer_size + 1 < 2 ^ 32
    → empty b ≡ false
    → (write alloc (0 ∷ []) 100 b).1 ≡ true
    → let b' = (c_str alloc b).0 in
      (b'.cells (b'.data_end_index - 1) ≡ 0) ⊎ (b'.cells b'.data_end_index ≡ 0)
unfolding c_str write
c_str_terminated alloc b v fits some_data done =
    ground (arith, nul_behind_lem b.buffer_size b v, nul_behind_lem (grown_size 1 100 b) b v)

Step-IsValid : {alloc : ℕ → Bool} {b b' : ByteBuffer} → Step alloc b b' → IsValid b → IsValid b'
unfolding clear reset set_data_begin set_data_end set_owner transfer
Step-IsValid (clears b) v = omega arith
Step-IsValid (resets b) v = omega arith
Step-IsValid (begins b index) v = ground arith
Step-IsValid (ends b index) v = ground arith
Step-IsValid (advances b amount h) v = advance-IsValid b amount h v
Step-IsValid (owns b own) v = omega arith
Step-IsValid (reserves b fresh size h) v = reserve-IsValid _ b fresh size h v
Step-IsValid (writes b bytes multiple h) v = (write_lem _ bytes multiple b v h).0
Step-IsValid (reads b size) v = (read_lem size b v).0
Step-IsValid (terminates b h) v = (c_str_lem _ b v h).0
Step-IsValid (moves_to b) v = ground arith
Step-IsValid (moves_from b) v = ground arith

-- `data_begin_index_ <= data_end_index_ <= buffer_size_` holds after any calls of the constructors,
-- clear, reset, data_begin, data_end, advance, owner, reserve, write, read, c_str and of the copy and
-- move constructors, in any order, if no sum wraps around: in advance the end plus the amount, in
-- write and c_str the size that is asked for. The assignments and the setter of the block are not
-- among these calls.
pub Reachable-IsValid : {alloc : ℕ → Bool} {b : ByteBuffer} → Reachable alloc b → IsValid b
unfolding construct construct_data
Reachable-IsValid (constructs fresh size h) = ground arith
Reachable-IsValid (constructs_data fresh bytes h) = ground arith
Reachable-IsValid (calls r st) = Step-IsValid st (Reachable-IsValid r)
