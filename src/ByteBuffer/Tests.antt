-- ===== src/ByteBuffer/Tests.antt =====
-- The theorems about ByteBuffer at concrete inputs.
use zrsocket.Base.{
  ℕ, ◌+◌, ◌-◌, ◌≡◌, ◌⊎◌, refl, Bool, true, ◌&&◌, ◌||◌, none, some, [], ◌∷◌, ◌++◌, length, take,
  drop, leb, if◌then◌else◌, copy_to, arith,
}
use zrsocket.ByteBuffer.{ByteBuffer, contents, free_size, grown_size, write, read, c_str, construct}
use zrsocket.ByteBuffer.Laws.{IsValid, write_lem, read_lem, read-write}
use zrsocket.ByteBuffer.Steps.{
  constructs, calls, writes, reads, c_str_terminated, Reachable-IsValid,
}

abbrev small_blocks : ℕ → Bool
small_blocks n = leb n 64

-- Two bytes, 5 and 6, at the indices 1 and 2 of a block of 4.
abbrev two_bytes : ByteBuffer
two_bytes = record {
  cells = copy_to (λ _. 9) 1 (5 ∷ 6 ∷ []);
  buffer_size = 4;
  data_begin_index = 1;
  data_end_index = 3;
  owner = true;
}

two_bytes-IsValid : IsValid two_bytes
two_bytes-IsValid = record { ordered = omega arith; inside = omega arith; word = omega arith }

-- A write that makes the block grow to 11 bytes.
write_lem_example :
    let (b', done) = write small_blocks (7 ∷ 8 ∷ 9 ∷ []) 100 two_bytes in
    IsValid b'
    × (done ≡ (
        two_bytes.owner
        && (leb 3 (free_size two_bytes) || small_blocks (grown_size 3 100 two_bytes))))
    × (contents b' ≡ (if done then contents two_bytes ++ 7 ∷ 8 ∷ 9 ∷ [] else contents two_bytes))
    × ((if done then two_bytes else b') ≡ two_bytes)
write_lem_example =
    write_lem small_blocks (7 ∷ 8 ∷ 9 ∷ []) 100 two_bytes two_bytes-IsValid (omega arith)

read_lem_example :
    let (b', out) = read 1 two_bytes in
    let enough = leb 1 (length (contents two_bytes)) in
    IsValid b'
    × (out ≡ (if enough then some (take 1 (contents two_bytes)) else none))
    × (contents b' ≡ (if enough then drop 1 (contents two_bytes) else contents two_bytes))
    × ((if enough then two_bytes else b') ≡ two_bytes)
read_lem_example = read_lem 1 two_bytes two_bytes-IsValid

read-write_example :
    let (b', out) =
      read
        (length (contents two_bytes) + 3)
        (write small_blocks (7 ∷ 8 ∷ 9 ∷ []) 100 two_bytes).0 in
    (out ≡ some (contents two_bytes ++ 7 ∷ 8 ∷ 9 ∷ [])) × (contents b' ≡ [])
unfolding write
read-write_example =
    read-write small_blocks (7 ∷ 8 ∷ 9 ∷ []) 100 two_bytes two_bytes-IsValid (omega arith) refl

c_str_terminated_example :
    let b' = (c_str small_blocks two_bytes).0 in
    (b'.cells (b'.data_end_index - 1) ≡ 0) ⊎ (b'.cells b'.data_end_index ≡ 0)
unfolding write
c_str_terminated_example =
    c_str_terminated small_blocks two_bytes two_bytes-IsValid (omega arith) refl refl

Reachable-IsValid_example :
    IsValid
      (read 2 (write small_blocks (7 ∷ 8 ∷ 9 ∷ []) 100 (construct small_blocks (λ _. 0) 2)).0).0
unfolding construct
Reachable-IsValid_example = Reachable-IsValid {alloc = small_blocks} (
    calls
      (calls (constructs (λ _. 0) 2 (omega arith))
        (writes (construct small_blocks (λ _. 0) 2) (7 ∷ 8 ∷ 9 ∷ []) 100 (omega arith)))
      (reads (write small_blocks (7 ∷ 8 ∷ 9 ∷ []) 100 (construct small_blocks (λ _. 0) 2)).0 2))
