-- ===== src/MessageHandler/Queues.antt =====
-- What stands in the send queues, and what the loop of handle_write takes off them.
use zrsocket.Base.{
  ℕ, zero, suc, ◌+◌, ◌-◌, ◌≤◌, ◌<◌, ◌≡◌, refl, sym, ap, ◌∙◌, Bool, true, List, [], ◌∷◌, ◌++◌,
  append_assoc, length, take, drop, length-append, take-append, drop-append, drop-append_past, leb,
  ltb, if_intro, leb→le, leb→lt, ltb→lt, ltb→le, All, drop-slice, length-slice, Memory,
  slice-copy_to, ◌^◌, arith,
}
use zrsocket.ByteBuffer.{ByteBuffer, contents, data_size, set_data_begin, construct_data, transfer}
use zrsocket.ByteBuffer.Laws.{IsValid, data_size_lem}
use zrsocket.MessageHandler.{gathered, take_off, no_buffer}

-- A buffer that may stand in a queue.
pub record IsQueued (b : ByteBuffer) : Type 0 where
  pub valid : IsValid b
  pub owned : b.owner ≡ true

-- All the bytes in a queue, in their order.
unfoldable pub waiting : List ByteBuffer → List ℕ
waiting [] = []
waiting (b ∷ q) = contents b ++ waiting q

pub waiting-append : (p q : List ByteBuffer) → waiting (p ++ q) ≡ waiting p ++ waiting q
unfolding waiting
waiting-append [] q = refl
waiting-append (b ∷ p) q =
    ap (λ t. contents b ++ t) (waiting-append p q)
    ∙ sym (append_assoc (contents b) (waiting p) (waiting q))

-- Moving the start of the data by n bytes drops n bytes.
pub set_data_begin_lem :
    (n : ℕ) (b : ByteBuffer)
    → IsQueued b
    → n ≤ data_size b
    → IsQueued (set_data_begin (b.data_begin_index + n) b)
      × (contents (set_data_begin (b.data_begin_index + n) b) ≡ drop n (contents b))
unfolding set_data_begin
set_data_begin_lem n b v h = ground (
  arith,
  v.valid,
  data_size_lem b v.valid,
  drop-slice n b.cells b.data_begin_index (b.data_end_index - b.data_begin_index),
)

pub length-contents : (b : ByteBuffer) → IsQueued b → length (contents b) ≡ data_size b
length-contents b v =
    length-slice b.cells b.data_begin_index (b.data_end_index - b.data_begin_index)
    ∙ sym (data_size_lem b v.valid)

-- The bytes handed to the socket are the first ones of the queue.
waiting_split :
    (count : ℕ) (q : List ByteBuffer) → waiting q ≡ gathered count q ++ waiting (drop count q)
unfolding gathered waiting
waiting_split zero q = refl
waiting_split (suc count) [] = refl
waiting_split (suc count) (b ∷ q) =
    ap (λ t. contents b ++ t) (waiting_split count q)
    ∙ sym (append_assoc (contents b) (gathered count q) (waiting (drop count q)))

pub take-gathered :
    (count n : ℕ) (q : List ByteBuffer)
    → n ≤ length (gathered count q)
    → take n (gathered count q) ≡ take n (waiting q)
take-gathered count n q h = sym (
    ap (take n) (waiting_split count q)
    ∙ take-append n (gathered count q) (waiting (drop count q)) h)

-- The loop takes exactly the bytes that the socket has taken.
pub take_off_lem :
    (count n : ℕ) (q : List ByteBuffer)
    → All IsQueued q
    → 0 < n
    → n ≤ length (gathered count q)
    → All IsQueued (take_off count n q) × (waiting (take_off count n q) ≡ drop n (waiting q))
unfolding gathered waiting take_off
take_off_lem zero n q v pos h = absurd (omega arith)
take_off_lem (suc count) n [] v pos h = absurd (omega arith)
take_off_lem (suc count) n (b ∷ q) (vb, vq) pos h =
    if_intro Goal (leb (data_size b) n)
      (λ whole.
        if_intro Goal (ltb (n - data_size b) 1)
          (λ done. (
            vq,
            sym (
                drop-append_past (contents b) (waiting q) 0 n
                  (omega (arith, size, ltb→lt (n - data_size b) 1 done, leb→le _ _ whole))),
          ))
          (λ more.
            let (a, e) =
              take_off_lem count (n - data_size b) q vq
                (omega (arith, ltb→le (n - data_size b) 1 more))
                (omega
                  (arith, size, length-append (contents b) (gathered count q), leb→le _ _ whole)) in
            (
              a,
              e
                  ∙ sym (
                      drop-append_past (contents b) (waiting q) (n - data_size b) n
                        (omega (arith, size, leb→le _ _ whole))),
            )))
      (λ part.
        let (a, e) = set_data_begin_lem n b vb (omega (arith, leb→lt _ _ part)) in
        (
          (a, vq),
          ap (λ t. t ++ waiting q) e
              ∙ sym (drop-append n (contents b) (waiting q) (omega (arith, size, leb→lt _ _ part))),
        ))
  where
    Goal : List ByteBuffer → Type 0
    Goal r = All IsQueued r × (waiting r ≡ drop n (contents b ++ waiting q))

    size : length (contents b) ≡ data_size b
    size = length-contents b vb

-- A new buffer for a row of bytes holds them.
pub construct_data_lem :
    (alloc : ℕ → Bool) (fresh : Memory) (bytes : List ℕ)
    → alloc (length bytes) ≡ true
    → length bytes < 2 ^ 32
    → IsQueued (construct_data alloc fresh bytes)
      × (contents (construct_data alloc fresh bytes) ≡ bytes)
unfolding construct_data
construct_data_lem alloc fresh bytes room word = ground (arith, slice-copy_to fresh 0 bytes)

-- A moved message keeps its bytes.
pub transfer_lem :
    (b : ByteBuffer) → IsQueued b → IsQueued (transfer b).0 × (contents (transfer b).0 ≡ contents b)
unfolding transfer
transfer_lem b v = ground (arith, v.valid, v.owned)

pub no_buffer_waiting : (q : List ByteBuffer) → no_buffer q ≡ true → waiting q ≡ []
unfolding waiting
no_buffer_waiting [] e = refl
no_buffer_waiting (b ∷ q) e = cc
