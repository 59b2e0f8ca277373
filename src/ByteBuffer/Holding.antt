-- ===== src/ByteBuffer/Holding.antt =====
-- A buffer as the decoders use it: filled from its start, and never beyond the capacity that
-- `handle_open` has reserved.
use mathlib.Core.Path.{ap₂}
use zrsocket.Base.{
  ℕ, ◌+◌, ◌-◌, ◌^◌, ◌≤◌, ◌<◌, ◌≡◌, sym, ap, ◌∙◌, Bool, true, List, [], ◌++◌, length, length-append,
  take, ◌==◌, slice, slice-copy_to_append, take-slice, drop-slice, drop, slice-add, take_all,
  take-append_past, length-take, copy_to, arith,
}
use zrsocket.ByteBuffer.{ByteBuffer, contents, data_size, empty, write, reset}

-- The buffer b holds the bytes p, from its start, and has room for `cap` bytes.
pub record Holds (cap : ℕ) (p : List ℕ) (b : ByteBuffer) : Type 0 where
  pub start : b.data_begin_index ≡ 0
  pub end : b.data_end_index ≡ length p
  pub bytes : slice b.cells 0 (length p) ≡ p
  pub owned : b.owner ≡ true
  pub fits : length p ≤ cap
  pub room : cap ≤ b.buffer_size
  pub word : b.buffer_size < 2 ^ 32

pub Holds-contents : {cap : ℕ} {p : List ℕ} {b : ByteBuffer} → Holds cap p b → contents b ≡ p
Holds-contents {p = p} {b = b} h = ap₂ (λ i n. slice b.cells i n) h.start (n_eq) ∙ h.bytes
  where
    n_eq : b.data_end_index - b.data_begin_index ≡ length p
    n_eq = omega arith

pub Holds-data_size :
    {cap : ℕ} {p : List ℕ} {b : ByteBuffer} → Holds cap p b → data_size b ≡ length p
Holds-data_size h = omega arith

pub Holds-empty :
    {cap : ℕ} {p : List ℕ} {b : ByteBuffer} → Holds cap p b → empty b ≡ (length p == 0)
Holds-empty {p = p} {b = b} h = ap (λ n. n == 0) (Holds-data_size h)

pub Holds-take :
    {cap : ℕ} {p : List ℕ} {b : ByteBuffer} (n : ℕ)
    → Holds cap p b
    → n ≤ length p
    → slice b.cells b.data_begin_index n ≡ take n p
Holds-take {p = p} {b = b} n h le =
    ap (λ i. slice b.cells i n) h.start
    ∙ sym (take-slice n b.cells 0 (length p) le)
    ∙ ap (take n) h.bytes

-- A write within the capacity: no allocation takes place, and it succeeds.
pub Holds-write :
    {cap : ℕ} {p : List ℕ} {b : ByteBuffer} (alloc : ℕ → Bool) (x : List ℕ)
    → Holds cap p b
    → length p + length x ≤ cap
    → Holds cap (p ++ x) (write alloc x 100 b).0
unfolding write
Holds-write {cap} {p} {b} alloc x h le = ground (arith, filled, length-append p x)
  where
    at_end : b.data_end_index ≡ 0 + length p
    at_end = omega arith

    filled : slice (copy_to b.cells b.data_end_index x) 0 (length (p ++ x)) ≡ p ++ x
    filled =
        ap₂ (λ e n. slice (copy_to b.cells e x) 0 n) at_end (length-append p x)
        ∙ slice-copy_to_append b.cells 0 (length p) x
        ∙ ap (λ t. t ++ x) h.bytes

pub Holds-reset : {cap : ℕ} {p : List ℕ} {b : ByteBuffer} → Holds cap p b → Holds cap [] (reset b)
unfolding reset
Holds-reset h = ground arith

-- A frame of n bytes that is completed by a write stands at `data()`.
pub Holds-message :
    {cap : ℕ} {p : List ℕ} {b : ByteBuffer} (alloc : ℕ → Bool) (x : List ℕ) (n need : ℕ)
    → Holds cap p b
    → n ≡ length p + need
    → need ≤ length x
    → n ≤ cap
    → let b' = (write alloc (take need x) 100 b).0 in
      slice b'.cells b'.data_begin_index n ≡ take n (p ++ x)
Holds-message {p = p} alloc x n need h e le fits =
    Holds-take n (Holds-write alloc (take need x) h (omega (arith, length-take need x)))
      (omega (arith, length-append p (take need x), length-take need x))
    ∙ take_all n (p ++ take need x)
        (omega (arith, length-append p (take need x), length-take need x))
    ∙ sym (take-append_past p x need n e)

-- What stands from an index of the held bytes on, up to the end of the block.
pub Holds-at_data :
    {cap : ℕ} {p : List ℕ} {b : ByteBuffer} (offset : ℕ)
    → Holds cap p b
    → offset ≤ length p
    → slice b.cells (b.data_begin_index + offset) (b.buffer_size - (b.data_begin_index + offset))
      ≡ drop offset p ++ slice b.cells (length p) (b.buffer_size - length p)
Holds-at_data {p = p} {b = b} offset h le =
    ap₂ (λ i n. slice b.cells i n) start size
    ∙ slice-add b.cells (0 + offset) (length p - offset) (b.buffer_size - length p)
    ∙ ap₂ (λ x i. x ++ slice b.cells i (b.buffer_size - length p))
        (sym (drop-slice offset b.cells 0 (length p) le) ∙ ap (drop offset) h.bytes) behind
  where
    start : b.data_begin_index + offset ≡ 0 + offset
    start = omega (arith, h.start)

    size :
        b.buffer_size - (b.data_begin_index + offset)
        ≡ (length p - offset) + (b.buffer_size - length p)
    size = omega (arith, h.start, h.fits, h.room)

    behind : 0 + offset + (length p - offset) ≡ length p
    behind = omega arith
