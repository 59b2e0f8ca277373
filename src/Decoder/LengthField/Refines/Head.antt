-- ===== src/Decoder/LengthField/Refines/Head.antt =====
-- The frames of a configuration, and what a handler holds between two calls.
use zrsocket.Base.{
  ℕ, ◌≤◌, ◌<◌, ◌^◌, ◌≡◌, ◌⊎◌, inl, inr, ap, ◌∙◌, true, false, ◌||◌, List, ◌++◌, length, drop,
  length-append, leb, ltb, ◌==◌, if◌then◌else◌, le→leb, Bool-cases, drop-append, arith,
}
use zrsocket.ByteBuffer.Holding.{Holds}
use zrsocket.Framing.{Frame, more, bad, short, size, IsFramer}
use zrsocket.Decoder.LengthField.{Config, Handler}

-- What the decoder needs of a configuration: the length field lies in the header, and its reader
-- looks at the header alone; a header fits in a message, and lengths are uint_t values.
pub record IsConfig (c : Config) : Type 0 where
  pub field_in_head : c.length_field_offset ≤ c.min_head_length
  pub some_head : 0 < c.min_head_length
  pub head_fits : c.min_head_length ≤ c.max_message_length
  pub in_word : c.max_message_length < 2 ^ 32
  pub head_only :
      (s x : List ℕ)
      → c.min_head_length ≤ length s
      → c.read_length_field_proc (drop c.length_field_offset s ++ x)
        ≡ c.read_length_field_proc (drop c.length_field_offset s)

-- The length that a header announces.
abbrev pub announced : Config → List ℕ → ℕ
announced c s = c.read_length_field_proc (drop c.length_field_offset s)

-- How a frame of announced length n begins, when m bytes of it are there.
unfoldable pub frame_of : Config → ℕ → ℕ → Frame
frame_of c n m =
    if ltb c.max_message_length n || (n == 0)
    then bad
    else if leb n c.min_head_length
    then short
    else if leb n m
    then size n
    else more

unfoldable pub length_frame : Config → List ℕ → Frame
length_frame c s =
    if leb c.min_head_length (length s) then frame_of c (announced c s) (length s) else more

pub announced-append :
    (c : Config) (s x : List ℕ)
    → IsConfig c
    → c.min_head_length ≤ length s
    → announced c (s ++ x) ≡ announced c s
announced-append c s x v h =
    ap c.read_length_field_proc
      (drop-append c.length_field_offset s x (omega (arith, v.field_in_head)))
    ∙ v.head_only s x h

frame_stable :
    (c : Config) (s x : List ℕ)
    → IsConfig c
    → (f : Frame) → length_frame c s ≡ f
    → (f ≡ more → ⊥)
    → length_frame c (s ++ x) ≡ f
unfolding length_frame frame_of
frame_stable c s x v f e ne = ground (arith, announced-append c s x v, length-append s x)

pub length_frame-IsFramer : (c : Config) → IsConfig c → IsFramer (length_frame c)
unfolding length_frame frame_of
length_frame-IsFramer c v = record {
  whole = λ s n e. ground arith;
  size_stable = λ s x n e. frame_stable c s x v (size n) e (λ q. cc);
  bad_stable = λ s x e. frame_stable c s x v bad e (λ q. cc);
}

-- Between two calls the handler holds p: a part of a header, or a header and a part of the message
-- whose length it has read.
pub record IsReady {H : Type 0} (c : Config) (p : List ℕ) (s : Handler H) : Type 0 where
  pub held : Holds c.max_message_length p s.message_buffer
  pub stage :
      ((s.message_length ≡ 0) × (length p < c.min_head_length))
      ⊎ ((c.min_head_length ≤ length p)
          × (announced c p ≡ s.message_length)
          × (length p < s.message_length)
          × (s.message_length ≤ c.max_message_length))

pub IsReady-more :
    {H : Type 0} (c : Config) (p : List ℕ) (s : Handler H)
    → IsConfig c
    → IsReady c p s
    → length_frame c p ≡ more
unfolding length_frame frame_of
IsReady-more c p s v r = ground (arith, v.some_head)

module _ (c : Config) (s : List ℕ) (n : ℕ) (head : c.min_head_length ≤ length s)
    (e : announced c s ≡ n) where
  frame_eq : length_frame c s ≡ frame_of c n (length s)
  unfolding length_frame
  frame_eq =
      ap (λ t. if t then frame_of c (announced c s) (length s) else more)
        (le→leb c.min_head_length (length s) head)
      ∙ ap (λ t. frame_of c t (length s)) e

  -- What the length that the header announces says of the frame.
  pub frame_bad : (ltb c.max_message_length n || (n == 0)) ≡ true → length_frame c s ≡ bad
  unfolding frame_of
  frame_bad h = frame_eq ∙ ground arith

  pub frame_short :
      0 < n → n ≤ c.min_head_length → n ≤ c.max_message_length → length_frame c s ≡ short
  unfolding frame_of
  frame_short a b d = frame_eq ∙ ground arith

  pub frame_whole :
      c.min_head_length < n → n ≤ c.max_message_length → n ≤ length s → length_frame c s ≡ size n
  unfolding frame_of
  frame_whole a b d = frame_eq ∙ ground arith

  pub frame_part :
      c.min_head_length < n → n ≤ c.max_message_length → length s < n → length_frame c s ≡ more
  unfolding frame_of
  frame_part a b d = frame_eq ∙ ground arith

-- Fewer bytes than a header.
pub frame_no_head :
    (c : Config) (s : List ℕ) → length s < c.min_head_length → length_frame c s ≡ more
unfolding length_frame
frame_no_head c s h = ground arith

-- A length that passes the guard, of a header that an outcome begins with, is beyond the header.
pub length_beyond_head :
    (c : Config) (n : ℕ)
    → (ltb c.max_message_length n || (n == 0)) ≡ false
    → (0 < n → n ≤ c.min_head_length → n ≤ c.max_message_length → ⊥)
    → (c.min_head_length < n) × (n ≤ c.max_message_length)
length_beyond_head c n h not_short = elim (Bool-cases (leb n c.min_head_length)) [
  | inl e ↦ absurd (not_short (ground arith) (ground arith) (ground arith))
  | inr e ↦ (ground arith, ground arith)
]
