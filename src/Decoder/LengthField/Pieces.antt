-- ===== src/Decoder/LengthField/Pieces.antt =====
-- Configurations as `update` leaves them, fresh connections, and bytes that arrive in pieces.
use zrsocket.Base.{
  Memory, ℕ, zero, suc, ◌+◌, ◌≤◌, ◌<◌, ◌^◌, ◌≡◌, ◌⊎◌, inl, inr, refl, sym, subst, ◌∙◌, Bool, true,
  false, some, List, [], ◌∷◌, ◌++◌, append_assoc, length, length-drop, drop, arith,
}
use zrsocket.ByteBuffer.{contents, reset, reserve}
use zrsocket.ByteBuffer.Laws.{IsValid}
use zrsocket.ByteBuffer.Holding.{Holds-contents}
use zrsocket.Framing.{Feeds-append}
use zrsocket.Decoder.Common.{
  ByteOrder, little_endian, big_endian, byte_at, load16, load32, read_length_field_int8,
  read_length_field_int16_host, read_length_field_int16_network, read_length_field_int32_host,
  read_length_field_int32_network,
}
use zrsocket.Decoder.LengthField.{
  Config, Handler, update, chosen_proc, network_proc, host_proc, handle_open, decode,
}
use zrsocket.Decoder.LengthField.Refines.{
  IsConfig, IsReady, length_frame, length_frame-IsFramer, Ends, decode_feeds, FeedsLength,
}

byte_at-append : (t x : List ℕ) (i : ℕ) → i < length t → byte_at (t ++ x) i ≡ byte_at t i
byte_at-append [] x i h = absurd (omega arith)
byte_at-append (a ∷ t) x zero h = refl
byte_at-append (a ∷ t) x (suc i) h = byte_at-append t x i (omega arith)

load16-append :
    (order : ByteOrder) (t x : List ℕ) → 2 ≤ length t → load16 order (t ++ x) ≡ load16 order t
unfolding load16
load16-append little_endian t x h =
    omega (arith, byte_at-append t x 0 (omega arith), byte_at-append t x 1 (omega arith))
load16-append big_endian t x h =
    omega (arith, byte_at-append t x 0 (omega arith), byte_at-append t x 1 (omega arith))

load32-append :
    (order : ByteOrder) (t x : List ℕ) → 4 ≤ length t → load32 order (t ++ x) ≡ load32 order t
unfolding load32
load32-append little_endian t x h = omega (
  arith,
  byte_at-append t x 0 (omega arith),
  byte_at-append t x 1 (omega arith),
  byte_at-append t x 2 (omega arith),
  byte_at-append t x 3 (omega arith),
)
load32-append big_endian t x h = omega (
  arith,
  byte_at-append t x 0 (omega arith),
  byte_at-append t x 1 (omega arith),
  byte_at-append t x 2 (omega arith),
  byte_at-append t x 3 (omega arith),
)

-- The reader that `update` chooses looks at no byte behind the length field.
chosen_proc-append :
    (host order : ByteOrder) (n : ℕ) (t x : List ℕ)
    → 1 ≤ n
    → n ≤ length t
    → chosen_proc host n order (t ++ x) ≡ chosen_proc host n order t
unfolding chosen_proc network_proc host_proc read_length_field_int8 read_length_field_int16_host
    read_length_field_int16_network read_length_field_int32_host read_length_field_int32_network
chosen_proc-append host big_endian n t x a b =
    ground (arith, byte_at-append t x 0, load16-append host t x, load32-append host t x)
chosen_proc-append host little_endian n t x a b =
    ground (arith, byte_at-append t x 0, load16-append host t x, load32-append host t x)

-- What `update` makes of a configuration serves the decoder, on every machine, if the length field
-- has a byte and the header fits in a message.
pub update-IsConfig :
    (host : ByteOrder) (c : Config)
    → 1 ≤ c.length_field_length
    → c.length_field_offset + c.length_field_length ≤ c.max_message_length
    → c.max_message_length < 2 ^ 32
    → IsConfig (update host c)
unfolding update
update-IsConfig host c some_byte fits word = record {
  field_in_head = omega arith;
  some_head = omega arith;
  head_fits = omega arith;
  in_word = word;
  head_only = λ s x h.
      chosen_proc-append host _ c.length_field_length (drop c.length_field_offset s) x some_byte
        (omega (arith, length-drop c.length_field_offset s));
}

module _ {H : Type 0} (do_message : List ℕ → H → H × Bool) (alloc : ℕ → Bool) (c : Config)
    (v : IsConfig c) where
  -- A fresh connection is ready: `handle_open` leaves an empty buffer that has room for the longest
  -- message, if the buffer is its own and large enough or the allocator has the bytes.
  pub handle_open-IsReady :
      (fresh : Memory) (s : Handler H)
      → IsValid s.message_buffer
      → s.message_buffer.owner ≡ true
      → (c.max_message_length ≤ s.message_buffer.buffer_size) ⊎ (alloc c.max_message_length ≡ true)
      → IsReady c [] (handle_open do_message alloc c fresh s)
  unfolding handle_open reset reserve
  handle_open-IsReady fresh s w own room = ground (arith, v.in_word, v.some_head)

  -- Two calls that end with the same rest leave the same bytes in the buffer.
  same_end :
      {r : List ℕ} {go : Bool} {t u : Handler H}
      → Ends do_message alloc c v r go t
      → Ends do_message alloc c v r go u
      → (go ≡ false) ⊎ (contents t.message_buffer ≡ contents u.message_buffer)
  same_end (inl (a, b)) (inl (a', b')) = inr (Holds-contents b.held ∙ sym (Holds-contents b'.held))
  same_end (inl (a, b)) (inr (a', b')) = inl a'
  same_end (inr (a, b)) e = inl a

  -- A call that returned 0 has left the handler ready.
  go_on : {r : List ℕ} {s : Handler H} → Ends do_message alloc c v r true s → IsReady c r s
  go_on (inl (a, b)) = b
  go_on (inr (a, b)) = cc

  -- The three calls that compare a delivery in two pieces with one at once, all of which return.
  pub record SameInPieces (a b : List ℕ) (s : Handler H) (go : Bool) : Type 0 where
    pub first : Handler H
    pub second : Handler H
    pub whole : Handler H
    pub first_returns : decode do_message alloc c s a ≡ some (first, true)
    pub second_returns : decode do_message alloc c first b ≡ some (second, go)
    pub whole_returns : decode do_message alloc c s (a ++ b) ≡ some (whole, go)
    pub same_app : whole.app ≡ second.app
    pub same_bytes : (go ≡ false) ⊎ (contents whole.message_buffer ≡ contents second.message_buffer)

  -- Bytes that arrive in two pieces, neither of which leads into a length that ends within its own
  -- header, leave the subclass, the result and, if the connection goes on, the buffer as they would
  -- if they had arrived at once; and all three calls return.
  pub decode_pieces :
      {r r' : List ℕ} {k k' : H} {go : Bool} (p a b : List ℕ) (s : Handler H)
      → IsReady c p s
      → FeedsLength do_message alloc c v (p ++ a) s.app r k true
      → FeedsLength do_message alloc c v (r ++ b) k r' k' go
      → SameInPieces a b s go
  decode_pieces {r} {r'} {k} {k'} {go} p a b s ready d d' =
      let x = decode_feeds do_message alloc c v p a s ready d in
      let y =
        decode_feeds do_message alloc c v r b x.after (go_on x.ends)
          (subst (λ h. FeedsLength do_message alloc c v (r ++ b) h r' k' go) (sym x.same_app) d') in
      let z = decode_feeds do_message alloc c v p (a ++ b) s ready (
        subst (λ w. FeedsLength do_message alloc c v w s.app r' k' go) (append_assoc p a b)
          (Feeds-append do_message (length_frame c) b (length_frame-IsFramer c v) d refl d')) in
      record {
        first = x.after;
        second = y.after;
        whole = z.after;
        first_returns = x.computed;
        second_returns = y.computed;
        whole_returns = z.computed;
        same_app = z.same_app ∙ sym y.same_app;
        same_bytes = same_end z.ends y.ends;
      }
