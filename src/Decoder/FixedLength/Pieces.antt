-- ===== src/Decoder/FixedLength/Pieces.antt =====
-- Fresh connections, and the bytes of a connection cut into calls of `decode`.
use zrsocket.Base.{
  Memory, ℕ, ◌<◌, ◌≤◌, ◌^◌, ◌≡◌, ◌⊎◌, inl, inr, sym, subst, ap, ◌∙◌, Bool, true, some, List, [],
  ◌++◌, append_assoc, arith,
}
use zrsocket.ByteBuffer.{contents, reset, reserve}
use zrsocket.ByteBuffer.Laws.{IsValid}
use zrsocket.ByteBuffer.Holding.{Holds-contents}
use zrsocket.Framing.{Feeds, Feeds-append, Feeds-unique}
use zrsocket.Decoder.FixedLength.{Handler, Result, ok, failed, decode, handle_open}
use zrsocket.Decoder.FixedLength.Loop.{fixed_frame, fixed_frame-IsFramer, IsReady, Ends}
use zrsocket.Decoder.FixedLength.Refines.{decode_feeds_fixed}

some_inj : {A : Type 0} {x y : A} → some x ≡ some y → x ≡ y
some_inj e = cc

module _ {H : Type 0} (do_message : List ℕ → H → H × Bool) (alloc : ℕ → Bool) (n : ℕ)
    (pos : 0 < n) where
  -- A fresh connection is ready: `handle_open` leaves an empty buffer that has room for a message,
  -- if the buffer is its own and large enough or the allocator has the bytes.
  pub handle_open-IsReady_fixed :
      (fresh : Memory) (s : Handler H)
      → n < 2 ^ 32
      → IsValid s.message_buffer
      → s.message_buffer.owner ≡ true
      → (n ≤ s.message_buffer.buffer_size) ⊎ (alloc n ≡ true)
      → IsReady do_message alloc n pos [] (handle_open do_message alloc n fresh s)
  unfolding handle_open reset reserve
  handle_open-IsReady_fixed fresh s w v own room = ground arith

  -- The outcome of a call that has returned.
  record Outcome (p bytes : List ℕ) (s : Handler H) (out : Handler H × Result) : Type 0 where
    rest : List ℕ
    go : Bool
    feeds : Feeds do_message (fixed_frame n) (p ++ bytes) s.app rest out.0.app go
    ends : Ends do_message alloc n pos rest go out

  outcome :
      (p bytes : List ℕ) {s : Handler H} {out : Handler H × Result}
      → IsReady do_message alloc n pos p s
      → decode do_message alloc n s bytes ≡ some out
      → Outcome p bytes s out
  outcome p bytes {s} {out} ready e =
      let d = decode_feeds_fixed do_message alloc n pos p bytes s ready in
      subst (Outcome p bytes s) (some_inj (sym d.computed ∙ e))
        (record { rest = d.rest; go = d.go; feeds = d.feeds; ends = d.ends })

  held_contents :
      {p : List ℕ} {s : Handler H}
      → IsReady do_message alloc n pos p s
      → contents s.message_buffer ≡ p
  held_contents ready = Holds-contents ready.held

  -- Two outcomes with the same rest leave the same bytes in the buffer.
  same_end :
      {r r' : List ℕ} {g g' : Bool} {t u : Handler H} {x y : Result}
      → r ≡ r'
      → g ≡ g'
      → Ends do_message alloc n pos r g (t, x)
      → Ends do_message alloc n pos r' g' (u, y)
      → (x ≡ y) × ((x ≡ failed) ⊎ (contents t.message_buffer ≡ contents u.message_buffer))
  same_end e f (inl (a, b, c)) (inl (a', b', c')) =
      (b ∙ sym b', inr (held_contents c ∙ e ∙ sym (held_contents c')))
  same_end e f (inl (a, b, c)) (inr (a', b', c')) = cc
  same_end e f (inr (a, b, c)) (inl (a', b', c')) = cc
  same_end e f (inr (a, b, c)) (inr (a', b', c')) = (b ∙ sym b', inl b)

  -- A call that returned 0 has left the handler ready.
  go_on :
      {r : List ℕ} {g : Bool} {s : Handler H}
      → Ends do_message alloc n pos r g (s, ok)
      → (g ≡ true) × IsReady do_message alloc n pos r s
  go_on (inl (a, b, c)) = (a, c)
  go_on (inr (a, b, c)) = cc

  -- If the three calls return and the first goes on, they agree.
  pieces_agree :
      (p a b : List ℕ) {s s1 s2 t : Handler H} {r2 r : Result}
      → IsReady do_message alloc n pos p s
      → decode do_message alloc n s a ≡ some (s1, ok)
      → decode do_message alloc n s1 b ≡ some (s2, r2)
      → decode do_message alloc n s (a ++ b) ≡ some (t, r)
      → (t.app ≡ s2.app)
        × (r ≡ r2)
        × ((r ≡ failed) ⊎ (contents t.message_buffer ≡ contents s2.message_buffer))
  pieces_agree p a b {s} {s1} {s2} {t} {r2} {r} ready first second whole =
      let o1 = outcome p a ready first in
      let (on, ready1) = go_on o1.ends in
      let o2 = outcome o1.rest b ready1 second in
      let o = outcome p (a ++ b) ready whole in
      let joined =
        Feeds-append do_message (fixed_frame n) b (fixed_frame-IsFramer n) o1.feeds on o2.feeds in
      let (same_rest, same_app, same_go) = Feeds-unique do_message (fixed_frame n) o.feeds (
        subst (λ x. Feeds do_message (fixed_frame n) x s.app o2.rest s2.app o2.go)
          (append_assoc p a b) joined) in
      let (same_result, same_bytes) = same_end same_rest same_go o.ends o2.ends in
      (same_app, same_result, same_bytes)

  -- The call with the rest of the bytes and the call with all of them, both of which return, compared.
  pub record SameInPieces (a b : List ℕ) (s first : Handler H) : Type 0 where
    pub second : Handler H
    pub whole : Handler H
    pub result : Result
    pub second_returns : decode do_message alloc n first b ≡ some (second, result)
    pub whole_returns : decode do_message alloc n s (a ++ b) ≡ some (whole, result)
    pub same_app : whole.app ≡ second.app
    pub same_bytes :
        (result ≡ failed) ⊎ (contents whole.message_buffer ≡ contents second.message_buffer)

  -- A handler that is ready gets bytes in two pieces. The call with the first piece returns. If its
  -- result is ok, the call with the second piece returns, and so does a call with all bytes at once, with
  -- the same result, the same state of the subclass and, if the connection goes on, the same bytes in
  -- the buffer. If its result is not ok, the connection is closing.
  pub decode_pieces_fixed :
      (p a b : List ℕ) (s : Handler H)
      → IsReady do_message alloc n pos p s
      → (first : Handler H) × (result : Result) × (decode do_message alloc n s a
          ≡ some (first, result))
        × (((result ≡ failed) × (first.closing ≡ true))
            ⊎ ((result ≡ ok) × SameInPieces a b s first))
  decode_pieces_fixed p a b s ready =
      let d = decode_feeds_fixed do_message alloc n pos p a s ready in
      (d.out.0, d.out.1, d.computed, after d.out d.computed d.ends)
    where
      after :
          {rest : List ℕ} {go : Bool} (out : Handler H × Result)
          → decode do_message alloc n s a ≡ some out
          → Ends do_message alloc n pos rest go out
          → ((out.1 ≡ failed) × (out.0.closing ≡ true)) ⊎ ((out.1 ≡ ok) × SameInPieces a b s out.0)
      after out e (inr (x, y, z)) = inl (y, z)
      after {rest} out e (inl (x, y, z)) =
          let second = decode_feeds_fixed do_message alloc n pos rest b out.0 z in
          let whole = decode_feeds_fixed do_message alloc n pos p (a ++ b) s ready in
          let (same_app, same_result, same_bytes) =
            pieces_agree p a b ready (e ∙ ap (λ r. some (out.0, r)) y) second.computed
              whole.computed in
          inr (
            y,
            record {
              second = second.out.0;
              whole = whole.out.0;
              result = second.out.1;
              second_returns = second.computed;
              whole_returns = whole.computed ∙ ap (λ r. some (whole.out.0, r)) same_result;
              same_app = same_app;
              same_bytes = elim same_bytes [ inl x ↦ inl (sym same_result ∙ x) | inr x ↦ inr x ];
            },
          )
