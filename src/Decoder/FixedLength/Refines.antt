-- ===== src/Decoder/FixedLength/Refines.antt =====
-- A whole call of the decoder of fixed-length messages in terms of Framing.
use zrsocket.Base.{
  ℕ, ◌+◌, ◌-◌, ◌≤◌, ◌<◌, ◌≡◌, inl, inr, refl, sym, subst, ap, ◌∙◌, Bool, true, false, some, List,
  [], ◌∷◌, ◌++◌, length, take, drop, length-append, length-take, length-drop, leb, leb→le, leb→lt,
  Bool-cases, eq_zero_of_pos, le→leb, lt→leb, take-append_past, drop-append_past, take_all, slice,
  sub32, ◌^◌, arith,
}
use zrsocket.ByteBuffer.{ByteBuffer, data_size, write, reset}
use zrsocket.ByteBuffer.Holding.{
  Holds, Holds-data_size, Holds-empty, Holds-take, Holds-write, Holds-reset,
}
use zrsocket.Framing.{size, waits, accepts, rejects}
use zrsocket.Decoder.FixedLength.{Handler, Result, ok, failed, complete, completed, decode}
use zrsocket.Decoder.FixedLength.Loop.{fixed_frame, FeedsFixed, IsReady, Ends, finish}

module _ {H : Type 0} (do_message : List ℕ → H → H × Bool) (alloc : ℕ → Bool) (n : ℕ)
    (pos : 0 < n) where
  -- What a call of `decode` on `bytes` promises, if the buffer holds p.
  pub record Decodes (p bytes : List ℕ) (s : Handler H) : Type 0 where
    pub out : Handler H × Result
    pub rest : List ℕ
    pub go : Bool
    pub computed : decode do_message alloc n s bytes ≡ some out
    pub feeds : FeedsFixed do_message alloc n pos (p ++ bytes) s.app rest out.0.app go
    pub ends : Ends do_message alloc n pos rest go out

  decode-nil :
      (bytes : List ℕ) (s : Handler H)
      → Holds n [] s.message_buffer
      → n < 2 ^ 32
      → Decodes [] bytes s
  unfolding decode
  decode-nil bytes s hold w =
      let f = finish do_message alloc n pos bytes s (length bytes + 1) (omega arith) hold w in
      record {
        out = f.out;
        rest = f.rest;
        go = f.go;
        computed = rw (Holds-empty hold) f.computed;
        feeds = f.feeds;
        ends = f.ends;
      }

  module _ (p bytes : List ℕ) (s : Handler H) (ready : IsReady do_message alloc n pos p s)
      (some_held : 0 < length p) where
    abbrev need : ℕ
    need = n - length p

    need_len_lem : sub32 n (data_size s.message_buffer) ≡ need
    need_len_lem = omega (arith, Holds-data_size ready.held, ready.partial, ready.in_word)

    decode-complete : decode do_message alloc n s bytes ≡ complete do_message alloc n need s bytes
    unfolding decode
    decode-complete = rw (Holds-empty ready.held, eq_zero_of_pos (length p) some_held, need_len_lem)

    -- Too few bytes for the message: they are kept.
    decode_few : length bytes < need → Decodes p bytes s
    unfolding complete fixed_frame
    decode_few few = record {
      out = (record s { message_buffer = (write alloc bytes 100 s.message_buffer).0 }, ok);
      rest = p ++ bytes;
      go = true;
      computed = decode-complete ∙ rw (lt→leb need (length bytes) few);
      feeds = waits (rw (lt→leb n (length (p ++ bytes)) (omega (arith, length-append p bytes))));
      ends = inl (
        refl,
        refl,
        record {
          held = Holds-write alloc bytes ready.held (omega arith);
          partial = omega (arith, length-append p bytes);
          in_word = ready.in_word;
        },
      );
    }

    module _ (enough : need ≤ length bytes) where
      abbrev filled : ByteBuffer
      filled = (write alloc (take need bytes) 100 s.message_buffer).0

      filled-Holds : Holds n (p ++ take need bytes) filled
      filled-Holds =
          Holds-write alloc (take need bytes) ready.held
            (omega (arith, length-take need bytes, ready.partial))

      frame : fixed_frame n (p ++ bytes) ≡ size n
      unfolding fixed_frame
      frame = rw (le→leb n (length (p ++ bytes)) (omega (arith, length-append p bytes)))

      n_split : n ≡ length p + need
      n_split = omega (arith, ready.partial)

      message : slice filled.cells filled.data_begin_index n ≡ take n (p ++ bytes)
      message =
          Holds-take n filled-Holds
            (omega (arith, length-append p (take need bytes), length-take need bytes, n_split))
          ∙ take_all n (p ++ take need bytes)
              (omega (arith, length-append p (take need bytes), length-take need bytes, n_split))
          ∙ sym (take-append_past p bytes need n n_split)

      call :
          {r : H × Bool}
          → do_message (take n (p ++ bytes)) s.app ≡ r
          → do_message (slice filled.cells filled.data_begin_index n) s.app ≡ r
      call e = ap (λ m. do_message m s.app) message ∙ e

      decode_enough :
          (r : H × Bool) → do_message (take n (p ++ bytes)) s.app ≡ r → Decodes p bytes s
      unfolding complete completed
      decode_enough (h, false) e = record {
        out = (record s { message_buffer = filled; closing = true; app = h }, failed);
        rest = [];
        go = false;
        computed = decode-complete ∙ rw (le→leb need (length bytes) enough, call e);
        feeds = rejects n frame e;
        ends = inr (refl, refl, refl);
      }
      decode_enough (h, true) e =
          let f =
            finish do_message alloc n pos (drop need bytes)
              (record s { message_buffer = reset filled; app = h }) (length bytes + 1)
              (omega (arith, length-drop need bytes)) (Holds-reset filled-Holds) ready.in_word in
          record {
            out = f.out;
            rest = f.rest;
            go = f.go;
            computed = decode-complete ∙ rw (le→leb need (length bytes) enough, call e) f.computed;
            feeds = accepts n frame e (
                subst (λ t. FeedsFixed do_message alloc n pos t h f.rest f.out.0.app f.go)
                  (sym (drop-append_past p bytes need n n_split)) f.feeds);
            ends = f.ends;
          }

  -- A handler that is ready, with the start p of a message in its buffer, decodes what arrives: the
  -- call returns, it has fed p and the new bytes to the subclass frame by frame, and it is either
  -- ready again, with the unfinished rest in the buffer, or closing after a refused message.
  pub decode_feeds_fixed :
      (p bytes : List ℕ) (s : Handler H) → IsReady do_message alloc n pos p s → Decodes p bytes s
  decode_feeds_fixed [] bytes s r = decode-nil bytes s r.held r.in_word
  decode_feeds_fixed (x ∷ p) bytes s r =
      elim (Bool-cases (leb (n - length (x ∷ p)) (length bytes))) [
        | inl e ↦ decode_enough (x ∷ p) bytes s r (omega arith) (leb→le _ _ e) _ refl
        | inr e ↦ decode_few (x ∷ p) bytes s r (omega arith) (leb→lt _ _ e)
      ]
