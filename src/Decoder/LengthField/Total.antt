-- ===== src/Decoder/LengthField/Total.antt =====
-- A call of the decoder on any bytes.
use zrsocket.Base.{ℕ, ◌+◌, ◌≤◌, ◌<◌, ◌≡◌, ◌⊎◌, inl, inr, Bool, List, ◌++◌, length, arith}
use zrsocket.Framing.{size, Outcome, Stuck, Outcome-or_Stuck}
use zrsocket.Decoder.LengthField.{Config, Handler, decode}
use zrsocket.Decoder.LengthField.Refines.{
  IsConfig, IsReady, length_frame, frame_of, Returns, decode_feeds,
}

length_frame_positive :
    (c : Config)
    → IsConfig c
    → (t : List ℕ) (n : ℕ) → length_frame c t ≡ size n
    → (0 < n) × (n ≤ length t)
unfolding length_frame frame_of
length_frame_positive c v t n e = ground arith

module _ {H : Type 0} (do_message : List ℕ → H → H × Bool) (alloc : ℕ → Bool) (c : Config)
    (v : IsConfig c) where
  -- The call has returned with the outcome of the bytes.
  pub record Decoded (bytes : List ℕ) (s : Handler H) (p : List ℕ) : Type 0 where
    pub outcome : Outcome do_message (length_frame c) (p ++ bytes) s.app
    pub returns :
        Returns do_message alloc c v outcome.rest outcome.app outcome.go
          (decode do_message alloc c s bytes)

  -- A handler that is ready, with the bytes p in its buffer, is given any bytes. The call returns
  -- with the one outcome of p and these bytes, unless a message among them, behind accepted ones,
  -- has a length that ends within its own header.
  pub decode_any :
      (p bytes : List ℕ) (s : Handler H)
      → IsReady c p s
      → Decoded bytes s p ⊎ Stuck do_message (length_frame c) (p ++ bytes) s.app
  decode_any p bytes s ready =
      elim (Outcome-or_Stuck do_message (length_frame c) (length (p ++ bytes) + 1) (p ++ bytes)
        s.app (omega arith) (length_frame_positive c v)) [
          | inl o ↦ inl (record {
            outcome = o;
            returns = decode_feeds do_message alloc c v p bytes s ready o.feeds;
          })
          | inr k ↦ inr k
        ]
