-- ===== src/Decoder/LengthField/Refines/Buffered.antt =====
-- The rounds with a part of a message in the buffer.
use zrsocket.Base.{
  ℕ, ◌+◌, ◌≤◌, ◌<◌, ◌≡◌, inl, inr, sym, subst, ap, ◌∙◌, Bool, false, ◌||◌, List, ◌++◌, append_assoc,
  length, take, drop, length-append, length-drop, length-take, take-append-drop, drop-append_past,
  leb, ltb, leb→le, leb→lt, ◌==◌, if◌then◌else◌, if_intro, arith,
}
use zrsocket.ByteBuffer.{ByteBuffer, write}
use zrsocket.ByteBuffer.Holding.{Holds, Holds-write, Holds-reset, Holds-message, Holds-at_data}
use zrsocket.Framing.{Feeds-not_short}
use zrsocket.Decoder.LengthField.{
  Config, Handler, Round, goes_on, at_data, close_active, complete, complete_head,
}
use zrsocket.Decoder.LengthField.Refines.Head.{
  IsConfig, announced, announced-append, length_frame, frame_bad, frame_short, frame_whole,
  frame_part, frame_no_head, length_beyond_head,
}
use zrsocket.Decoder.LengthField.Refines.Direct.{
  FeedsLength, IsRound, steps, keep-IsRound, close-IsRound, answered-IsRound,
}

module _ {H : Type 0} (do_message : List ℕ → H → H × Bool) (alloc : ℕ → Bool) (c : Config)
    (v : IsConfig c) {r : List ℕ} {k : H} {go : Bool} (p remain : List ℕ) (s : Handler H)
    (hold : Holds c.max_message_length p s.message_buffer)
    (d : FeedsLength do_message alloc c v (p ++ remain) s.app r k go) where
  abbrev Goal : Round H → Type 0
  Goal = IsRound do_message alloc c v r k go (length remain)

  -- The length is known: the rest of the message is awaited.
  pub complete-IsRound :
      (need : ℕ)
      → c.min_head_length ≤ length p
      → announced c p ≡ s.message_length
      → s.message_length ≤ c.max_message_length
      → s.message_length ≡ length p + need
      → 0 < need
      → Goal (complete do_message alloc c need s remain)
  unfolding complete
  complete-IsRound need head e fits sum pos =
      if_intro Goal (leb need (length remain))
        (λ whole.
          answered-IsRound do_message alloc c v _ (length remain) s.message_length _
            (drop need remain) _ d
            (frame_whole c (p ++ remain) s.message_length (head') (e') (omega arith) fits
              (omega (arith, length-append p remain, leb→le _ _ whole)))
            (ap (λ x. do_message x s.app)
              (sym (
                Holds-message alloc remain s.message_length need hold sum (leb→le _ _ whole) fits)))
            (drop-append_past p remain need s.message_length sum)
            (Holds-reset
              (Holds-write alloc (take need remain) hold (omega (arith, length-take need remain))))
            (omega (arith, length-drop need remain, leb→le _ _ whole)))
        (λ part.
          keep-IsRound do_message alloc c v s (length remain) remain hold
            (omega (arith, leb→lt _ _ part)) d
            (frame_part c (p ++ remain) s.message_length head' e' (omega arith) fits
              (omega (arith, length-append p remain, leb→lt _ _ part)))
            (inr (head', e', omega (arith, length-append p remain, leb→lt _ _ part), fits)))
    where
      head' : c.min_head_length ≤ length (p ++ remain)
      head' = omega (arith, length-append p remain)

      e' : announced c (p ++ remain) ≡ s.message_length
      e' = announced-append c p remain v head ∙ e

  -- A part of a header is held: its rest is awaited.
  module _ (need : ℕ) (sum : c.min_head_length ≡ length p + need) (pos : 0 < need)
      (zero_length : s.message_length ≡ 0) where
    module _ (enough : need ≤ length remain) where
      abbrev filled : ByteBuffer
      filled = (write alloc (take need remain) 100 s.message_buffer).0

      abbrev header : List ℕ
      header = p ++ take need remain

      length-header : length header ≡ c.min_head_length
      length-header = omega (arith, length-append p (take need remain), length-take need remain)

      filled-Holds : Holds c.max_message_length header filled
      filled-Holds =
          Holds-write alloc (take need remain) hold
            (omega (arith, length-take need remain, v.head_fits))

      header_split : header ++ drop need remain ≡ p ++ remain
      header_split =
          append_assoc p (take need remain) (drop need remain)
          ∙ ap (λ t. p ++ t) (take-append-drop need remain)

      read_lem :
          c.read_length_field_proc (at_data filled c.length_field_offset) ≡ announced c header
      read_lem =
          ap c.read_length_field_proc (
            Holds-at_data c.length_field_offset filled-Holds
              (omega (arith, v.field_in_head, length-header)))
          ∙ v.head_only header _ (omega (arith, length-header))

      announced_lem : announced c (p ++ remain) ≡ announced c header
      announced_lem =
          ap (announced c) (sym header_split)
          ∙ announced-append c header (drop need remain) v (omega (arith, length-header))

      header-IsRound :
          (n : ℕ)
          → announced c header ≡ n
          → Goal (
              if ltb c.max_message_length n || (n == 0)
              then close_active do_message alloc c
                  (record s { message_buffer = filled; message_length = n })
              else goes_on
                  (record s { message_buffer = filled; message_length = n })
                  (drop need remain))
      header-IsRound n e =
          if_intro Goal (ltb c.max_message_length n || (n == 0))
            (λ refused.
              close-IsRound do_message alloc c v _ (length remain) d
                (frame_bad c (p ++ remain) n whole_head (announced_lem ∙ e) refused))
            (λ passed.
              let (long, fits) = length_beyond_head c n passed (λ a b u.
                Feeds-not_short do_message (length_frame c) d
                  (frame_short c (p ++ remain) n whole_head (announced_lem ∙ e) a b u)) in
              steps _ (drop need remain) header
                (record {
                  held = filled-Holds;
                  stage = inr (omega (arith, length-header), e, omega (arith, length-header), fits);
                })
                (subst (λ t. FeedsLength do_message alloc c v t s.app r k go) (sym header_split) d)
                (omega (arith, length-drop need remain)))
        where
          whole_head : c.min_head_length ≤ length (p ++ remain)
          whole_head = omega (arith, length-append p remain)

    pub complete_head-IsRound : Goal (complete_head do_message alloc c need s remain)
    unfolding complete_head
    complete_head-IsRound =
        if_intro Goal (leb need (length remain))
          (λ whole. header-IsRound (leb→le _ _ whole) _ (sym (read_lem (leb→le _ _ whole))))
          (λ few.
            keep-IsRound do_message alloc c v s (length remain) remain hold
              (omega (arith, leb→lt _ _ few, v.head_fits)) d
              (frame_no_head c (p ++ remain) (short_of few)) (inl (zero_length, short_of few)))
      where
        short_of : leb need (length remain) ≡ false → length (p ++ remain) < c.min_head_length
        short_of few = omega (arith, length-append p remain, leb→lt _ _ few)
