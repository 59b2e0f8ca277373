-- ===== src/Decoder/LengthField/Refines/Direct.antt =====
-- One round of the loop, and what it must do; the rounds with an empty buffer.
use zrsocket.Base.{
  ℕ, ◌+◌, ◌≤◌, ◌<◌, ◌≡◌, ◌⊎◌, inl, inr, refl, sym, subst, ap, Bool, true, false, ◌||◌, List, [],
  ◌++◌, length, take, drop, length-drop, leb, ltb, leb→le, leb→lt, ◌==◌, if◌then◌else◌, if_intro,
  arith,
}
use zrsocket.ByteBuffer.{ByteBuffer, write}
use zrsocket.ByteBuffer.Holding.{Holds, Holds-write}
use zrsocket.Framing.{
  more, bad, size, Feeds, waits, rejects, breaks, Feeds-unique, Feeds-not_short, Feeds-rest,
}
use zrsocket.Decoder.LengthField.{
  Config, Handler, Round, returns, goes_on, keep, close_active, answered, deliver_direct,
  unbuffered,
}
use zrsocket.Decoder.LengthField.Refines.Head.{
  IsConfig, IsReady, announced, length_frame, frame_bad, frame_short, frame_whole, frame_part,
  frame_no_head, length_beyond_head,
}

module _ {H : Type 0} (do_message : List ℕ → H → H × Bool) (alloc : ℕ → Bool) (c : Config)
    (v : IsConfig c) where
  abbrev pub FeedsLength : List ℕ → H → List ℕ → H → Bool → Type 0
  FeedsLength = Feeds do_message (length_frame c)

  -- How a call ends: ready for the next one with the bytes `rest`, or closing.
  abbrev pub Ends : List ℕ → Bool → Handler H → Type 0
  Ends rest go t = ((go ≡ true) × IsReady c rest t) ⊎ ((go ≡ false) × (t.closing ≡ true))

  -- A round on the way to the outcome `r k go`, begun with `m` bytes to read.
  pub data IsRound (r : List ℕ) (k : H) (go : Bool) (m : ℕ) : Round H → Type 0 where
    stops :
        (t : Handler H) (good : Bool)
        → good ≡ go
        → t.app ≡ k
        → Ends r good t
        → IsRound r k go m (returns t good)
    steps :
        (t : Handler H) (rest p : List ℕ)
        → IsReady c p t
        → FeedsLength (p ++ rest) t.app r k go
        → length rest < m
        → IsRound r k go m (goes_on t rest)

  -- The outcome of bytes that are no whole frame: they are kept.
  pub keep-IsRound :
      {p r : List ℕ} {k : H} {go : Bool} (s : Handler H) (m : ℕ) (remain : List ℕ)
      → Holds c.max_message_length p s.message_buffer
      → length p + length remain ≤ c.max_message_length
      → FeedsLength (p ++ remain) s.app r k go
      → length_frame c (p ++ remain) ≡ more
      → ((s.message_length ≡ 0) × (length (p ++ remain) < c.min_head_length))
        ⊎ ((c.min_head_length ≤ length (p ++ remain))
            × (announced c (p ++ remain) ≡ s.message_length)
            × (length (p ++ remain) < s.message_length)
            × (s.message_length ≤ c.max_message_length))
      → IsRound r k go m (keep do_message alloc c s remain)
  unfolding keep
  keep-IsRound {p} {r} {k} {go} s m remain hold fits d e stage =
      let (er, ek, eg) = Feeds-unique do_message (length_frame c) d (waits e) in
      stops _ true (sym eg) (sym ek) (
        inl (
          refl,
          subst
              (λ x.
                IsReady c x
                  (record s { message_buffer = (write alloc remain 100 s.message_buffer).0 }))
              (sym er) (record { held = Holds-write alloc remain hold fits; stage = stage }),
        ))

  pub close-IsRound :
      {bytes r : List ℕ} {k : H} {go : Bool} (s : Handler H) (m : ℕ)
      → FeedsLength bytes s.app r k go
      → length_frame c bytes ≡ bad
      → IsRound r k go m (close_active do_message alloc c s)
  unfolding close_active
  close-IsRound s m d e =
      let (er, ek, eg) = Feeds-unique do_message (length_frame c) d (breaks e) in
      stops _ false (sym eg) (sym ek) (inr (refl, refl))

  -- A whole frame has gone to the subclass, and the buffer holds nothing now.
  pub answered-IsRound :
      {bytes r : List ℕ} {k : H} {go : Bool} (s : Handler H) (m n : ℕ) (b : ByteBuffer)
      (rest : List ℕ) (reply : H × Bool)
      → FeedsLength bytes s.app r k go
      → length_frame c bytes ≡ size n
      → do_message (take n bytes) s.app ≡ reply
      → drop n bytes ≡ rest
      → Holds c.max_message_length [] b
      → length rest < m
      → IsRound r k go m (answered do_message alloc c s b rest reply)
  unfolding answered close_active
  answered-IsRound {bytes} {r} {k} {go} s m n b rest (h, false) d e f g hold lt =
      let (er, ek, eg) = Feeds-unique do_message (length_frame c) d (rejects n e f) in
      stops _ false (sym eg) (sym ek) (inr (refl, refl))
  answered-IsRound {bytes} {r} {k} {go} s m n b rest (h, true) d e f g hold lt =
      steps _ rest [] (record { held = hold; stage = inl (refl, v.some_head) })
        (subst (λ x. FeedsLength x h r k go) g (Feeds-rest do_message (length_frame c) n d e f)) lt

  module _ {r : List ℕ} {k : H} {go : Bool} (s : Handler H) (remain : List ℕ)
      (hold : Holds c.max_message_length [] s.message_buffer)
      (d : FeedsLength remain s.app r k go) where
    deliver-IsRound :
        (n : ℕ)
        → c.min_head_length ≤ length remain
        → announced c remain ≡ n
        → c.min_head_length < n
        → n ≤ c.max_message_length
        → IsRound r k go
            (length remain)
            (deliver_direct do_message alloc c (record s { message_length = n }) remain)
    unfolding deliver_direct
    deliver-IsRound n head e long fits =
        if_intro (IsRound r k go (length remain)) (leb n (length remain))
          (λ whole.
            answered-IsRound (record s { message_length = n }) (length remain) n s.message_buffer
              (drop n remain) _ d (frame_whole c remain n head e long fits (leb→le _ _ whole)) refl
              refl hold (omega (arith, length-drop n remain, leb→le _ _ whole)))
          (λ part.
            keep-IsRound {p = []} (record s { message_length = n }) (length remain) remain hold
              (omega (arith, leb→lt _ _ part)) d
              (frame_part c remain n head e long fits (leb→lt _ _ part))
              (inr (head, e, leb→lt _ _ part, fits)))

    -- A header has arrived: its length is checked, and the message looked at.
    begun-IsRound :
        (n : ℕ)
        → c.min_head_length ≤ length remain
        → announced c remain ≡ n
        → IsRound r k go (length remain) (
            if ltb c.max_message_length n || (n == 0)
            then close_active do_message alloc c (record s { message_length = n })
            else deliver_direct do_message alloc c (record s { message_length = n }) remain)
    begun-IsRound n head e =
        if_intro (IsRound r k go (length remain)) (ltb c.max_message_length n || (n == 0))
          (λ refused.
            close-IsRound (record s { message_length = n }) (length remain) d
              (frame_bad c remain n head e refused))
          (λ passed.
            let (long, fits) = length_beyond_head c n passed (λ a b u.
              Feeds-not_short do_message (length_frame c) d
                (frame_short c remain n head e a b u)) in
            deliver-IsRound n head e long fits)

    start-IsRound :
        s.message_length ≡ 0
        → IsRound r k go (length remain) (unbuffered do_message alloc c s remain)
    unfolding unbuffered
    start-IsRound zero_length =
        subst
          (λ t. IsRound r k go (length remain) (
            if t
            then (if leb c.min_head_length (length remain)
                then (let n = c.read_length_field_proc (drop c.length_field_offset remain) in
                    if ltb c.max_message_length n || (n == 0)
                    then close_active do_message alloc c (record s { message_length = n })
                    else deliver_direct do_message alloc c (record s { message_length = n }) remain)
                else keep do_message alloc c s remain)
            else deliver_direct do_message alloc c s remain))
          (sym (ap (λ n. n == 0) zero_length))
          (if_intro (IsRound r k go (length remain)) (leb c.min_head_length (length remain))
            (λ head. begun-IsRound _ (leb→le _ _ head) refl)
            (λ few.
              keep-IsRound {p = []} s (length remain) remain hold
                (omega (arith, leb→lt _ _ few, v.head_fits)) d
                (frame_no_head c remain (leb→lt _ _ few)) (inl (zero_length, leb→lt _ _ few))))

  pub unbuffered-IsRound :
      {r : List ℕ} {k : H} {go : Bool} (s : Handler H) (remain : List ℕ)
      → IsReady c [] s
      → FeedsLength remain s.app r k go
      → IsRound r k go (length remain) (unbuffered do_message alloc c s remain)
  unbuffered-IsRound s remain ready d = elim ready.stage [
    | inl (e, _) ↦ start-IsRound s remain ready.held d e
    | inr (h, _, _, _) ↦ absurd (omega (arith, v.some_head))
  ]
