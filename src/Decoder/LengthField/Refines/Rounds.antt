-- ===== src/Decoder/LengthField/Refines/Rounds.antt =====
-- The loop, and the promise of a whole call.
use zrsocket.Base.{
  ℕ, zero, suc, ◌+◌, ◌<◌, ◌≡◌, inl, inr, refl, sym, subst, ap, ◌∙◌, Bool, true, false, Option, some,
  List, [], ◌∷◌, ◌++◌, append-nil, length, ltb, lt→ltb, eq_nil, eq_zero_of_pos, Bool-cases, ltb→le,
  if◌then◌else◌, sub32, arith,
}
use zrsocket.ByteBuffer.{data_size}
use zrsocket.ByteBuffer.Holding.{Holds-empty, Holds-data_size}
use zrsocket.Framing.{waits, Feeds-unique}
use zrsocket.Decoder.LengthField.{
  Config, Handler, Round, returns, goes_on, unbuffered, complete, complete_head, round, rounds,
  decode,
}
use zrsocket.Decoder.LengthField.Refines.Head.{IsConfig, IsReady, IsReady-more, length_frame}
use zrsocket.Decoder.LengthField.Refines.Direct.{
  FeedsLength, Ends, IsRound, stops, steps, unbuffered-IsRound,
}
use zrsocket.Decoder.LengthField.Refines.Buffered.{complete-IsRound, complete_head-IsRound}

module _ {H : Type 0} (do_message : List ℕ → H → H × Bool) (alloc : ℕ → Bool) (c : Config)
    (v : IsConfig c) where
  module _ (r : List ℕ) (k : H) (go : Bool) (s : Handler H) (remain : List ℕ) where
    abbrev Goal : Round H → Type 0
    Goal = IsRound do_message alloc c v r k go (length remain)

    -- The two tests of a round, on their results.
    abbrev by_length : Bool → Round H
    by_length b =
        if b
        then complete do_message alloc c (sub32 s.message_length (data_size s.message_buffer)) s
            remain
        else complete_head do_message alloc c (sub32 c.min_head_length (data_size s.message_buffer))
            s remain

    abbrev by_data : Bool → Round H
    by_data b =
        if b then unbuffered do_message alloc c s remain else by_length (ltb 0 s.message_length)

    buffered-IsRound :
        (p : List ℕ)
        → 0 < length p
        → IsReady c p s
        → FeedsLength do_message alloc c v (p ++ remain) s.app r k go
        → Goal (by_length (ltb 0 s.message_length))
    buffered-IsRound p some_held ready d = elim ready.stage [
      | inl (e, few) ↦
          subst (λ n. Goal (by_length (ltb 0 n))) (sym e)
            (complete_head-IsRound do_message alloc c v p remain s ready.held d _
              (omega (arith, Holds-data_size ready.held, v.head_fits, v.in_word))
              (omega (arith, Holds-data_size ready.held, v.head_fits, v.in_word)) e)
      | inr (head, e, few, fits) ↦
          subst (λ b. Goal (by_length b)) (sym (lt→ltb 0 s.message_length (omega arith)))
            (complete-IsRound do_message alloc c v p remain s ready.held d _ head e fits
              (omega (arith, Holds-data_size ready.held, v.in_word))
              (omega (arith, Holds-data_size ready.held, v.in_word)))
    ]

    -- Each round does its part.
    round-IsRound :
        (p : List ℕ)
        → IsReady c p s
        → FeedsLength do_message alloc c v (p ++ remain) s.app r k go
        → Goal (round do_message alloc c s remain)
    unfolding round
    round-IsRound [] ready d =
        subst (λ b. Goal (by_data b)) (sym (Holds-empty ready.held))
          (unbuffered-IsRound do_message alloc c v s remain ready d)
    round-IsRound (x ∷ p) ready d =
        subst (λ b. Goal (by_data b))
          (sym (Holds-empty ready.held ∙ eq_zero_of_pos (length (x ∷ p)) (omega arith)))
          (buffered-IsRound (x ∷ p) (omega arith) ready d)

  -- A call has returned, with the outcome `r k go`.
  pub record Returns (r : List ℕ) (k : H) (go : Bool) (out : Option (Handler H × Bool))
      : Type 0 where
    pub after : Handler H
    pub computed : out ≡ some (after, go)
    pub same_app : after.app ≡ k
    pub ends : Ends do_message alloc c v r go after

  -- What the loop does behind a round, on fuel.
  abbrev on_rest : ℕ → Handler H → List ℕ → Bool → Option (Handler H × Bool)
  on_rest fuel t rest b = elim b [
    | true ↦ rounds do_message alloc c fuel t rest
    | false ↦ some (t, true)
  ]

  abbrev behind : ℕ → Round H → Option (Handler H × Bool)
  behind fuel (returns t good) = some (t, good)
  behind fuel (goes_on t rest) = on_rest fuel t rest (ltb 0 (length rest))

  rounds-round :
      (fuel : ℕ) (s : Handler H) (remain : List ℕ)
      → rounds do_message alloc c (suc fuel) s remain
        ≡ behind fuel (round do_message alloc c s remain)
  unfolding rounds
  rounds-round fuel s remain = refl

  -- Nothing is left to read: the handler waits.
  waits-Returns :
      {r : List ℕ} {k : H} {go : Bool} (t : Handler H) (p : List ℕ)
      → IsReady c p t
      → FeedsLength do_message alloc c v p t.app r k go
      → Returns r k go (some (t, true))
  waits-Returns {r} {k} {go} t p ready d =
      let (er, ek, eg) =
        Feeds-unique do_message (length_frame c) d (waits (IsReady-more c p t v ready)) in
      record {
        after = t;
        computed = ap (λ b. some (t, b)) (sym eg);
        same_app = sym ek;
        ends = inl (eg, subst (λ x. IsReady c x t) (sym er) ready);
      }

  behind-Returns :
      {r : List ℕ} {k : H} {go : Bool} (fuel m : ℕ) (x : Round H)
      → m < suc fuel
      → IsRound do_message alloc c v r k go m x
      → ((t : Handler H) (rest p : List ℕ)
          → length rest < fuel
          → IsReady c p t
          → FeedsLength do_message alloc c v (p ++ rest) t.app r k go
          → Returns r k go (rounds do_message alloc c fuel t rest))
      → Returns r k go (behind fuel x)
  behind-Returns {r} {k} fuel m x lt (stops t good eg ea en) rec = record {
    after = t;
    computed = ap (λ b. some (t, b)) eg;
    same_app = ea;
    ends = subst (λ b. Ends do_message alloc c v r b t) eg en;
  }
  behind-Returns {r} {k} {go} fuel m x lt (steps t rest p ready d less) rec =
      elim (Bool-cases (ltb 0 (length rest))) [
        | inl e ↦
            subst (λ b. Returns r k go (on_rest fuel t rest b)) (sym e)
              (rec t rest p (omega arith) ready d)
        | inr e ↦
            subst (λ b. Returns r k go (on_rest fuel t rest b)) (sym e)
              (waits-Returns t p ready (
                subst (λ x. FeedsLength do_message alloc c v x t.app r k go)
                  (ap (λ x. p ++ x) (eq_nil rest (omega (arith, ltb→le 0 (length rest) e)))
                    ∙ append-nil p)
                  d))
      ]

  rounds-Returns :
      {r : List ℕ} {k : H} {go : Bool} (fuel : ℕ) (s : Handler H) (remain p : List ℕ)
      → length remain < fuel
      → IsReady c p s
      → FeedsLength do_message alloc c v (p ++ remain) s.app r k go
      → Returns r k go (rounds do_message alloc c fuel s remain)
  rounds-Returns zero s remain p lt ready d = absurd (omega arith)
  rounds-Returns {r} {k} {go} (suc fuel) s remain p lt ready d =
      subst (Returns r k go) (sym (rounds-round fuel s remain)) (
        behind-Returns fuel (length remain) _ lt (round-IsRound r k go s remain p ready d)
          (λ t rest q lt' ready' d'. rounds-Returns fuel t rest q lt' ready' d'))

  -- A handler that is ready, with the bytes p in its buffer, is given what arrives. If p and the
  -- new bytes lead to an outcome at all, that is, no message begins with a length that ends within
  -- its own header, then the call returns that outcome: each message has gone to the subclass once
  -- and in order, the subclass is in the state of the outcome, and the handler is ready again with
  -- the unfinished rest in its buffer, or closing after a message that was refused or a length that
  -- no message has.
  pub decode_feeds :
      {r : List ℕ} {k : H} {go : Bool} (p bytes : List ℕ) (s : Handler H)
      → IsReady c p s
      → FeedsLength do_message alloc c v (p ++ bytes) s.app r k go
      → Returns r k go (decode do_message alloc c s bytes)
  unfolding decode
  decode_feeds p bytes s ready d = rounds-Returns (length bytes + 1) s bytes p (omega arith) ready d
