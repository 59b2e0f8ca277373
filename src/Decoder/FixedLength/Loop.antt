-- ===== src/Decoder/FixedLength/Loop.antt =====
-- The loop of the decoder of fixed-length messages, and what it leaves for the next call.
use zrsocket.Base.{
  ℕ, zero, suc, ◌≤◌, ◌<◌, ◌≡◌, ◌⊎◌, inl, inr, refl, sym, subst, ap, ◌∙◌, Bool, true, false, some,
  List, [], length, take, drop, length-append, length-drop, leb, ltb, leb→le, leb→lt, if◌then◌else◌,
  if_intro, eq_nil, tests, ◌^◌, arith,
}
use zrsocket.ByteBuffer.{write}
use zrsocket.ByteBuffer.Holding.{Holds, Holds-write}
use zrsocket.Framing.{Frame, more, size, IsFramer, Feeds, waits, accepts, rejects}
use zrsocket.Decoder.FixedLength.{Handler, Result, ok, failed, deliver, keep_rest}

-- The frames: `message_length` bytes each.
unfoldable pub fixed_frame : ℕ → List ℕ → Frame
fixed_frame n s = if leb n (length s) then size n else more

pub fixed_frame-IsFramer : (n : ℕ) → IsFramer (fixed_frame n)
unfolding fixed_frame
fixed_frame-IsFramer n = record {
  whole = λ s m e. ground arith;
  size_stable = λ s x m e. ground (arith, length-append s x);
  bad_stable = λ s x e. ground arith;
}

module _ {H : Type 0} (do_message : List ℕ → H → H × Bool) (alloc : ℕ → Bool) (n : ℕ)
    (pos : 0 < n) where
  abbrev pub FeedsFixed : List ℕ → H → List ℕ → H → Bool → Type 0
  FeedsFixed = Feeds do_message (fixed_frame n)

  -- The loop, with enough fuel, computes an outcome.
  record Delivers (s : List ℕ) (h : H) (fuel : ℕ) : Type 0 where
    rest : List ℕ
    app : H
    go : Bool
    computed : deliver do_message alloc n fuel s h ≡ some (rest, app, go)
    feeds : FeedsFixed s h (if go then rest else []) app go
    left : length rest ≤ length s
    waiting : (go ≡ false) ⊎ (length rest < n)

  deliver-Delivers : (fuel : ℕ) (s : List ℕ) (h : H) → length s < fuel → Delivers s h fuel
  unfolding deliver fixed_frame
  deliver-Delivers zero s h lt = absurd (omega arith)
  deliver-Delivers (suc fuel) s h lt =
      split (leb n (length s)) refl (do_message (take n s) h) refl
        (λ h' lt'. deliver-Delivers fuel (drop n s) h' lt')
    where
      split :
          (b : Bool)
          → leb n (length s) ≡ b
          → (r : H × Bool) → do_message (take n s) h ≡ r
          → ((h' : H) → length (drop n s) < fuel → Delivers (drop n s) h' fuel)
          → Delivers s h (suc fuel)
      split false e r er rec = record {
        rest = s;
        app = h;
        go = true;
        computed = ground arith;
        feeds = waits (rw e);
        left = omega arith;
        waiting = inr (leb→lt n (length s) e);
      }
      split true e (h', false) er rec = record {
        rest = s;
        app = h';
        go = false;
        computed = ground arith;
        feeds = rejects n (rw e) er;
        left = omega arith;
        waiting = inl refl;
      }
      split true e (h', true) er rec =
          let d = rec h' (omega (arith, length-drop n s, leb→le n (length s) e)) in
          record {
            rest = d.rest;
            app = d.app;
            go = d.go;
            computed = ground (arith, d.computed);
            feeds = accepts n (rw e) er d.feeds;
            left = omega (arith, d.left, length-drop n s);
            waiting = d.waiting;
          }

  -- The handler between two calls: it holds the start p of a message.
  pub record IsReady (p : List ℕ) (s : Handler H) : Type 0 where
    pub held : Holds n p s.message_buffer
    pub partial : length p < n
    pub in_word : n < 2 ^ 32

  -- How a call ends: ready for the next one with the bytes `rest`, or closing.
  abbrev pub Ends : List ℕ → Bool → Handler H × Result → Type 0
  Ends rest go (after, result) =
      ((go ≡ true) × (result ≡ ok) × IsReady rest after)
      ⊎ ((go ≡ false) × (result ≡ failed) × (after.closing ≡ true))

  Ends-rest :
      (rest : List ℕ) (go : Bool) (out : Handler H × Result)
      → Ends rest go out
      → Ends (if go then rest else []) go out
  Ends-rest rest true out e = e
  Ends-rest rest false out (inl (a, b, c)) = cc
  Ends-rest rest false out (inr e) = inr e

  -- Keeping what the loop has left, in a buffer with nothing in it.
  record Keeps (s : Handler H) (rest : List ℕ) (h : H) (go : Bool) : Type 0 where
    out : Handler H × Result
    computed : keep_rest do_message alloc n s (some (rest, h, go)) ≡ some out
    same_app : out.0.app ≡ h
    ends : Ends rest go out

  keep_rest-Keeps :
      (s : Handler H) (rest : List ℕ) (h : H) (go : Bool)
      → Holds n [] s.message_buffer
      → n < 2 ^ 32
      → (go ≡ false) ⊎ (length rest < n)
      → Keeps s rest h go
  unfolding keep_rest
  keep_rest-Keeps s rest h false hold w wait = record {
    out = _;
    computed = refl;
    same_app = refl;
    ends = inr (refl, refl, refl);
  }
  keep_rest-Keeps s rest h true hold w wait = record {
    out = _;
    computed = refl;
    same_app = refl;
    ends = inl (refl, refl, record { held = kept; partial = few; in_word = w });
  }
    where
      few : length rest < n
      few = elim wait [ inl e ↦ cc | inr lt ↦ lt ]

      kept : Holds n rest (
          if ltb 0 (length rest)
          then (write alloc rest 100 s.message_buffer).0
          else s.message_buffer)
      kept =
          if_intro (Holds n rest) (ltb 0 (length rest))
            (λ _. Holds-write alloc rest hold (omega (arith, few)))
            (λ none_left.
              subst (λ r. Holds n r s.message_buffer) (sym (eq_nil rest (omega tests))) hold)

  -- The loop, then the rest kept: the common end of both branches.
  pub record Finishes (bytes : List ℕ) (s : Handler H) (fuel : ℕ) : Type 0 where
    pub out : Handler H × Result
    pub rest : List ℕ
    pub go : Bool
    pub computed :
        keep_rest do_message alloc n s (deliver do_message alloc n fuel bytes s.app) ≡ some out
    pub feeds : FeedsFixed bytes s.app rest out.0.app go
    pub ends : Ends rest go out

  pub finish :
      (bytes : List ℕ) (s : Handler H) (fuel : ℕ)
      → length bytes < fuel
      → Holds n [] s.message_buffer
      → n < 2 ^ 32
      → Finishes bytes s fuel
  finish bytes s fuel lt hold w =
      let d = deliver-Delivers fuel bytes s.app lt in
      let k = keep_rest-Keeps s d.rest d.app d.go hold w d.waiting in
      record {
        out = k.out;
        rest = if d.go then d.rest else [];
        go = d.go;
        computed = ap (keep_rest do_message alloc n s) d.computed ∙ k.computed;
        feeds =
            subst (λ h. FeedsFixed bytes s.app (if d.go then d.rest else []) h d.go)
              (sym k.same_app) d.feeds;
        ends = Ends-rest d.rest d.go k.out k.ends;
      }
