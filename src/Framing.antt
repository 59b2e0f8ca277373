-- ===== src/Framing.antt =====
-- What is asked of a message decoder, whatever its frames look like: the bytes that arrive, in
-- whatever pieces, are to be cut into frames, each of which goes to `do_message` once, in order.
use mathlib.Core.Path.{subst₂}
use zrsocket.Base.{
  ℕ, ◌<◌, ◌≤◌, ◌≡◌, refl, sym, subst, ap, ◌∙◌, Bool, true, false, List, [], ◌++◌, length,
  length-drop, zero, suc, ◌⊎◌, inl, inr, take, drop, take-append, drop-append, arith,
}

-- How a row of bytes begins: with a frame of `size n` bytes, with too few bytes to tell or to
-- hold the frame, with what no frame begins with, or with a frame that ends within its own header,
-- for which nothing is promised.
pub data Frame : Type 0 where
  more bad short : Frame
  size : ℕ → Frame

-- Bytes that follow do not change how a row of bytes is cut.
pub record IsFramer (frame : List ℕ → Frame) : Type 0 where
  pub whole : (s : List ℕ) (n : ℕ) → frame s ≡ size n → n ≤ length s
  pub size_stable : (s x : List ℕ) (n : ℕ) → frame s ≡ size n → frame (s ++ x) ≡ size n
  pub bad_stable : (s x : List ℕ) → frame s ≡ bad → frame (s ++ x) ≡ bad

-- `do_message` of a handler with state H: the state behind the call, and whether it is content.
module _ {H : Type 0} (do_message : List ℕ → H → H × Bool) (frame : List ℕ → Frame) where
  -- Fed with the bytes s in state h, the decoder is left with the bytes r and the state h'; the
  -- last index says whether the connection goes on.
  pub data Feeds : List ℕ → H → List ℕ → H → Bool → Type 0 where
    waits : {s : List ℕ} {h : H} → frame s ≡ more → Feeds s h s h true
    accepts :
        {s r : List ℕ} {h h' h'' : H} {go : Bool} (n : ℕ)
        → frame s ≡ size n
        → do_message (take n s) h ≡ (h', true)
        → Feeds (drop n s) h' r h'' go
        → Feeds s h r h'' go
    rejects :
        {s : List ℕ} {h h' : H} (n : ℕ)
        → frame s ≡ size n
        → do_message (take n s) h ≡ (h', false)
        → Feeds s h [] h' false
    breaks : {s : List ℕ} {h : H} → frame s ≡ bad → Feeds s h [] h false

  -- The outcome is determined by the bytes.
  pub Feeds-unique :
      {s r r' : List ℕ} {h k k' : H} {go go' : Bool}
      → Feeds s h r k go
      → Feeds s h r' k' go'
      → (r ≡ r') × (k ≡ k') × (go ≡ go')
  Feeds-unique (waits a) (waits b) = (refl, refl, refl)
  Feeds-unique (waits a) (accepts n b c d) = ground arith
  Feeds-unique (waits a) (rejects n b c) = ground arith
  Feeds-unique (waits a) (breaks b) = ground arith
  Feeds-unique (accepts n a c d) (waits b) = ground arith
  Feeds-unique {s} {r' = r'} {k' = k'} {go' = go'} (accepts {h' = g} n a c d)
        (accepts {h' = g'} m b e f) =
      Feeds-unique d (subst₂ (λ j y. Feeds (drop j s) y r' k' go') same_size same_state f)
    where
      same_size : m ≡ n
      same_size = cc

      same_state : g' ≡ g
      same_state = cc
  Feeds-unique (accepts n a c d) (rejects m b e) = cc
  Feeds-unique (accepts n a c d) (breaks b) = ground arith
  Feeds-unique (rejects n a c) (waits b) = ground arith
  Feeds-unique (rejects n a c) (accepts m b e f) = cc
  Feeds-unique (rejects n a c) (rejects m b e) = (refl, cc, refl)
  Feeds-unique (rejects n a c) (breaks b) = ground arith
  Feeds-unique (breaks a) (waits b) = ground arith
  Feeds-unique (breaks a) (accepts n b c d) = ground arith
  Feeds-unique (breaks a) (rejects n b c) = ground arith
  Feeds-unique (breaks a) (breaks b) = (refl, refl, refl)

  -- Feeding bytes in two pieces is feeding them at once.
  pub Feeds-append :
      {s r r' : List ℕ} {h k k' : H} {go go' : Bool} (x : List ℕ)
      → IsFramer frame
      → Feeds s h r k go
      → go ≡ true
      → Feeds (r ++ x) k r' k' go'
      → Feeds (s ++ x) h r' k' go'
  Feeds-append x fr (waits a) e f = f
  Feeds-append {s} {r' = r'} {h = h} {k' = k'} {go' = go'} x fr (accepts {h' = g} n a c d) e f =
      accepts n (fr.size_stable s x n a)
        (ap (λ t. do_message t h) (take-append n s x (fr.whole s n a)) ∙ c)
        (subst (λ t. Feeds t g r' k' go') (sym (drop-append n s x (fr.whole s n a)))
          (Feeds-append x fr d e f))
  Feeds-append x fr (rejects n a c) e f = ground arith
  Feeds-append x fr (breaks a) e f = ground arith

  -- What an outcome says of its first frame.
  pub Feeds-not_short :
      {s r : List ℕ} {h k : H} {go : Bool} → Feeds s h r k go → frame s ≡ short → ⊥
  Feeds-not_short (waits a) e = cc
  Feeds-not_short (accepts n a c d) e = cc
  Feeds-not_short (rejects n a c) e = cc
  Feeds-not_short (breaks a) e = cc

  pub Feeds-rest :
      {s r : List ℕ} {h h' k : H} {go : Bool} (n : ℕ)
      → Feeds s h r k go
      → frame s ≡ size n
      → do_message (take n s) h ≡ (h', true)
      → Feeds (drop n s) h' r k go
  Feeds-rest n (waits a) e f = absurd (cc)
  Feeds-rest {s} {r} {h' = h'} {k} {go} n (accepts {h' = g} m a c d) e f =
      subst₂ (λ j y. Feeds (drop j s) y r k go) same_size same_state d
    where
      same_size : m ≡ n
      same_size = cc

      same_state : g ≡ h'
      same_state = cc
  Feeds-rest n (rejects m a c) e f = absurd (cc)
  Feeds-rest n (breaks a) e f = absurd (cc)

  -- Some frame among the bytes, behind accepted ones, ends within its own header.
  pub data Stuck : List ℕ → H → Type 0 where
    here : {s : List ℕ} {h : H} → frame s ≡ short → Stuck s h
    later :
        {s : List ℕ} {h h' : H} (n : ℕ)
        → frame s ≡ size n
        → do_message (take n s) h ≡ (h', true)
        → Stuck (drop n s) h'
        → Stuck s h

  pub record Outcome (s : List ℕ) (h : H) : Type 0 where
    pub rest : List ℕ
    pub app : H
    pub go : Bool
    pub feeds : Feeds s h rest app go

  -- Every row of bytes has an outcome or is stuck, if no frame is empty.
  pub Outcome-or_Stuck :
      (fuel : ℕ) (s : List ℕ) (h : H)
      → length s < fuel
      → ((t : List ℕ) (n : ℕ) → frame t ≡ size n → (0 < n) × (n ≤ length t))
      → Outcome s h ⊎ Stuck s h
  Outcome-or_Stuck zero s h lt positive = absurd (omega arith)
  Outcome-or_Stuck (suc fuel) s h lt positive =
      by_frame (frame s) refl (λ t h' lt'. Outcome-or_Stuck fuel t h' lt' positive)
    where
      by_reply :
          (n : ℕ) (reply : H × Bool)
          → frame s ≡ size n
          → do_message (take n s) h ≡ reply
          → ((t : List ℕ) (h' : H) → length t < fuel → Outcome t h' ⊎ Stuck t h')
          → Outcome s h ⊎ Stuck s h
      by_reply n (h', false) e f rec =
          inl (record { rest = []; app = h'; go = false; feeds = rejects n e f })
      by_reply n (h', true) e f rec =
          elim (rec (drop n s) h' (omega (arith, length-drop n s, positive s n e))) [
            | inl o ↦
                inl
                  (record { rest = o.rest; app = o.app; go = o.go; feeds = accepts n e f o.feeds })
            | inr k ↦ inr (later n e f k)
          ]

      by_frame :
          (f : Frame)
          → frame s ≡ f
          → ((t : List ℕ) (h' : H) → length t < fuel → Outcome t h' ⊎ Stuck t h')
          → Outcome s h ⊎ Stuck s h
      by_frame more e rec = inl (record { rest = s; app = h; go = true; feeds = waits e })
      by_frame bad e rec = inl (record { rest = []; app = h; go = false; feeds = breaks e })
      by_frame short e rec = inr (here e)
      by_frame (size n) e rec = by_reply n (do_message (take n s) h) e refl rec
