-- ===== src/SedaTimer/ByTime.antt =====
-- Timers in the order of their `end_clock_ms_`, and where a new one belongs.
use zrsocket.Base.{
  ℕ, ◌≤◌, ◌<◌, ◌≡◌, inl, inr, refl, ap, some, List, [], ◌∷◌, ◌++◌, ltb, ltb→lt, ltb→le, lt→ltb,
  Bool-cases, if◌then◌else◌, All, arith,
}
use zrsocket.TimerList.{Ptr}
use zrsocket.TimerList.Chain.{last}

module _ (end : Ptr → ℕ) where
  abbrev pub Early : ℕ → List Ptr → Type 0
  Early e xs = All (λ y. end y < e) xs

  abbrev pub Late : ℕ → List Ptr → Type 0
  Late e xs = All (λ y. e ≤ end y) xs

  abbrev pub Sorted : List Ptr → Type 0
  Sorted [] = Unit
  Sorted (x ∷ xs) = Late (end x) xs × Sorted xs

  -- Behind the timers that end before t.
  unfoldable pub by_time : Ptr → List Ptr → List Ptr
  by_time t [] = t ∷ []
  by_time t (x ∷ xs) =
      let rest = x ∷ by_time t xs in if ltb (end x) (end t) then rest else t ∷ x ∷ xs

  Late-mono : (e e' : ℕ) (xs : List Ptr) → e ≤ e' → Late e' xs → Late e xs
  Late-mono e e' [] h l = tt
  Late-mono e e' (x ∷ xs) h (a, l) = (omega arith, Late-mono e e' xs h l)

  -- In a sorted list nothing ends after the last timer.
  pub Early-of_last :
      (e : ℕ) (x : Ptr) (us : List Ptr)
      → Sorted (x ∷ us)
      → ((y : Ptr) → last us (some x) ≡ some y → end y < e)
      → Early e (x ∷ us)
  Early-of_last e x [] s h = (h x refl, tt)
  Early-of_last e x (u ∷ us) ((x_u, _), s) h =
      let rest = Early-of_last e u us s h in (omega (arith, x_u, rest.0), rest)

  pub Sorted-left : (us vs : List Ptr) → Sorted (us ++ vs) → Sorted us
  Sorted-left [] vs s = tt
  Sorted-left (u ∷ us) vs (l, s) = (Late-left (end u) us vs l, Sorted-left us vs s)
    where
      Late-left : (e : ℕ) (us vs : List Ptr) → Late e (us ++ vs) → Late e us
      Late-left e [] vs l = tt
      Late-left e (u ∷ us) vs (a, l) = (a, Late-left e us vs l)

  by_time-here : (t : Ptr) (vs : List Ptr) → Late (end t) vs → by_time t vs ≡ t ∷ vs
  unfolding by_time
  by_time-here t [] l = refl
  by_time-here t (v ∷ vs) (a, l) = ground arith

  pub by_time-append :
      (t : Ptr) (us vs : List Ptr)
      → Early (end t) us
      → Late (end t) vs
      → by_time t (us ++ vs) ≡ us ++ t ∷ vs
  unfolding by_time
  by_time-append t [] vs b l = by_time-here t vs l
  by_time-append t (u ∷ us) vs (a, b) l =
      rw (lt→ltb (end u) (end t) a) (ap (λ xs. u ∷ xs) (by_time-append t us vs b l))

  Late-by_time : (e : ℕ) (t : Ptr) (xs : List Ptr) → e ≤ end t → Late e xs → Late e (by_time t xs)
  unfolding by_time
  Late-by_time e t [] h l = (h, tt)
  Late-by_time e t (x ∷ xs) h (a, l) = elim (Bool-cases (ltb (end x) (end t))) [
    | inl before ↦ rw before (a, Late-by_time e t xs h l)
    | inr behind ↦ rw behind (h, (a, l))
  ]

  pub by_time-Sorted : (t : Ptr) (xs : List Ptr) → Sorted xs → Sorted (by_time t xs)
  unfolding by_time
  by_time-Sorted t [] s = (tt, tt)
  by_time-Sorted t (x ∷ xs) (l, s) = elim (Bool-cases (ltb (end x) (end t))) [
    | inl before ↦ rw before (
      Late-by_time (end x) t xs (omega (arith, ltb→lt (end x) (end t) before)) l,
      by_time-Sorted t xs s,
    )
    | inr behind ↦ rw behind (
      (
        ltb→le (end x) (end t) behind,
        Late-mono (end t) (end x) xs (ltb→le (end x) (end t) behind) l,
      ),
      (l, s),
    )
  ]

  Late-without : (e : ℕ) (t : Ptr) (us vs : List Ptr) → Late e (us ++ t ∷ vs) → Late e (us ++ vs)
  Late-without e t [] vs (a, l) = l
  Late-without e t (u ∷ us) vs (a, l) = (a, Late-without e t us vs l)

  pub Sorted-without : (t : Ptr) (us vs : List Ptr) → Sorted (us ++ t ∷ vs) → Sorted (us ++ vs)
  Sorted-without t [] vs (l, s) = s
  Sorted-without t (u ∷ us) vs (l, s) = (Late-without (end u) t us vs l, Sorted-without t us vs s)
