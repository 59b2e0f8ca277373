-- ===== src/SedaTimer/Due.antt =====
-- The active timers that are due.
use zrsocket.Base.{
  ℕ, suc, ◌≤◌, ◌≡◌, inl, inr, refl, sym, ap, subst, true, false, List, [], ◌∷◌, ◌++◌, length, leb,
  leb→le, leb→lt, Bool-cases, ◌==◌, if◌then◌else◌, arith,
}
use zrsocket.TimerList.{Ptr}
use zrsocket.TimerList.Chain.{has, distinct, has-append}
use zrsocket.TimerList.Distinct.{eq_of_test}
use zrsocket.SedaTimer.{SedaTimerQueue}
use zrsocket.SedaTimer.ByTime.{Late, Sorted, Sorted-left}
use zrsocket.SedaTimer.Arm.{Timers}

-- The timers at the front of the list that are due.
unfoldable pub due : (now : ℕ) → (Ptr → ℕ) → List Ptr → List Ptr
due now end [] = []
due now end (x ∷ xs) = let rest = x ∷ due now end xs in if leb (end x) now then rest else []

module _ (now : ℕ) (end : Ptr → ℕ) where
  pub due-more :
      (x : Ptr) (xs : List Ptr) → leb (end x) now ≡ true → due now end (x ∷ xs) ≡ x ∷ due now end xs
  unfolding due
  due-more x xs e = rw e refl

  pub due-none : (x : Ptr) (xs : List Ptr) → leb (end x) now ≡ false → due now end (x ∷ xs) ≡ []
  unfolding due
  due-none x xs e = rw e refl

  Late-get : (e : ℕ) (xs : List Ptr) (y : Ptr) → Late end e xs → has y xs ≡ true → e ≤ end y
  Late-get e [] y l i = absurd (ground arith)
  Late-get e (x ∷ xs) y (a, l) i = elim (Bool-cases (y == x)) [
    | inl here ↦ subst (λ z. e ≤ end z) (sym (eq_of_test y x here)) a
    | inr there ↦ Late-get e xs y l (ground arith)
  ]

  -- In a sorted list they are all the timers that are due.
  due-all :
      (xs : List Ptr) (y : Ptr)
      → Sorted end xs
      → has y xs ≡ true
      → end y ≤ now
      → has y (due now end xs) ≡ true
  due-all [] y s i h = absurd (ground arith)
  due-all (x ∷ xs) y (l, s) i h = elim (Bool-cases (leb (end x) now)) [
    | inl hit ↦ rw (due-more x xs hit) (elim (Bool-cases (y == x)) [
      | inl here ↦ ground arith
      | inr there ↦ ground (arith, due-all xs y s)
    ])
    | inr miss ↦ elim (Bool-cases (y == x)) [
      | inl here ↦ absurd (omega (arith, leb→lt (end x) now miss, ap end (eq_of_test y x here), h))
      | inr there ↦
          absurd (omega (arith, leb→lt (end x) now miss, Late-get (end x) xs y l (ground arith), h))
    ]
  ]

  due-only : (xs : List Ptr) (y : Ptr) → has y (due now end xs) ≡ true → end y ≤ now
  unfolding due
  due-only [] y i = absurd (ground arith)
  due-only (x ∷ xs) y i = elim (Bool-cases (leb (end x) now)) [
    | inl hit ↦ elim (Bool-cases (y == x)) [
      | inl here ↦ subst (λ z. end z ≤ now) (sym (eq_of_test y x here)) (leb→le (end x) now hit)
      | inr there ↦ due-only xs y (ground (arith, due-more x xs hit))
    ]
    | inr miss ↦ absurd (ground (arith, due-none x xs miss))
  ]

distinct-left : (us vs : List Ptr) → distinct (us ++ vs) ≡ true → distinct us ≡ true
distinct-left [] vs h = refl
distinct-left (x ∷ us) vs h = ground (arith, distinct-left us vs, has-append x us vs)

pub length-due : (now : ℕ) (end : Ptr → ℕ) (xs : List Ptr) → length (due now end xs) ≤ length xs
unfolding due
length-due now end [] = omega arith
length-due now end (x ∷ xs) = elim (Bool-cases (leb (end x) now)) [
  | inl hit ↦ rw hit (longer (length-due now end xs))
  | inr miss ↦ rw miss (omega arith)
]
  where
    longer : {a b : ℕ} → a ≤ b → suc a ≤ suc b
    longer h = omega (arith, h)

-- The timers behind those that are due.
unfoldable pub not_due : (now : ℕ) → (Ptr → ℕ) → List Ptr → List Ptr
not_due now end [] = []
not_due now end (x ∷ xs) = let rest = not_due now end xs in if leb (end x) now then rest else x ∷ xs

due-append-not_due :
    (now : ℕ) (end : Ptr → ℕ) (xs : List Ptr) → xs ≡ due now end xs ++ not_due now end xs
unfolding due not_due
due-append-not_due now end [] = refl
due-append-not_due now end (x ∷ xs) = elim (Bool-cases (leb (end x) now)) [
  | inl hit ↦ rw hit (ap (λ t. x ∷ t) (due-append-not_due now end xs))
  | inr miss ↦ rw miss refl
]

-- What is told: every active timer that is due, and no other. They are the front ts of the active list
-- xs, in its order, which is the order of their times, and each one stands in it once.
pub record Tells (now : ℕ) (q : SedaTimerQueue) (xs ts : List Ptr) : Type 0 where
  pub behind : List Ptr
  pub front : xs ≡ ts ++ behind
  pub in_order : Sorted q.end_clock_ms ts
  pub once : distinct ts ≡ true
  pub all_due : (y : Ptr) → has y xs ≡ true → q.end_clock_ms y ≤ now → has y ts ≡ true
  pub only_due : (y : Ptr) → has y ts ≡ true → q.end_clock_ms y ≤ now

pub due-Tells :
    (now : ℕ) (q : SedaTimerQueue) (xs ys : List Ptr)
    → Timers q xs ys
    → Tells now q xs (due now q.end_clock_ms xs)
due-Tells now q xs ys T = record {
  behind = not_due now q.end_clock_ms xs;
  front = due-append-not_due now q.end_clock_ms xs;
  in_order =
      Sorted-left q.end_clock_ms (due now q.end_clock_ms xs) (not_due now q.end_clock_ms xs)
        (subst (Sorted q.end_clock_ms) (due-append-not_due now q.end_clock_ms xs) T.sorted);
  once = distinct-left (due now q.end_clock_ms xs) (not_due now q.end_clock_ms xs) (
      subst (λ zs. distinct zs ≡ true) (due-append-not_due now q.end_clock_ms xs)
        T.lists.left.once);
  all_due = λ y i h. due-all now q.end_clock_ms xs y T.sorted i h;
  only_due = due-only now q.end_clock_ms xs;
}
