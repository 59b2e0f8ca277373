-- ===== src/TimerList/Distinct.antt =====
-- Lists of pointers in which no pointer stands twice.
use zrsocket.Base.{
  suc, ◌≡◌, ◌⊎◌, inl, inr, refl, ap, Bool-cases, true, false, ◌||◌, none, some, List, [], ◌∷◌, ◌++◌,
  length, ◌==◌, arith,
}
use zrsocket.TimerList.{Ptr}
use zrsocket.TimerList.Chain.{has, distinct, or_self, first, last, has-append}

-- A timer of the list is another one than a timer that is not in it.
pub apart : (y t : Ptr) (xs : List Ptr) → has y xs ≡ true → has t xs ≡ false → (y == t) ≡ false
apart y t [] i o = absurd (ground arith)
apart y t (x ∷ xs) i o = ground (arith, apart y t xs)

pub has-last : (xs : List Ptr) (x p : Ptr) → last xs (some x) ≡ some p → has p (x ∷ xs) ≡ true
has-last [] x p e = ground arith
has-last (y ∷ xs) x p e = ground (arith, has-last xs y p e)

pub apart_sym : (y t : Ptr) (xs : List Ptr) → has y xs ≡ true → has t xs ≡ false → (t == y) ≡ false
apart_sym y t [] i o = absurd (ground arith)
apart_sym y t (x ∷ xs) i o = ground (arith, apart_sym y t xs)

module _ (t y : Ptr) (ys : List Ptr) (out : has t (y ∷ ys) ≡ false) where
  pub out_head : (y == t) ≡ false
  out_head = ground arith

  pub out_head_sym : (t == y) ≡ false
  out_head_sym = ground arith

  pub out_tail : has t ys ≡ false
  out_tail = ground arith

module _ (y : Ptr) (ys : List Ptr) (once : distinct (y ∷ ys) ≡ true) where
  pub once_head : has y ys ≡ false
  once_head = ground arith

  pub once_tail : distinct ys ≡ true
  once_tail = ground arith

pub test_sym : (x y : Ptr) → (x == y) ≡ false → (y == x) ≡ false
test_sym x y e = ground arith

pub eq_of_test : (x y : Ptr) → (x == y) ≡ true → x ≡ y
eq_of_test x y e = ground arith

-- The two halves of a list.
pub distinct-left : (xs ys : List Ptr) → distinct (xs ++ ys) ≡ true → distinct xs ≡ true
distinct-left [] ys once = refl
distinct-left (x ∷ xs) ys once = ground (
  arith,
  distinct-left xs ys (once_tail x (xs ++ ys) once),
  has-append x xs ys,
  once_head x (xs ++ ys) once,
)

pub distinct-right : (xs ys : List Ptr) → distinct (xs ++ ys) ≡ true → distinct ys ≡ true
distinct-right [] ys once = once
distinct-right (x ∷ xs) ys once = distinct-right xs ys (once_tail x (xs ++ ys) once)

pub not_right :
    (x : Ptr) (xs ys : List Ptr) → distinct (xs ++ ys) ≡ true → has x xs ≡ true → has x ys ≡ false
not_right x [] ys once i = absurd (ground arith)
not_right x (y ∷ xs) ys once i = elim (Bool-cases (x == y)) [
  | inl here ↦ ground (arith, eq_of_test x y here, has-append y xs ys, once_head y (xs ++ ys) once)
  | inr there ↦ not_right x xs ys (once_tail y (xs ++ ys) once) (ground arith)
]

pub not_left :
    (x : Ptr) (xs ys : List Ptr) → distinct (xs ++ ys) ≡ true → has x ys ≡ true → has x xs ≡ false
not_left x [] ys once i = refl
not_left x (y ∷ xs) ys once i = ground (
  arith,
  not_left x xs ys (once_tail y (xs ++ ys) once) i,
  has-append y xs ys,
  once_head y (xs ++ ys) once,
)

pub out_left : (x : Ptr) (xs ys : List Ptr) → has x (xs ++ ys) ≡ false → has x xs ≡ false
out_left x xs ys o = ground (arith, has-append x xs ys)

pub out_right : (x : Ptr) (xs ys : List Ptr) → has x (xs ++ ys) ≡ false → has x ys ≡ false
out_right x xs ys o = ground (arith, has-append x xs ys)

pub has-insert :
    (x t : Ptr) (xs ys : List Ptr) → has x (xs ++ t ∷ ys) ≡ ((x == t) || has x (xs ++ ys))
has-insert x t [] ys = refl
has-insert x t (y ∷ xs) ys = ground (arith, has-insert x t xs ys)

pub distinct-insert :
    (t : Ptr) (xs ys : List Ptr)
    → has t (xs ++ ys) ≡ false
    → distinct (xs ++ ys) ≡ true
    → distinct (xs ++ t ∷ ys) ≡ true
distinct-insert t [] ys out once = ground arith
distinct-insert t (x ∷ xs) ys out once = ground (
  arith,
  has-insert x t xs ys,
  distinct-insert t xs ys (out_tail t x (xs ++ ys) out) (once_tail x (xs ++ ys) once),
  once_head x (xs ++ ys) once,
  out_head t x (xs ++ ys) out,
)

pub distinct-uninsert :
    (t : Ptr) (xs ys : List Ptr) → distinct (xs ++ t ∷ ys) ≡ true → distinct (xs ++ ys) ≡ true
distinct-uninsert t [] ys once = once_tail t ys once
distinct-uninsert t (x ∷ xs) ys once = ground (
  arith,
  has-insert x t xs ys,
  distinct-uninsert t xs ys (once_tail x (xs ++ t ∷ ys) once),
  once_head x (xs ++ t ∷ ys) once,
)

pub distinct-at :
    (t : Ptr) (xs ys : List Ptr) → distinct (xs ++ t ∷ ys) ≡ true → has t (xs ++ ys) ≡ false
distinct-at t [] ys once = once_head t ys once
distinct-at t (x ∷ xs) ys once = ground (
  arith,
  has-insert x t xs ys,
  distinct-at t xs ys (once_tail x (xs ++ t ∷ ys) once),
  once_head x (xs ++ t ∷ ys) once,
)

pub length-insert : (t : Ptr) (ys zs : List Ptr) → length (ys ++ t ∷ zs) ≡ suc (length (ys ++ zs))
length-insert t [] zs = refl
length-insert t (y ∷ ys) zs = ap suc (length-insert t ys zs)

-- A last timer is in the list.
pub last-some : (xs : List Ptr) (x d : Ptr) → last xs (some x) ≡ some (or_self (last xs (some x)) d)
last-some [] x d = refl
last-some (y ∷ xs) x d = last-some xs y d

pub last_self :
    (xs : List Ptr) (d : Ptr)
    → last xs (some (or_self (last xs none) d)) ≡ some (or_self (last xs none) d)
last_self [] d = refl
last_self (x ∷ xs) d = last-some xs x d

pub has-last_self :
    (x : Ptr) (xs : List Ptr) (d : Ptr) → has (or_self (last (x ∷ xs) none) d) (x ∷ xs) ≡ true
has-last_self x xs d = has-last xs x (or_self (last xs (some x)) d) (last-some xs x d)

pub first_self :
    (xs : List Ptr) (d : Ptr)
    → first xs (some (or_self (first xs none) d)) ≡ some (or_self (first xs none) d)
first_self [] d = refl
first_self (x ∷ xs) d = refl

-- A timer between the two halves of a list, and the timers of the list without it.
module _ (x t : Ptr) (us vs : List Ptr) where
  pub out_between : has x (us ++ t ∷ vs) ≡ false → has x (us ++ vs) ≡ false
  out_between o = ground (arith, has-insert x t us vs)

  pub ne_between : has x (us ++ t ∷ vs) ≡ false → (x == t) ≡ false
  ne_between o = ground (arith, has-insert x t us vs)

  pub in_between : has x (us ++ vs) ≡ true → has x (us ++ t ∷ vs) ≡ true
  in_between i = ground (arith, has-insert x t us vs)

  pub still_out : (x == t) ≡ false → has x (us ++ vs) ≡ false → has x (us ++ t ∷ vs) ≡ false
  still_out ne o = ground (arith, has-insert x t us vs)

  pub between-cases : has x (us ++ t ∷ vs) ≡ true → (x ≡ t) ⊎ (has x (us ++ vs) ≡ true)
  between-cases i = elim (Bool-cases (x == t)) [
    | inl e ↦ inl (eq_of_test x t e)
    | inr ne ↦ inr (ground (arith, has-insert x t us vs))
  ]

pub has-here : (t : Ptr) (us vs : List Ptr) → has t (us ++ t ∷ vs) ≡ true
has-here t us vs = ground (arith, has-insert t t us vs)
