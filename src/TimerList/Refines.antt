-- ===== src/TimerList/Refines.antt =====
-- Every order of calls on a SedaTimerList against the same calls on a plain list of timers.
use zrsocket.Base.{
  suc, ◌<◌, ◌^◌, ◌≡◌, refl, sym, ap, ◌∙◌, true, false, subst, List, [], ◌∷◌, ◌++◌, length, ◌==◌,
  arith,
}
use zrsocket.TimerList.{
  Ptr, Links, TimerList, init, push_front, push_back, pop_front, pop_back, insert_before,
  insert_after, remove,
}
use zrsocket.TimerList.Chain.{has}
use zrsocket.TimerList.Model.{Rep, Fresh}
use zrsocket.TimerList.Ops.{
  Becomes, push_front_lem, push_back_lem, pop_front_lem, pop_back_lem, insert_before_lem,
  insert_after_lem, remove_lem,
}

pub data Op : Type 0 where
  front_in back_in : Ptr → Op
  front_out back_out : Op
  before after : (pos t : Ptr) → Op
  out : Ptr → Op

unfoldable pub apply : Op → TimerList → Links → TimerList × Links
apply (front_in t) = push_front t
apply (back_in t) = push_back t
apply front_out = pop_front
apply back_out = pop_back
apply (before pos t) = insert_before pos t
apply (after pos t) = insert_after pos t
apply (out t) = remove t

-- What a call means for a plain list. A timer that comes in is in no list and is not `head_`, and the
-- list does not outgrow a uint_t; `pos` and a timer that is removed are in the list.
pub data Means (head : Ptr) : Op → List Ptr → List Ptr → Type 0 where
  pushes_front :
      {t : Ptr} {xs : List Ptr}
      → has t xs ≡ false
      → (t == head) ≡ false
      → suc (length xs) < 2 ^ 32
      → Means head (front_in t) xs (t ∷ xs)
  pushes_back :
      {t : Ptr} {xs : List Ptr}
      → has t xs ≡ false
      → (t == head) ≡ false
      → suc (length xs) < 2 ^ 32
      → Means head (back_in t) xs (xs ++ t ∷ [])
  pops_front : (t : Ptr) (xs : List Ptr) → Means head front_out (t ∷ xs) xs
  pops_back : (t : Ptr) (xs : List Ptr) → Means head back_out (xs ++ t ∷ []) xs
  front_empty : Means head front_out [] []
  back_empty : Means head back_out [] []
  comes_before :
      {pos t : Ptr} (ys zs : List Ptr)
      → has t (ys ++ pos ∷ zs) ≡ false
      → (t == head) ≡ false
      → suc (length (ys ++ pos ∷ zs)) < 2 ^ 32
      → Means head (before pos t) (ys ++ pos ∷ zs) (ys ++ t ∷ pos ∷ zs)
  comes_after :
      {pos t : Ptr} (ys zs : List Ptr)
      → has t (ys ++ pos ∷ zs) ≡ false
      → (t == head) ≡ false
      → suc (length (ys ++ pos ∷ zs)) < 2 ^ 32
      → Means head (after pos t) (ys ++ pos ∷ zs) (ys ++ pos ∷ t ∷ zs)
  goes : (t : Ptr) (ys zs : List Ptr) → Means head (out t) (ys ++ t ∷ zs) (ys ++ zs)
  none_goes : (t : Ptr) → Means head (out t) [] []

self : (x : Ptr) → (x == x) ≡ true
self x = ground arith

fresh :
    {l : TimerList} {xs : List Ptr} (t : Ptr)
    → has t xs ≡ false
    → (t == l.head) ≡ false
    → suc (length xs) < 2 ^ 32
    → Fresh l xs t
fresh t a b c = record { not_in = a; not_head = b; room = c }

-- The list after a call, and its head, which stays.
abbrev pub IsNow : Ptr → List Ptr → TimerList × Links → Type 0
IsNow head xs s = Rep s.0 s.1 xs × (s.0.head ≡ head)

now :
    (head : Ptr) (h : Links) (xs ys : List Ptr) {s : TimerList × Links}
    → Becomes head h xs ys s
    → IsNow head xs s
now head h xs ys b = (b.rep, b.same_head)

module _ {l : TimerList} {h : Links} where
  apply-Rep :
      {o : Op} {xs ys : List Ptr}
      → Means l.head o xs ys
      → Rep l h xs
      → IsNow l.head ys (apply o l h)
  unfolding apply pop_front pop_back remove
  apply-Rep (pushes_front {t} {xs} a b c) r = now _ _ _ _ (push_front_lem t xs r (fresh t a b c))
  apply-Rep (pushes_back {t} {xs} a b c) r = now _ _ _ _ (push_back_lem t xs r (fresh t a b c))
  apply-Rep (pops_front t xs) r = now _ _ _ _ (pop_front_lem t xs r)
  apply-Rep (pops_back t xs) r = now _ _ _ _ (pop_back_lem t xs r)
  apply-Rep front_empty r = rw (ap (λ x. x == l.head) r.head_next ∙ self l.head) (r, refl)
  apply-Rep back_empty r = rw (ap (λ x. x == l.head) r.head_next ∙ self l.head) (r, refl)
  apply-Rep (comes_before {pos} {t} ys zs a b c) r =
      now _ _ _ _ (insert_before_lem pos t ys zs r (fresh t a b c))
  apply-Rep (comes_after {pos} {t} ys zs a b c) r =
      now _ _ _ _ (insert_after_lem pos t ys zs r (fresh t a b c))
  apply-Rep (goes t ys zs) r = now _ _ _ _ (remove_lem t ys zs r)
  apply-Rep (none_goes t) r = rw (ap (λ n. n == 0) r.size) (r, refl)

pub init-Rep : (l : TimerList) (h : Links) → IsNow l.head [] (init l h)
unfolding init
init-Rep l h = (
  record {
    linked = tt;
    head_next = ground arith;
    head_prev = ground arith;
    size = refl;
    outside = refl;
    once = refl;
    small = omega arith;
  },
  refl,
)

-- One call after the other.
unfoldable pub apply_all : List Op → TimerList → Links → TimerList × Links
unfolding apply
apply_all [] l h = (l, h)
apply_all (o ∷ ops) l h = let s = apply o l h in apply_all ops s.0 s.1

pub data Meaning (head : Ptr) : List Op → List Ptr → List Ptr → Type 0 where
  done : {xs : List Ptr} → Meaning head [] xs xs
  step :
      {o : Op} {ops : List Op} {xs ys zs : List Ptr}
      → Means head o xs ys
      → Meaning head ops ys zs
      → Meaning head (o ∷ ops) xs zs

apply_all-Rep :
    (head : Ptr) {ops : List Op} {xs ys : List Ptr} (l : TimerList) (h : Links)
    → l.head ≡ head
    → Meaning head ops xs ys
    → Rep l h xs
    → IsNow head ys (apply_all ops l h)
unfolding apply_all
apply_all-Rep head l h e done r = (r, e)
apply_all-Rep head l h e (step {o} {xs} {ys} m ms) r =
    let (r', e') = apply-Rep (subst (λ p. Means p o xs ys) (sym e) m) r in
    apply_all-Rep head (apply o l h).0 (apply o l h).1 (e' ∙ e) ms r'

-- After `init` and any sequence of calls of push_front, push_back, pop_front, pop_back,
-- insert_before, insert_after and remove, the links of the timers, those of `head_` and `size_` stand
-- for the list that the same calls make of an empty list. It is linked both ways, its first timer is
-- its own `prev_`, its last its own `next_`. A call's timer must be in no list when it comes in, and in
-- the list when it goes; the list stays below 2^32 timers.
pub apply_all-Means :
    (l : TimerList) (h : Links) (ops : List Op) (xs : List Ptr)
    → Meaning l.head ops [] xs
    → Rep (apply_all ops (init l h).0 (init l h).1).0 (apply_all ops (init l h).0 (init l h).1).1 xs
apply_all-Means l h ops xs m =
    (apply_all-Rep l.head (init l h).0 (init l h).1 (init-Rep l h).1 m (init-Rep l h).0).0
