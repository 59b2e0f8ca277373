-- ===== src/TimerList/Ops.antt =====
-- What each operation of SedaTimerList does to the list of timers, and what it leaves alone.
use zrsocket.Base.{
  ◌≡◌, refl, sym, ap, ◌∙◌, subst, false, none, List, [], ◌∷◌, ◌++◌, append_assoc, append-nil, ◌==◌,
  arith,
}
use zrsocket.TimerList.{
  Ptr, Links, TimerList, shrink, push_front, push_back, pop_front, pop_back, insert_before,
  insert_after, remove,
}
use zrsocket.TimerList.Chain.{has, or_self, last-append, Same}
use zrsocket.TimerList.Distinct.{
  test_sym, has-insert, out_left, out_right, out_head, out_head_sym, out_tail,
}
use zrsocket.TimerList.Runs.{left_of, right_of}
use zrsocket.TimerList.Model.{Rep, Fresh, Around, Inserted, Removed}
use zrsocket.TimerList.Insert.{grown, insert-Rep}
use zrsocket.TimerList.Remove.{shrunk, remove-Rep}
use zrsocket.TimerList.Steps.{
  push_front-Inserted, push_back-Inserted, insert_after-Inserted, insert_before-Inserted,
  pop_front-Removed, pop_back-Removed,
}
use zrsocket.TimerList.Detach.{remove-Removed}
use zrsocket.TimerList.Place.{ne_left, ne_right, place, emptied, left-head}

-- The links are the same but at `head_` and at the timers xs.
abbrev pub Outside : (head : Ptr) → Links → Links → List Ptr → Type 0
Outside head h h' xs = (y : Ptr) → has y xs ≡ false → (y == head) ≡ false → Same h h' y

around-Outside :
    (head t : Ptr) (h h' : Links) (ys zs : List Ptr)
    → Around h h' (left_of head ys) t (right_of head zs)
    → Outside head h h' (ys ++ t ∷ zs)
around-Outside head t h h' ys zs a y out ne =
    let o = sym (has-insert y t ys zs) ∙ out in
    let ne_t : (y == t) ≡ false = ground (arith, o) in
    let rest : has y (ys ++ zs) ≡ false = ground (arith, o) in
    record {
      prev = a.prev_other y (ne_right head y zs ne (out_right y ys zs rest)) ne_t;
      next = a.next_other y (ne_left head y ys ne (out_left y ys zs rest)) ne_t;
    }

-- The list has become xs, and the links outside of ys are as they were.
pub record Becomes (head : Ptr) (h : Links) (xs ys : List Ptr) (s : TimerList × Links)
    : Type 0 where
  pub rep : Rep s.0 s.1 xs
  pub frame : Outside head h s.1 ys
  pub same_head : s.0.head ≡ head

empty-both :
    (head : Ptr) (xs : List Ptr)
    → has head xs ≡ false
    → (right_of head xs == head) ≡ (left_of head xs == head)
empty-both head [] out = refl
empty-both head (x ∷ xs) out = out_head head x xs out ∙ sym (left-head head head xs x out)

-- A list with a timer in it is not alone, and one without says that it is empty.
module _ (l : TimerList) (h : Links) (some_in : (h.next l.head == l.head) ≡ false) where
  pop_front-size : pop_front l h ≡ (shrunk l, (pop_front l h).1)
  unfolding pop_front shrink
  pop_front-size = rw some_in refl

  pop_back-size : pop_back l h ≡ (shrunk l, (pop_back l h).1)
  unfolding pop_back shrink
  pop_back-size = rw some_in refl

remove-size :
    (t : Ptr) (l : TimerList) (h : Links)
    → (l.size == 0) ≡ false
    → remove t l h ≡ (shrunk l, (remove t l h).1)
unfolding remove shrink
remove-size t l h some_in = rw some_in refl

module _ {l : TimerList} {h : Links} where
  inserted :
      (t : Ptr) (ys zs : List Ptr) (h' : Links)
      → Rep l h (ys ++ zs)
      → Fresh l (ys ++ zs) t
      → Inserted h h' l.head (left_of l.head ys) t (right_of l.head zs)
      → Becomes l.head h (ys ++ t ∷ zs) (ys ++ t ∷ zs) (grown l, h')
  inserted t ys zs h' r f i = record {
    rep = insert-Rep t ys zs r f i;
    frame = around-Outside l.head t h h' ys zs i.around;
    same_head = refl;
  }

  removed :
      (t : Ptr) (ys zs : List Ptr) (h' : Links)
      → Rep l h (ys ++ t ∷ zs)
      → Removed h h' l.head (left_of l.head ys) t (right_of l.head zs)
      → Becomes l.head h (ys ++ zs) (ys ++ t ∷ zs) (shrunk l, h')
  removed t ys zs h' r i = record {
    rep = remove-Rep t ys zs r i;
    frame = around-Outside l.head t h h' ys zs i.around;
    same_head = refl;
  }

  pub push_front_lem :
      (t : Ptr) (xs : List Ptr)
      → Rep l h xs
      → Fresh l xs t
      → Becomes l.head h (t ∷ xs) (t ∷ xs) (push_front t l h)
  unfolding push_front
  push_front_lem t xs r f = inserted t [] xs (push_front t l h).1 r f (
      subst (Inserted h (push_front t l h).1 l.head l.head t) r.head_next (
        push_front-Inserted l h t f.not_head
          (ap (λ x. t == x) r.head_next ∙ ne_right l.head t xs f.not_head f.not_in)))

  pub push_back_lem :
      (t : Ptr) (xs : List Ptr)
      → Rep l h xs
      → Fresh l xs t
      → Becomes l.head h (xs ++ t ∷ []) (xs ++ t ∷ []) (push_back t l h)
  unfolding push_back
  push_back_lem t xs r f =
      inserted t xs [] (push_back t l h).1 (subst (Rep l h) (sym (append-nil xs)) r)
        (subst (λ ys. Fresh l ys t) (sym (append-nil xs)) f)
        (subst (λ p. Inserted h (push_back t l h).1 l.head p t l.head) r.head_prev
          (push_back-Inserted l h t f.not_head
            (ap (λ x. t == x) r.head_prev ∙ ne_left l.head t xs f.not_head f.not_in)
            (ap (λ x. x == l.head) r.head_next
              ∙ empty-both l.head xs r.outside
              ∙ sym (ap (λ x. x == l.head) r.head_prev))))

  pub insert_before_lem :
      (pos t : Ptr) (ys zs : List Ptr)
      → Rep l h (ys ++ pos ∷ zs)
      → Fresh l (ys ++ pos ∷ zs) t
      → Becomes l.head h (ys ++ t ∷ pos ∷ zs) (ys ++ t ∷ pos ∷ zs) (insert_before pos t l h)
  unfolding insert_before
  insert_before_lem pos t ys zs r f =
      let b = place pos ys zs r in
      inserted t ys (pos ∷ zs) (insert_before pos t l h).1 r f (
        insert_before-Inserted l h t f.not_head pos b.t_head
          (out_head_sym t pos zs (out_right t ys (pos ∷ zs) f.not_in)) (left_of l.head ys) b.to_p
          (test_sym pos (left_of l.head ys) b.t_p)
          (ne_left l.head t ys f.not_head (out_left t ys (pos ∷ zs) f.not_in)) b.at_front)

  pub insert_after_lem :
      (pos t : Ptr) (ys zs : List Ptr)
      → Rep l h (ys ++ pos ∷ zs)
      → Fresh l (ys ++ pos ∷ zs) t
      → Becomes l.head h (ys ++ pos ∷ t ∷ zs) (ys ++ pos ∷ t ∷ zs) (insert_after pos t l h)
  unfolding insert_after
  insert_after_lem pos t ys zs r f =
      let b = place pos ys zs r in
      let t_zs = out_right t ys (pos ∷ zs) f.not_in in
      let i =
        insert_after-Inserted l h t f.not_head pos b.t_head (out_head_sym t pos zs t_zs)
          (right_of l.head zs) b.to_q (test_sym pos (right_of l.head zs) b.t_q)
          (ne_right l.head t zs f.not_head (out_tail t pos zs t_zs)) b.at_back in
      let cut = append_assoc ys (pos ∷ []) zs in
      subst (λ xs. Becomes l.head h xs xs (insert_after pos t l h))
        (append_assoc ys (pos ∷ []) (t ∷ zs))
        (inserted t (ys ++ pos ∷ []) zs (insert_after pos t l h).1 (subst (Rep l h) (sym cut) r)
          (subst (λ xs. Fresh l xs t) (sym cut) f)
          (subst
            (λ o.
              Inserted h (insert_after pos t l h).1 l.head (or_self o l.head) t
                (right_of l.head zs))
            (sym (last-append ys (pos ∷ []) none)) i))

  pub pop_front_lem :
      (t : Ptr) (xs : List Ptr) → Rep l h (t ∷ xs) → Becomes l.head h xs (t ∷ xs) (pop_front l h)
  pop_front_lem t xs r =
      let b = place t [] xs r in
      let some_in = ap (λ x. x == l.head) r.head_next ∙ b.t_head in
      subst (Becomes l.head h xs (t ∷ xs)) (sym (pop_front-size l h some_in)) (
        removed t [] xs (pop_front l h).1 r (
          pop_front-Removed l h t b.t_head (right_of l.head xs) r.head_next b.to_q b.t_q
            (emptied t [] xs r)))

  pub pop_back_lem :
      (t : Ptr) (ys : List Ptr)
      → Rep l h (ys ++ t ∷ [])
      → Becomes l.head h ys (ys ++ t ∷ []) (pop_back l h)
  pop_back_lem t ys r =
      let b = place t ys [] r in
      let at_last = r.head_prev ∙ ap (λ o. or_self o l.head) (last-append ys (t ∷ []) none) in
      let some_in =
        ap (λ x. x == l.head) r.head_next
        ∙ empty-both l.head (ys ++ t ∷ []) r.outside
        ∙ sym (ap (λ x. x == l.head) r.head_prev)
        ∙ ap (λ x. x == l.head) at_last
        ∙ b.t_head in
      subst (λ xs. Becomes l.head h xs (ys ++ t ∷ []) (pop_back l h)) (append-nil ys)
        (subst (Becomes l.head h (ys ++ []) (ys ++ t ∷ [])) (sym (pop_back-size l h some_in)) (
          removed t ys [] (pop_back l h).1 r (
            pop_back-Removed l h t b.t_head (left_of l.head ys) at_last some_in b.to_p b.t_p
              (emptied t ys [] r))))

  pub remove_lem :
      (t : Ptr) (ys zs : List Ptr)
      → Rep l h (ys ++ t ∷ zs)
      → Becomes l.head h (ys ++ zs) (ys ++ t ∷ zs) (remove t l h)
  remove_lem t ys zs r =
      let b = place t ys zs r in
      subst (Becomes l.head h (ys ++ zs) (ys ++ t ∷ zs)) (sym (remove-size t l h b.some_in)) (
        removed t ys zs (remove t l h).1 r
          (remove-Removed l h (left_of l.head ys) t (right_of l.head zs) b (emptied t ys zs r)))
