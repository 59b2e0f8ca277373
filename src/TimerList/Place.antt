-- ===== src/TimerList/Place.antt =====
-- Where a timer of a list stands: between its neighbours.
use zrsocket.Base.{
  ◌≡◌, sym, ap, ◌∙◌, true, false, ◌&&◌, none, List, [], ◌∷◌, ◌++◌, length, ◌==◌, sub32, sub32_lem,
  arith,
}
use zrsocket.TimerList.{Ptr, Links, TimerList}
use zrsocket.TimerList.Chain.{has, distinct, cut_right, last-append}
use zrsocket.TimerList.Distinct.{
  apart, apart_sym, out_head, out_head_sym, out_left, out_right, distinct-at, distinct-uninsert,
  not_right, has-last_self, has-insert, length-insert,
}
use zrsocket.TimerList.Runs.{left_of, right_of, link_to-left, link_to-right}
use zrsocket.TimerList.Model.{Rep}
use zrsocket.TimerList.Steps.{Emptied}
use zrsocket.TimerList.Detach.{Between}

module _ (head t : Ptr) where
  -- A neighbour is another timer, or `head_`.
  pub ne_left :
      (ys : List Ptr) → (t == head) ≡ false → has t ys ≡ false → (t == left_of head ys) ≡ false
  ne_left [] ne out = ne
  ne_left (y ∷ ys) ne out =
      apart_sym (left_of head (y ∷ ys)) t (y ∷ ys) (has-last_self y ys head) out

  pub ne_right :
      (zs : List Ptr) → (t == head) ≡ false → has t zs ≡ false → (t == right_of head zs) ≡ false
  ne_right [] ne out = ne
  ne_right (z ∷ zs) ne out = out_head_sym t z zs out

  pub left-head :
      (ys : List Ptr) (y : Ptr)
      → has head (y ∷ ys) ≡ false
      → (left_of head (y ∷ ys) == head) ≡ false
  left-head ys y out = apart (left_of head (y ∷ ys)) head (y ∷ ys) (has-last_self y ys head) out

  -- The first timer is the one without a left neighbour, the last the one without a right one.
  pub front-left :
      (ys zs : List Ptr)
      → has head ys ≡ false
      → has t ys ≡ false
      → (t == right_of head (ys ++ t ∷ zs)) ≡ (left_of head ys == head)
  front-left [] zs out t_out = ground arith
  front-left (y ∷ ys) zs out t_out = out_head_sym t y ys t_out ∙ sym (left-head ys y out)

  pub back-right :
      (ys zs : List Ptr)
      → has head zs ≡ false
      → has t zs ≡ false
      → (t == left_of head (ys ++ t ∷ zs)) ≡ (right_of head zs == head)
  back-right ys [] out t_out = rw (last-append ys (t ∷ []) none) (ground arith)
  back-right ys (z ∷ zs) out t_out = rw (last-append ys (t ∷ z ∷ zs) none) (
      apart_sym (left_of head (z ∷ zs)) t (z ∷ zs) (has-last_self z zs head) t_out
      ∙ sym (out_head head z zs out))

  -- The two neighbours are one only if both are `head_`.
  pub left-right :
      (ys zs : List Ptr)
      → has head (ys ++ zs) ≡ false
      → distinct (ys ++ zs) ≡ true
      → (left_of head ys == right_of head zs)
        ≡ ((left_of head ys == head) && (right_of head zs == head))
  left-right [] [] out once = ground arith
  left-right [] (z ∷ zs) out once = ground arith
  left-right (y ∷ ys) [] out once =
      let e = left-head ys y (out_left head (y ∷ ys) [] out) in ground (arith, e)
  left-right (y ∷ ys) (z ∷ zs) out once =
      let e = left-head ys y (out_left head (y ∷ ys) (z ∷ zs) out) in
      let n = not_right (left_of head (y ∷ ys)) (y ∷ ys) (z ∷ zs) once (has-last_self y ys head) in
      rw e (out_head_sym (left_of head (y ∷ ys)) z zs n)

  pub one-left :
      (ys zs : List Ptr)
      → has head (ys ++ zs) ≡ false
      → (length (ys ++ zs) == 0) ≡ ((left_of head ys == head) && (right_of head zs == head))
  one-left [] [] out = ground arith
  one-left [] (z ∷ zs) out = ground arith
  one-left (y ∷ ys) zs out =
      let e = left-head ys y (out_left head (y ∷ ys) zs out) in rw e (ground arith)

module _ {l : TimerList} {h : Links} (t : Ptr) (ys zs : List Ptr) (r : Rep l h (ys ++ t ∷ zs)) where
  pub place : Between l h (left_of l.head ys) t (right_of l.head zs)
  place =
      let o = sym (has-insert l.head t ys zs) ∙ r.outside in
      let others : has l.head (ys ++ zs) ≡ false = ground (arith, o) in
      let t_head : (t == l.head) ≡ false = ground (arith, o) in
      let t_out = distinct-at t ys zs r.once in
      let right = cut_right h none ys (t ∷ zs) none r.linked in
      record {
        some_in = ground (arith, r.size, length-insert t ys zs);
        t_head = t_head;
        t_p = ne_left l.head t ys t_head (out_left t ys zs t_out);
        t_q = ne_right l.head t zs t_head (out_right t ys zs t_out);
        p_q = left-right l.head t ys zs others (distinct-uninsert t ys zs r.once);
        to_p = right.0 ∙ sym (link_to-left l.head ys zs t others);
        to_q = right.1 ∙ sym (link_to-right l.head ys zs t others);
        at_front =
            ap (λ x. t == x) r.head_next
            ∙ front-left l.head t ys zs (out_left l.head ys zs others) (out_left t ys zs t_out);
        at_back =
            ap (λ x. t == x) r.head_prev
            ∙ back-right l.head t ys zs (out_right l.head ys zs others) (out_right t ys zs t_out);
      }

  pub emptied : Emptied l (left_of l.head ys) (right_of l.head zs)
  emptied =
      let o = sym (has-insert l.head t ys zs) ∙ r.outside in
      let others : has l.head (ys ++ zs) ≡ false = ground (arith, o) in
      let e : sub32 l.size 1 ≡ length (ys ++ zs) =
        ap (λ n. sub32 n 1) r.size
        ∙ sub32_lem (length (ys ++ t ∷ zs)) 1 (omega (arith, length-insert t ys zs)) r.small
        ∙ omega (arith, length-insert t ys zs) in
      ap (λ n. n == 0) e ∙ one-left l.head t ys zs others
