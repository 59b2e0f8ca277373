-- ===== src/TimerList/Insert.antt =====
-- A timer list after a timer has come in between two of its timers.
use zrsocket.Base.{
  ◌<◌, ◌^◌, ◌≡◌, sym, ap, ◌∙◌, subst, false, none, some, List, [], ◌∷◌, ◌++◌, length, ◌==◌, arith,
  add32, add32_lem,
}
use zrsocket.TimerList.{Ptr, Links, TimerList}
use zrsocket.TimerList.Chain.{
  has, or_self, first, last, Linked, join, cut_left, cut_right, last-append,
}
use zrsocket.TimerList.Distinct.{
  apart_sym, out_head_sym, test_sym, out_left, out_right, distinct-left, distinct-right,
  distinct-insert, last_self, first_self, has-last_self, has-insert, length-insert,
}
use zrsocket.TimerList.Runs.{
  left_of, right_of, link_to-left, link_to-right, left_of-outside, right_of-outside, left_run,
  right_run,
}
use zrsocket.TimerList.Model.{Rep, Fresh, Inserted}

-- `++size_`
abbrev pub grown : TimerList → TimerList
grown l = record l { size = add32 l.size 1 }

module _ (h h' : Links) (head t : Ptr) (head_t : (head == t) ≡ false) where
  head_next-insert :
      (ys zs : List Ptr)
      → has head (ys ++ zs) ≡ false
      → h.next head ≡ or_self (first (ys ++ zs) none) head
      → Inserted h h' head (left_of head ys) t (right_of head zs)
      → h'.next head ≡ or_self (first (ys ++ t ∷ zs) none) head
  head_next-insert [] zs out e i = i.next_p
  head_next-insert (y ∷ ys) zs out e i =
      i.around.next_other head
        (apart_sym (left_of head (y ∷ ys)) head (y ∷ ys) (has-last_self y ys head)
          (out_left head (y ∷ ys) zs out))
        head_t
      ∙ e

  head_prev-insert :
      (ys zs : List Ptr)
      → has head (ys ++ zs) ≡ false
      → h.prev head ≡ or_self (last (ys ++ zs) none) head
      → Inserted h h' head (left_of head ys) t (right_of head zs)
      → h'.prev head ≡ or_self (last (ys ++ t ∷ zs) none) head
  head_prev-insert ys [] out e i =
      i.prev_q ∙ sym (ap (λ o. or_self o head) (last-append ys (t ∷ []) none))
  head_prev-insert ys (z ∷ zs) out e i =
      i.around.prev_other head (out_head_sym head z zs (out_right head ys (z ∷ zs) out)) head_t
      ∙ e
      ∙ ap (λ o. or_self o head)
          (last-append ys (z ∷ zs) none ∙ sym (last-append ys (t ∷ z ∷ zs) none))

module _ {l : TimerList} {h h' : Links} (t : Ptr) (ys zs : List Ptr) (r : Rep l h (ys ++ zs))
    (f : Fresh l (ys ++ zs) t)
    (i : Inserted h h' l.head (left_of l.head ys) t (right_of l.head zs)) where
  insert-Linked : Linked h' none (ys ++ t ∷ zs) none
  insert-Linked =
      let p = left_of l.head ys in
      let q = right_of l.head zs in
      join h' none ys (t ∷ zs) none
        (left_run h h' p t q i.around none ys (first zs none) (cut_left h none ys zs none r.linked)
          (out_left t ys zs f.not_in) (right_of-outside l.head ys zs r.outside r.once)
          (distinct-left ys zs r.once) (last_self ys l.head) (some t) i.next_p)
        (
          i.prev_t ∙ link_to-left l.head ys zs t r.outside,
          i.next_t ∙ link_to-right l.head ys zs t r.outside,
          right_run h h' p t q i.around (last ys none) zs (cut_right h none ys zs none r.linked)
              (out_right t ys zs f.not_in) (left_of-outside l.head ys zs r.outside r.once)
              (distinct-right ys zs r.once) (first_self zs l.head) (some t) i.prev_q,
        )

  pub insert-Rep : Rep (grown l) h' (ys ++ t ∷ zs)
  insert-Rep = record {
    linked = insert-Linked;
    head_next =
        head_next-insert h h' l.head t (test_sym t l.head f.not_head) ys zs r.outside r.head_next i;
    head_prev =
        head_prev-insert h h' l.head t (test_sym t l.head f.not_head) ys zs r.outside r.head_prev i;
    size =
        ap (λ n. add32 n 1) r.size
        ∙ add32_lem (length (ys ++ zs)) 1 (omega (arith, f.room))
        ∙ omega (arith, length-insert t ys zs);
    outside = has-insert l.head t ys zs ∙ ground (arith, r.outside, f.not_head);
    once = distinct-insert t ys zs f.not_in r.once;
    small = subst (λ n. n < 2 ^ 32) (sym (length-insert t ys zs)) f.room;
  }
