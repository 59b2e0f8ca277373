-- ===== src/TimerList/Remove.antt =====
-- A timer list after one of its timers has left.
use zrsocket.Base.{
  ◌≡◌, sym, ap, ◌∙◌, true, false, none, some, List, [], ◌∷◌, ◌++◌, length, ◌==◌, arith, sub32,
  sub32_lem,
}
use zrsocket.TimerList.{Ptr, Links, TimerList}
use zrsocket.TimerList.Chain.{
  has, distinct, or_self, first, last, Linked, join, cut_left, cut_right, last-append,
}
use zrsocket.TimerList.Distinct.{
  apart_sym, out_head_sym, out_left, out_right, distinct-left, distinct-right, last_self,
  first_self, has-last_self, has-insert, distinct-uninsert, distinct-at, length-insert,
}
use zrsocket.TimerList.Runs.{
  left_of, right_of, link_to-left, link_to-right, left_of-outside, right_of-outside, left_run,
  right_run,
}
use zrsocket.TimerList.Model.{Rep, Removed}

-- `--size_`
abbrev pub shrunk : TimerList → TimerList
shrunk l = record l { size = sub32 l.size 1 }

module _ (h h' : Links) (head t : Ptr) (head_t : (head == t) ≡ false) where
  head_next-remove :
      (ys zs : List Ptr)
      → has head (ys ++ zs) ≡ false
      → h.next head ≡ or_self (first (ys ++ t ∷ zs) none) head
      → Removed h h' head (left_of head ys) t (right_of head zs)
      → h'.next head ≡ or_self (first (ys ++ zs) none) head
  head_next-remove [] zs out e i = i.next_p ∙ link_to-right head [] zs head out
  head_next-remove (y ∷ ys) zs out e i =
      i.around.next_other head
        (apart_sym (left_of head (y ∷ ys)) head (y ∷ ys) (has-last_self y ys head)
          (out_left head (y ∷ ys) zs out))
        head_t
      ∙ e

  head_prev-remove :
      (ys zs : List Ptr)
      → has head (ys ++ zs) ≡ false
      → h.prev head ≡ or_self (last (ys ++ t ∷ zs) none) head
      → Removed h h' head (left_of head ys) t (right_of head zs)
      → h'.prev head ≡ or_self (last (ys ++ zs) none) head
  head_prev-remove ys [] out e i =
      i.prev_q
      ∙ link_to-left head ys [] head out
      ∙ ap (λ o. or_self o head) (sym (last-append ys [] none))
  head_prev-remove ys (z ∷ zs) out e i =
      i.around.prev_other head (out_head_sym head z zs (out_right head ys (z ∷ zs) out)) head_t
      ∙ e
      ∙ ap (λ o. or_self o head)
          (last-append ys (t ∷ z ∷ zs) none ∙ sym (last-append ys (z ∷ zs) none))

module _ {l : TimerList} {h h' : Links} (t : Ptr) (ys zs : List Ptr) (r : Rep l h (ys ++ t ∷ zs))
    (i : Removed h h' l.head (left_of l.head ys) t (right_of l.head zs)) where
  -- `head_` and t are not among the timers that stay.
  others :
      (has l.head (ys ++ zs) ≡ false)
      × ((l.head == t) ≡ false)
      × (has t (ys ++ zs) ≡ false)
      × (distinct (ys ++ zs) ≡ true)
  others =
      let o = sym (has-insert l.head t ys zs) ∙ r.outside in
      (
        ground (arith, o),
        ground (arith, o),
        distinct-at t ys zs r.once,
        distinct-uninsert t ys zs r.once,
      )

  remove-Linked : Linked h' none (ys ++ zs) none
  remove-Linked =
      let p = left_of l.head ys in
      let q = right_of l.head zs in
      let (out, _, t_out, once) = others in
      join h' none ys zs none
        (left_run h h' p t q i.around none ys (some t) (cut_left h none ys (t ∷ zs) none r.linked)
          (out_left t ys zs t_out) (right_of-outside l.head ys zs out once)
          (distinct-left ys zs once) (last_self ys l.head) (first zs none)
          (i.next_p ∙ link_to-right l.head ys zs p out))
        (right_run h h' p t q i.around (some t) zs ((cut_right h none ys (t ∷ zs) none r.linked).2)
          (out_right t ys zs t_out) (left_of-outside l.head ys zs out once)
          (distinct-right ys zs once) (first_self zs l.head) (last ys none)
          (i.prev_q ∙ link_to-left l.head ys zs q out))

  pub remove-Rep : Rep (shrunk l) h' (ys ++ zs)
  remove-Rep = record {
    linked = remove-Linked;
    head_next = head_next-remove h h' l.head t others.1 ys zs others.0 r.head_next i;
    head_prev = head_prev-remove h h' l.head t others.1 ys zs others.0 r.head_prev i;
    size =
        ap (λ n. sub32 n 1) r.size
        ∙ sub32_lem (length (ys ++ t ∷ zs)) 1 (omega (arith, length-insert t ys zs)) r.small
        ∙ omega (arith, length-insert t ys zs);
    outside = others.0;
    once = others.3;
    small = omega (arith, length-insert t ys zs, r.small);
  }
