-- ===== src/TimerList/Runs.antt =====
-- Two runs of timers, which end in p and begin with q, when the links between them change.
use zrsocket.Base.{
  ◌≡◌, sym, ap, ◌∙◌, subst, true, false, Option, none, some, List, [], ◌∷◌, ◌++◌, ◌==◌, arith,
}
use zrsocket.TimerList.{Ptr, Links}
use zrsocket.TimerList.Chain.{has, distinct, or_self, first, last, Linked, frame}
use zrsocket.TimerList.Distinct.{
  apart, apart_sym, has-last, out_head, out_tail, once_head, once_tail, out_left, out_right,
  not_left, not_right, last-some, has-last_self,
}
use zrsocket.TimerList.Model.{Around, link_to}

module _ (head : Ptr) where
  -- The neighbours of the place between ys and zs.
  abbrev pub left_of : List Ptr → Ptr
  left_of ys = or_self (last ys none) head

  abbrev pub right_of : List Ptr → Ptr
  right_of zs = or_self (first zs none) head

  pub link_to-left :
      (ys zs : List Ptr) (t : Ptr)
      → has head (ys ++ zs) ≡ false
      → link_to head (left_of ys) t ≡ or_self (last ys none) t
  link_to-left [] zs t out = ground arith
  link_to-left (y ∷ ys) zs t out =
      let i = has-last_self y ys head in
      let ne = apart (left_of (y ∷ ys)) head (y ∷ ys) i (out_left head (y ∷ ys) zs out) in
      rw ne (sym (ap (λ o. or_self o t) (last-some ys y head)))

  pub link_to-right :
      (ys zs : List Ptr) (t : Ptr)
      → has head (ys ++ zs) ≡ false
      → link_to head (right_of zs) t ≡ or_self (first zs none) t
  link_to-right ys [] t out = ground arith
  link_to-right ys (z ∷ zs) t out = ground (arith, out_right head ys (z ∷ zs) out)

  pub left_of-outside :
      (ys zs : List Ptr)
      → has head (ys ++ zs) ≡ false
      → distinct (ys ++ zs) ≡ true
      → has (left_of ys) zs ≡ false
  left_of-outside [] zs out once = out
  left_of-outside (y ∷ ys) zs out once =
      not_right (left_of (y ∷ ys)) (y ∷ ys) zs once (has-last_self y ys head)

  pub right_of-outside :
      (ys zs : List Ptr)
      → has head (ys ++ zs) ≡ false
      → distinct (ys ++ zs) ≡ true
      → has (right_of zs) ys ≡ false
  right_of-outside ys [] out once = out_left head ys [] out
  right_of-outside ys (z ∷ zs) out once = not_left z ys (z ∷ zs) once (ground arith)

module _ (h h' : Links) (p t q : Ptr) (i : Around h h' p t q) where
  -- The run in front of p's new neighbour, whose last timer is p.
  pub left_run :
      (b : Option Ptr) (ys : List Ptr) (a : Option Ptr)
      → Linked h b ys a
      → has t ys ≡ false
      → has q ys ≡ false
      → distinct ys ≡ true
      → last ys (some p) ≡ some p
      → (a' : Option Ptr) → h'.next p ≡ or_self a' p
      → Linked h' b ys a'
  left_run b [] a l out qs once e a' next_p = tt
  left_run b (y ∷ []) a (prev_y, next_y, _) out qs once e a' next_p = (
    i.prev_other y (out_head q y [] qs) (out_head t y [] out) ∙ prev_y,
    subst (λ o. h'.next (or_self o y) ≡ or_self a' (or_self o y)) (sym e) next_p,
    tt,
  )
  left_run b (y ∷ z ∷ ys) a (prev_y, next_y, l) out qs once e a' next_p = (
    i.prev_other y (out_head q y (z ∷ ys) qs) (out_head t y (z ∷ ys) out) ∙ prev_y,
    i.next_other y (apart_sym p y (z ∷ ys) (has-last ys z p e) (once_head y (z ∷ ys) once))
          (out_head t y (z ∷ ys) out)
        ∙ next_y,
    left_run (some y) (z ∷ ys) a l (out_tail t y (z ∷ ys) out) (out_tail q y (z ∷ ys) qs)
        (once_tail y (z ∷ ys) once) e a' next_p,
  )

  -- The run behind, whose first timer is q.
  pub right_run :
      (b : Option Ptr) (zs : List Ptr)
      → Linked h b zs none
      → has t zs ≡ false
      → has p zs ≡ false
      → distinct zs ≡ true
      → first zs (some q) ≡ some q
      → (b' : Option Ptr) → h'.prev q ≡ or_self b' q
      → Linked h' b' zs none
  right_run b [] l out ps once e b' prev_q = tt
  right_run b (z ∷ zs) (prev_z, next_z, l) out ps once e b' prev_q = (
    subst (λ o. h'.prev (or_self o z) ≡ or_self b' (or_self o z)) (sym e) prev_q,
    i.next_other z (out_head p z zs ps) (out_head t z zs out) ∙ next_z,
    frame h h' (some z) zs none l (λ y y_in. record {
      prev = i.prev_other y (is_q y y_in) (apart y t zs y_in (out_tail t z zs out));
      next =
          i.next_other y (apart y p zs y_in (out_tail p z zs ps))
            (apart y t zs y_in (out_tail t z zs out));
    }),
  )
    where
      is_q : (y : Ptr) → has y zs ≡ true → (y == q) ≡ false
      is_q y y_in =
          subst (λ o. (y == or_self o z) ≡ false) e (apart y z zs y_in (once_head z zs once))
