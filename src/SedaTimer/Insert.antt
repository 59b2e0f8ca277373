-- ===== src/SedaTimer/Insert.antt =====
-- SedaTimerQueue: the loop that puts a timer into the active list.
use zrsocket.Base.{
  ℕ, zero, suc, ◌≤◌, ◌<◌, ◌≡◌, refl, sym, ap, ◌∙◌, subst, none, some, List, [], ◌∷◌, ◌++◌, length,
  length-append, eq_nil, append_assoc, append-nil, ltb, ltb→lt, ltb→le, if_intro, arith,
}
use zrsocket.TimerList.{Ptr, Links, TimerList, push_front, push_back, insert_after, empty, back}
use zrsocket.TimerList.Chain.{last, or_self, Snoc, nothing, ends, snoc, last-append, cut_right}
use zrsocket.TimerList.Model.{Rep, Fresh}
use zrsocket.TimerList.Ops.{Becomes, push_front_lem, push_back_lem, insert_after_lem}
use zrsocket.SedaTimer.{SedaTimerQueue, on_active, insert_from, insert_active}
use zrsocket.SedaTimer.ByTime.{
  Early, Late, Sorted, Sorted-left, by_time, Early-of_last, by_time-append,
}

-- t has come into the active list xs, in front of the timers that do not end before it, and nothing
-- else has changed in the queue.
pub record Placed (q : SedaTimerQueue) (t : Ptr) (xs : List Ptr) (q' : SedaTimerQueue)
    : Type 0 where
  pub before : List Ptr
  pub after : List Ptr
  pub whole : before ++ after ≡ xs
  pub now : TimerList × Links
  pub result : q' ≡ record q { active_list = now.0; links = now.1 }
  pub becomes : Becomes q.active_list.head q.links (before ++ t ∷ after) (before ++ t ∷ after) now
  pub early : (y : Ptr) → last before none ≡ some y → q.end_clock_ms y < q.end_clock_ms t
  pub late : Late q.end_clock_ms (q.end_clock_ms t) after

module _ (q : SedaTimerQueue) (t : Ptr) where
  insert_from-Placed :
      (i : ℕ) (p : Ptr) (us vs : List Ptr)
      → length us ≡ i
      → ((y : Ptr) → last us none ≡ some y → p ≡ y)
      → Rep q.active_list q.links (us ++ vs)
      → Fresh q.active_list (us ++ vs) t
      → Late q.end_clock_ms (q.end_clock_ms t) vs
      → Placed q t (us ++ vs) (insert_from i p t q)
  unfolding insert_from
  insert_from-Placed zero p [] vs n at r f l = record {
    before = [];
    after = vs;
    whole = refl;
    now = push_front t q.active_list q.links;
    result = refl;
    becomes = push_front_lem t vs r f;
    early = λ y e. absurd (cc e);
    late = l;
  }
  insert_from-Placed zero p (u ∷ us) vs n at r f l = absurd (omega arith)
  insert_from-Placed (suc i) p us vs n at r f l =
      by_last us (snoc us) n at r f l (insert_from-Placed i (q.links.prev p))
    where
      by_last :
          (us : List Ptr)
          → Snoc us
          → length us ≡ suc i
          → ((y : Ptr) → last us none ≡ some y → p ≡ y)
          → Rep q.active_list q.links (us ++ vs)
          → Fresh q.active_list (us ++ vs) t
          → Late q.end_clock_ms (q.end_clock_ms t) vs
          → ((us vs : List Ptr)
              → length us ≡ i
              → ((y : Ptr) → last us none ≡ some y → q.links.prev p ≡ y)
              → Rep q.active_list q.links (us ++ vs)
              → Fresh q.active_list (us ++ vs) t
              → Late q.end_clock_ms (q.end_clock_ms t) vs
              → Placed q t (us ++ vs) (insert_from i (q.links.prev p) t q))
          → Placed q t (us ++ vs) (insert_from (suc i) p t q)
      by_last _ nothing n at r f l rec = absurd (omega arith)
      by_last _ (ends us u) n at r f l rec =
          let is_u : p ≡ u = at u (last-append us (u ∷ []) none) in
          let cut = append_assoc us (u ∷ []) vs in
          let r2 = subst (Rep q.active_list q.links) cut r in
          let f2 = subst (λ xs. Fresh q.active_list xs t) cut f in
          if_intro (Placed q t ((us ++ u ∷ []) ++ vs)) (ltb (q.end_clock_ms p) (q.end_clock_ms t))
            (λ yes. record {
              before = us ++ u ∷ [];
              after = vs;
              whole = refl;
              now = insert_after p t q.active_list q.links;
              result = refl;
              becomes =
                  subst
                    (λ x.
                      Becomes q.active_list.head q.links ((us ++ u ∷ []) ++ t ∷ vs)
                        ((us ++ u ∷ []) ++ t ∷ vs) (insert_after x t q.active_list q.links))
                    (sym is_u)
                    (subst
                      (λ xs.
                        Becomes q.active_list.head q.links xs xs
                          (insert_after u t q.active_list q.links))
                      (sym (append_assoc us (u ∷ []) (t ∷ vs))) (insert_after_lem u t us vs r2 f2));
              early = λ y e.
                  subst (λ x. q.end_clock_ms x < q.end_clock_ms t) (at y e)
                    (ltb→lt (q.end_clock_ms p) (q.end_clock_ms t) yes);
              late = l;
            })
            (λ no.
              subst (λ xs. Placed q t xs (insert_from i (q.links.prev p) t q)) (sym cut)
                (rec us (u ∷ vs) (omega (arith, length-append us (u ∷ [])))
                  (λ y e.
                    ap q.links.prev is_u
                    ∙ (cut_right q.links none us (u ∷ vs) none r2.linked).0
                    ∙ ap (λ o. or_self o u) e)
                  r2 f2
                  (
                    subst (λ x. q.end_clock_ms t ≤ q.end_clock_ms x) is_u
                        (ltb→le (q.end_clock_ms p) (q.end_clock_ms t) no),
                    l,
                  )))

  -- The active list is empty, or the loop starts at its last timer.
  pub insert_active-Placed :
      (xs : List Ptr)
      → Rep q.active_list q.links xs
      → Fresh q.active_list xs t
      → Placed q t xs (insert_active t q)
  unfolding insert_active
  insert_active-Placed xs r f =
      if_intro (Placed q t xs) (empty q.active_list)
        (λ none_in.
          subst (λ ys. Placed q t ys (on_active (push_back t) q))
            (sym (eq_nil xs (ground (arith, r.size))))
            (alone (subst (Rep q.active_list q.links) (eq_nil xs (ground (arith, r.size))) r)
              (subst (λ ys. Fresh q.active_list ys t) (eq_nil xs (ground (arith, r.size))) f)))
        (λ some_in.
          subst
            (λ ys. Placed q t ys (insert_from q.active_list.size (back q.active_list q.links) t q))
            (append-nil xs)
            (insert_from-Placed q.active_list.size (back q.active_list q.links) xs [] (sym r.size)
              (λ y e. r.head_prev ∙ ap (λ o. or_self o q.active_list.head) e)
              (subst (Rep q.active_list q.links) (sym (append-nil xs)) r)
              (subst (λ ys. Fresh q.active_list ys t) (sym (append-nil xs)) f) tt))
    where
      alone :
          Rep q.active_list q.links []
          → Fresh q.active_list [] t
          → Placed q t [] (on_active (push_back t) q)
      alone r f = record {
        before = [];
        after = [];
        whole = refl;
        now = push_back t q.active_list q.links;
        result = refl;
        becomes = push_back_lem t [] r f;
        early = λ y e. absurd (cc e);
        late = tt;
      }

  all-Early :
      (us vs : List Ptr)
      → Sorted q.end_clock_ms (us ++ vs)
      → ((y : Ptr) → last us none ≡ some y → q.end_clock_ms y < q.end_clock_ms t)
      → Early q.end_clock_ms (q.end_clock_ms t) us
  all-Early [] vs s e = tt
  all-Early (u ∷ us) vs s e =
      Early-of_last q.end_clock_ms (q.end_clock_ms t) u us
        (Sorted-left q.end_clock_ms (u ∷ us) vs s) e

  pub by_time-Placed :
      (xs : List Ptr) (q' : SedaTimerQueue)
      → Sorted q.end_clock_ms xs
      → (i : Placed q t xs q') → by_time q.end_clock_ms t xs ≡ i.before ++ t ∷ i.after
  by_time-Placed xs q' s i =
      ap (by_time q.end_clock_ms t) (sym i.whole)
      ∙ by_time-append q.end_clock_ms t i.before i.after
          (all-Early i.before i.after (subst (Sorted q.end_clock_ms) (sym i.whole) s) i.early)
          i.late
