-- ===== src/TimerList/Detach.antt =====
-- SedaTimerList::remove, assignment by assignment.
use zrsocket.Base.{◌≡◌, false, ◌&&◌, ◌==◌, if◌then◌else◌, arith}
use zrsocket.TimerList.{
  Ptr, Links, TimerList, alone_node, shrink, detach, off_front, off_back, remove,
}
use zrsocket.TimerList.Model.{Removed, link_to}
use zrsocket.TimerList.Steps.{Emptied}

-- t stands between p and q.
pub record Between (l : TimerList) (h : Links) (p t q : Ptr) : Type 0 where
  pub some_in : (l.size == 0) ≡ false
  pub t_head : (t == l.head) ≡ false
  pub t_p : (t == p) ≡ false
  pub t_q : (t == q) ≡ false
  pub p_q : (p == q) ≡ ((p == l.head) && (q == l.head))
  pub to_p : h.prev t ≡ link_to l.head p t
  pub to_q : h.next t ≡ link_to l.head q t
  pub at_front : (t == h.next l.head) ≡ (p == l.head)
  pub at_back : (t == h.prev l.head) ≡ (q == l.head)

-- What the links are while t is taken off: those of `head_`, `next_` of p and `prev_` of q.
record Stage (h : Links) (head p t q head_next head_prev p_next q_prev : Ptr) (h' : Links)
    : Type 0 where
  next_t : h'.next t ≡ link_to head q t
  prev_t : h'.prev t ≡ link_to head p t
  next_head : h'.next head ≡ head_next
  prev_head : h'.prev head ≡ head_prev
  next_p : (p == head) ≡ false → h'.next p ≡ p_next
  prev_q : (q == head) ≡ false → h'.prev q ≡ q_prev
  next_other :
      (y : Ptr) → (y == p) ≡ false → (y == t) ≡ false → (y == head) ≡ false → h'.next y ≡ h.next y
  prev_other :
      (y : Ptr) → (y == q) ≡ false → (y == t) ≡ false → (y == head) ≡ false → h'.prev y ≡ h.prev y

module _ (l : TimerList) (h : Links) (p t q : Ptr) (b : Between l h p t q) where
  detach-Stage :
      Stage h l.head p t q
        (h.next l.head)
        (h.prev l.head)
        (link_to l.head q t)
        (link_to l.head p t)
        (detach t h)
  unfolding detach
  detach-Stage = record {
    next_t = ground arith;
    prev_t = ground arith;
    next_head = ground arith;
    prev_head = ground arith;
    next_p = λ e. ground arith;
    prev_q = λ e. ground arith;
    next_other = λ y a b c. ground (arith, to_p);
    prev_other = λ y a b c. ground (arith, to_p, to_q);
  }
    where
      open b use {t_head, t_p, t_q, p_q, to_p, to_q}

  abbrev front_now : Ptr
  front_now = if p == l.head then link_to l.head q t else h.next l.head

  abbrev back_now : Ptr
  back_now = if q == l.head then link_to l.head p t else h.prev l.head

  off_front-Stage :
      (h2 : Links)
      → Stage h l.head p t q
          (h.next l.head)
          (h.prev l.head)
          (link_to l.head q t)
          (link_to l.head p t)
          h2
      → Stage h l.head p t q front_now
          (h.prev l.head)
          (link_to l.head q t)
          (link_to l.head p q)
          (off_front t l h2)
  unfolding off_front
  off_front-Stage h2 s = record {
    next_t = ground arith;
    prev_t = ground arith;
    next_head = ground arith;
    prev_head = ground arith;
    next_p = λ e. ground arith;
    prev_q = λ e. ground arith;
    next_other = λ y a b c. ground (arith, s.next_other y);
    prev_other = λ y a b c. ground (arith, s.prev_other y);
  }
    where
      open b use {t_head, t_p, t_q, p_q, at_front}
      open s use {next_t, prev_t, next_head, prev_head, next_p, prev_q}

  off_back-Stage :
      (h3 : Links)
      → Stage h l.head p t q front_now (h.prev l.head) (link_to l.head q t) (link_to l.head p q) h3
      → Stage h l.head p t q front_now back_now
          (link_to l.head q p)
          (link_to l.head p q)
          (off_back t l h3)
  unfolding off_back
  off_back-Stage h3 s = record {
    next_t = ground arith;
    prev_t = ground arith;
    next_head = ground arith;
    prev_head = ground arith;
    next_p = λ e. ground arith;
    prev_q = λ e. ground arith;
    next_other = λ y a b c. ground (arith, s.next_other y);
    prev_other = λ y a b c. ground (arith, s.prev_other y);
  }
    where
      open b use {t_head, t_p, t_q, p_q, at_back}
      open s use {next_t, prev_t, next_head, prev_head, next_p, prev_q}

  shrink-Removed :
      (h4 : Links)
      → Stage h l.head p t q front_now back_now (link_to l.head q p) (link_to l.head p q) h4
      → Emptied l p q
      → Removed h (alone_node t (shrink l h4).1) l.head p t q
  unfolding shrink
  shrink-Removed h4 s last = record {
    next_p = ground arith;
    prev_q = ground arith;
    around = record {
      prev_other = λ y a b. ground (arith, s.prev_other y);
      next_other = λ y a b. ground (arith, s.next_other y);
    };
  }
    where
      open b use {t_head, t_p, t_q, p_q}
      open s use {next_head, prev_head, next_p, prev_q}

  pub remove-Removed : Emptied l p q → Removed h (remove t l h).1 l.head p t q
  unfolding remove
  remove-Removed last = rw b.some_in (
      shrink-Removed (off_back t l (off_front t l (detach t h)))
        (off_back-Stage (off_front t l (detach t h)) (off_front-Stage (detach t h) detach-Stage))
        last)
