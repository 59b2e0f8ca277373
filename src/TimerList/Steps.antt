-- ===== src/TimerList/Steps.antt =====
-- Where each operation of SedaTimerList puts a timer in, and from where it takes one out.
use zrsocket.Base.{◌≡◌, false, ◌&&◌, ◌==◌, sub32, arith}
use zrsocket.TimerList.{
  Ptr, Links, TimerList, shrink, push_front, push_back, pop_front, pop_back, insert_before,
  insert_after,
}
use zrsocket.TimerList.Model.{Inserted, Removed, link_to}

module _ (l : TimerList) (h : Links) (t : Ptr) (t_head : (t == l.head) ≡ false) where
  pub push_front-Inserted :
      (t == h.next l.head) ≡ false → Inserted h (push_front t l h).1 l.head l.head t (h.next l.head)
  unfolding push_front
  push_front-Inserted ne = record {
    prev_t = ground arith;
    next_t = ground arith;
    next_p = ground arith;
    prev_q = ground arith;
    around = record { prev_other = λ y a b. ground arith; next_other = λ y a b. ground arith };
  }

  -- Both ways of an empty list to say so.
  pub push_back-Inserted :
      (t == h.prev l.head) ≡ false
      → (h.next l.head == l.head) ≡ (h.prev l.head == l.head)
      → Inserted h (push_back t l h).1 l.head (h.prev l.head) t l.head
  unfolding push_back
  push_back-Inserted ne both = record {
    prev_t = ground arith;
    next_t = ground arith;
    next_p = ground arith;
    prev_q = ground arith;
    around = record { prev_other = λ y a b. ground arith; next_other = λ y a b. ground arith };
  }

  module _ (pos : Ptr) (pos_head : (pos == l.head) ≡ false) (t_pos : (t == pos) ≡ false) where
    pub insert_after-Inserted :
        (q : Ptr)
        → h.next pos ≡ link_to l.head q pos
        → (q == pos) ≡ false
        → (t == q) ≡ false
        → (pos == h.prev l.head) ≡ (q == l.head)
        → Inserted h (insert_after pos t l h).1 l.head pos t q
    unfolding insert_after
    insert_after-Inserted q e q_pos t_q at_end = record {
      prev_t = ground arith;
      next_t = ground arith;
      next_p = ground arith;
      prev_q = ground arith;
      around = record { prev_other = λ y a b. ground arith; next_other = λ y a b. ground arith };
    }

    pub insert_before-Inserted :
        (p : Ptr)
        → h.prev pos ≡ link_to l.head p pos
        → (p == pos) ≡ false
        → (t == p) ≡ false
        → (pos == h.next l.head) ≡ (p == l.head)
        → Inserted h (insert_before pos t l h).1 l.head p t pos
    unfolding insert_before
    insert_before-Inserted p e p_pos t_p at_end = record {
      prev_t = ground arith;
      next_t = ground arith;
      next_p = ground arith;
      prev_q = ground arith;
      around = record { prev_other = λ y a b. ground arith; next_other = λ y a b. ground arith };
    }

-- The list is empty after --size_ exactly if the timer had no neighbour.
abbrev pub Emptied : TimerList → (p q : Ptr) → Type 0
Emptied l p q = (sub32 l.size 1 == 0) ≡ ((p == l.head) && (q == l.head))

module _ (l : TimerList) (h : Links) (t : Ptr) (t_head : (t == l.head) ≡ false) where
  pub pop_front-Removed :
      (q : Ptr)
      → h.next l.head ≡ t
      → h.next t ≡ link_to l.head q t
      → (t == q) ≡ false
      → Emptied l l.head q
      → Removed h (pop_front l h).1 l.head l.head t q
  unfolding pop_front shrink
  pop_front-Removed q at e t_q last = record {
    next_p = ground arith;
    prev_q = ground arith;
    around = record { prev_other = λ y a b. ground arith; next_other = λ y a b. ground arith };
  }

  pub pop_back-Removed :
      (p : Ptr)
      → h.prev l.head ≡ t
      → (h.next l.head == l.head) ≡ false
      → h.prev t ≡ link_to l.head p t
      → (t == p) ≡ false
      → Emptied l p l.head
      → Removed h (pop_back l h).1 l.head p t l.head
  unfolding pop_back shrink
  pop_back-Removed p at some_in e t_p last = record {
    next_p = ground arith;
    prev_q = ground arith;
    around = record { prev_other = λ y a b. ground arith; next_other = λ y a b. ground arith };
  }
