-- ===== src/TimerList/Model.antt =====
-- What the links of a timer list stand for: the pointers of its timers, in order; and what it is for
-- a timer to come in between two neighbours, and to leave. A neighbour that is missing is `head_`.
use zrsocket.Base.{suc, ◌<◌, ◌^◌, ◌≡◌, true, false, none, List, length, ◌==◌, if◌then◌else◌}
use zrsocket.TimerList.{Ptr, Links, TimerList}
use zrsocket.TimerList.Chain.{has, distinct, or_self, first, last, Linked}

pub record Rep (l : TimerList) (h : Links) (xs : List Ptr) : Type 0 where
  pub linked : Linked h none xs none
  pub head_next : h.next l.head ≡ or_self (first xs none) l.head
  pub head_prev : h.prev l.head ≡ or_self (last xs none) l.head
  pub size : l.size ≡ length xs
  pub outside : has l.head xs ≡ false
  pub once : distinct xs ≡ true
  pub small : length xs < 2 ^ 32

-- A timer that can come into the list.
pub record Fresh (l : TimerList) (xs : List Ptr) (t : Ptr) : Type 0 where
  pub not_in : has t xs ≡ false
  pub not_head : (t == l.head) ≡ false
  pub room : suc (length xs) < 2 ^ 32

-- The value of a link of x to its neighbour p: `head_` is no neighbour.
abbrev pub link_to : (head p x : Ptr) → Ptr
link_to head p x = if p == head then x else p

-- Nothing changes but the links of t, the `next_` of p and the `prev_` of q.
pub record Around (h h' : Links) (p t q : Ptr) : Type 0 where
  pub prev_other : (y : Ptr) → (y == q) ≡ false → (y == t) ≡ false → h'.prev y ≡ h.prev y
  pub next_other : (y : Ptr) → (y == p) ≡ false → (y == t) ≡ false → h'.next y ≡ h.next y

-- t has come in between p and q.
pub record Inserted (h h' : Links) (head p t q : Ptr) : Type 0 where
  pub prev_t : h'.prev t ≡ link_to head p t
  pub next_t : h'.next t ≡ link_to head q t
  pub next_p : h'.next p ≡ t
  pub prev_q : h'.prev q ≡ t
  pub around : Around h h' p t q

-- t has left from between p and q.
pub record Removed (h h' : Links) (head p t q : Ptr) : Type 0 where
  pub next_p : h'.next p ≡ link_to head q p
  pub prev_q : h'.prev q ≡ link_to head p q
  pub around : Around h h' p t q
