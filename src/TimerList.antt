-- ===== src/TimerList.antt =====
-- include/zrsocket/seda_timer_queue.h: SedaTimerList, a list of timers linked through `prev_` and
-- `next_`; TimerList of include/zrsocket/timer.h has the same code. A pointer is a number, and the
-- links of all timers are two functions on pointers. The first timer is its own `prev_`, the last its
-- own `next_`; `head_` is a timer that is in no list.
pub mod Chain
pub mod Distinct
pub mod Model
pub mod Runs
pub mod Insert
pub mod Steps
pub mod Detach
pub mod Place
pub mod Remove
pub mod Ops
pub mod Refines
mod Tests
use zrsocket.Base.{ℕ, Bool, true, false, ◌==◌, ltb, if◌then◌else◌, add32, sub32}

abbrev pub Ptr : Type 0
Ptr = ℕ

abbrev pub store : (Ptr → Ptr) → Ptr → Ptr → Ptr → Ptr
store f p v a = if a == p then v else f a

pub record Links : Type 0 where
  pub prev : Ptr → Ptr
  pub next : Ptr → Ptr

-- p->prev_ = q
abbrev pub set_prev : Ptr → Ptr → Links → Links
set_prev p q h = record h { prev = store h.prev p q }

-- p->next_ = q
abbrev pub set_next : Ptr → Ptr → Links → Links
set_next p q h = record h { next = store h.next p q }

-- prev_ = this; next_ = this
abbrev pub alone_node : Ptr → Links → Links
alone_node p h = set_next p p (set_prev p p h)

-- The address of `head_`, and `size_`.
pub record TimerList : Type 0 where
  pub head : Ptr
  pub size : ℕ

-- head_.alone()
abbrev pub alone : TimerList → Links → Bool
alone l h = h.next l.head == l.head

unfoldable pub init : TimerList → Links → TimerList × Links
init l h = (record l { size = 0 }, alone_node l.head h)

unfoldable pub push_front : Ptr → TimerList → Links → TimerList × Links
push_front t l h =
    let h1 = set_prev t t h in
    let h2 =
      if alone l h1
      then set_prev l.head t (set_next t t h1)
      else (let h3 = set_next t (h1.next l.head) h1 in set_prev (h3.next l.head) t h3) in
    (record l { size = add32 l.size 1 }, set_next l.head t h2)

unfoldable pub push_back : Ptr → TimerList → Links → TimerList × Links
push_back t l h =
    let h1 = set_next t t h in
    let h2 =
      if alone l h1
      then set_next l.head t (set_prev t t h1)
      else (let h3 = set_prev t (h1.prev l.head) h1 in set_next (h3.prev l.head) t h3) in
    (record l { size = add32 l.size 1 }, set_prev l.head t h2)

-- if (--size_ == 0) { head_.init(); }
unfoldable pub shrink : TimerList → Links → TimerList × Links
shrink l h =
    let size = sub32 l.size 1 in
    (record l { size = size }, if size == 0 then alone_node l.head h else h)

unfoldable pub pop_front : TimerList → Links → TimerList × Links
pop_front l h =
    let h1 = set_next l.head (h.next (h.next l.head)) h in
    if alone l h then (l, h) else shrink l (set_prev (h1.next l.head) (h1.next l.head) h1)

unfoldable pub pop_back : TimerList → Links → TimerList × Links
pop_back l h =
    let h1 = set_prev l.head (h.prev (h.prev l.head)) h in
    if alone l h then (l, h) else shrink l (set_next (h1.prev l.head) (h1.prev l.head) h1)

unfoldable pub insert_before : (pos t : Ptr) → TimerList → Links → TimerList × Links
insert_before pos t l h =
    let h1 = set_prev t (h.prev pos) (set_next t pos h) in
    let h2 = if pos == h1.prev pos then h1 else set_next (h1.prev pos) t h1 in
    let h3 = set_prev pos t h2 in
    let h4 = if pos == h3.next l.head then set_prev t t (set_next l.head t h3) else h3 in
    (record l { size = add32 l.size 1 }, h4)

unfoldable pub insert_after : (pos t : Ptr) → TimerList → Links → TimerList × Links
insert_after pos t l h =
    let h1 = set_prev t pos (set_next t (h.next pos) h) in
    let h2 = if pos == h1.next pos then h1 else set_prev (h1.next pos) t h1 in
    let h3 = set_next pos t h2 in
    let h4 = if pos == h3.prev l.head then set_next t t (set_prev l.head t h3) else h3 in
    (record l { size = add32 l.size 1 }, h4)

-- timer->prev_->next_ = timer->next_; timer->next_->prev_ = timer->prev_
unfoldable pub detach : Ptr → Links → Links
detach t h = let h1 = set_next (h.prev t) (h.next t) h in set_prev (h1.next t) (h1.prev t) h1

-- The two conditionals of `remove`, for the first timer and for the last.
unfoldable pub off_front : Ptr → TimerList → Links → Links
off_front t l h =
    let h1 = set_next l.head (h.next t) h in
    if t == h.next l.head then set_prev (h1.next l.head) (h1.next l.head) h1 else h

unfoldable pub off_back : Ptr → TimerList → Links → Links
off_back t l h =
    let h1 = set_prev l.head (h.prev t) h in
    if t == h.prev l.head then set_next (h1.prev l.head) (h1.prev l.head) h1 else h

-- Of `timer->init()`, the last line of `remove`, this has the part that resets the links.
unfoldable pub remove : Ptr → TimerList → Links → TimerList × Links
remove t l h =
    let done = shrink l (off_back t l (off_front t l (detach t h))) in
    if l.size == 0 then (l, h) else (done.0, alone_node t done.1)

abbrev pub front : TimerList → Links → Ptr
front l h = h.next l.head

abbrev pub back : TimerList → Links → Ptr
back l h = h.prev l.head

abbrev pub empty : TimerList → Bool
empty l = l.size == 0
