-- ===== src/SedaTimer.antt =====
-- src/seda_timer_queue.cpp, include/zrsocket/seda_timer_queue.h and seda_timer.h: SedaTimerQueue.
-- The fields of all timers are functions on pointers. What `OSApi::timestamp_ms()` returns is an
-- argument, and so is what `handle_event` or `timeout` does, which may use the queue.
pub mod Lists
pub mod Init
pub mod ByTime
pub mod Insert
pub mod Untouched
pub mod Arm
pub mod Cancel
pub mod Due
pub mod Expire
pub mod Lru
mod Tests
use zrsocket.Base.{
  ℕ, zero, suc, ◌+◌, ◌%◌, ◌^◌, ℤ, pos, negsuc, Bool, true, false, not, Option, none, some, ltb, leb,
  ◌==◌, if◌then◌else◌,
}
use zrsocket.TimerList
use zrsocket.TimerList.{
  Ptr, Links, TimerList, store, alone_node, push_front, push_back, pop_front, insert_after, remove,
  front, back, empty,
}

pub record SedaTimerQueue : Type 0 where
  pub links : Links
  pub param : Ptr → ℕ
  pub end_clock_ms : Ptr → ℕ
  pub interval_ms : Ptr → ℕ
  pub is_active : Ptr → Bool
  pub free_list : TimerList
  pub active_list : TimerList
  pub last_clock_ms : ℕ
  pub queue_max_size : ℕ
  pub stage_handler : Bool

abbrev pub store_flag : (Ptr → Bool) → Ptr → Bool → Ptr → Bool
store_flag f p v a = if a == p then v else f a

-- SedaTimer::init()
unfoldable pub init_timer : Ptr → SedaTimerQueue → SedaTimerQueue
init_timer t q = record q {
  links = alone_node t q.links;
  param = store q.param t 0;
  end_clock_ms = store q.end_clock_ms t 0;
  interval_ms = store q.interval_ms t 0;
  is_active = store_flag q.is_active t false;
}

-- A call on one of the two lists.
abbrev pub on_active : (TimerList → Links → TimerList × Links) → SedaTimerQueue → SedaTimerQueue
on_active f q = let s = f q.active_list q.links in record q { active_list = s.0; links = s.1 }

abbrev pub on_free : (TimerList → Links → TimerList × Links) → SedaTimerQueue → SedaTimerQueue
on_free f q = let s = f q.free_list q.links in record q { free_list = s.0; links = s.1 }

unfoldable pub clear : SedaTimerQueue → SedaTimerQueue
clear q =
    let q1 = on_active TimerList.init (on_free TimerList.init q) in
    record q1 { last_clock_ms = 0; queue_max_size = 0; stage_handler = false }

-- `new SedaTimer[n]` at p, and the loop that puts the timers into the free list.
unfoldable pub fill : ℕ → Ptr → SedaTimerQueue → SedaTimerQueue
fill zero p q = q
fill (suc n) p q = fill n (suc p) (on_free (push_back p) (init_timer p q))

unfoldable pub init :
    (pool queue_max_size : ℕ) (stage_handler : Bool) → SedaTimerQueue → SedaTimerQueue
init pool n handler q = record (fill n pool (clear q)) { stage_handler = handler }

-- The loop over the active list, from its back; the first argument is how many rounds are left.
unfoldable pub insert_from : ℕ → Ptr → Ptr → SedaTimerQueue → SedaTimerQueue
insert_from zero p timer q = on_active (push_front timer) q
insert_from (suc i) p timer q =
    let rest = insert_from i (q.links.prev p) timer q in
    if ltb (q.end_clock_ms p) (q.end_clock_ms timer)
    then on_active (insert_after p timer) q
    else rest

-- "insert to active_list_", in set_timer and in update_timer
unfoldable pub insert_active : Ptr → SedaTimerQueue → SedaTimerQueue
insert_active timer q =
    if empty q.active_list
    then on_active (push_back timer) q
    else insert_from q.active_list.size (back q.active_list q.links) timer q

-- What set_timer writes into the timer that it takes from the free list.
unfoldable pub arm : (now interval_ms param : ℕ) → Ptr → SedaTimerQueue → SedaTimerQueue
arm now interval_ms param t q0 =
    let q = init_timer t q0 in
    record q {
      param = store q.param t param;
      interval_ms = store q.interval_ms t interval_ms;
      end_clock_ms = store q.end_clock_ms t ((now + interval_ms) % 2 ^ 64);
      is_active = store_flag q.is_active t true;
    }

unfoldable pub set_timer :
    (now interval_ms param : ℕ) → SedaTimerQueue → SedaTimerQueue × Option Ptr
set_timer now interval_ms param q =
    if not (empty q.free_list)
    then (let timer = front q.free_list q.links in
        (insert_active timer (arm now interval_ms param timer (on_free pop_front q)), some timer))
    else (q, none)

-- active_list_.remove(timer), with the `timer->init()` at its end
abbrev pub remove_active : Ptr → SedaTimerQueue → SedaTimerQueue
remove_active t q = if empty q.active_list then q else init_timer t (on_active (remove t) q)

unfoldable pub cancel_timer : Option Ptr → SedaTimerQueue → SedaTimerQueue × ℤ
cancel_timer none q = (q, pos 0)
cancel_timer (some timer) q =
    if not (q.is_active timer)
    then (q, negsuc 0)
    else (on_free (push_front timer) (remove_active timer q), pos 0)

-- What update_timer writes into the timer that it has removed from the active list.
unfoldable pub rearm : (now : ℕ) → Ptr → SedaTimerQueue → SedaTimerQueue
rearm now t q = record q {
  end_clock_ms = store q.end_clock_ms t ((now + q.interval_ms t) % 2 ^ 64);
  is_active = store_flag q.is_active t true;
}

unfoldable pub update_timer : (now : ℕ) → Option Ptr → SedaTimerQueue → SedaTimerQueue × ℤ
update_timer now none q = (q, pos 0)
update_timer now (some timer) q =
    if not (q.is_active timer)
    then (q, negsuc 0)
    else (insert_active timer (rearm now timer (remove_active timer q)), pos 0)

module _ {A : Type 0} where
  -- The `while` of expire, on fuel; `fire` is what it calls for a timer that is due.
  unfoldable pub expire_loop :
      ℕ
      → (fire : Ptr → SedaTimerQueue × A → SedaTimerQueue × A) (current_clock_ms : ℕ)
      → SedaTimerQueue × A
      → Option (SedaTimerQueue × A)
  expire_loop zero fire now s = none
  expire_loop (suc fuel) fire now (q, a) =
      let timer = front q.active_list q.links in
      let rest =
        expire_loop fuel fire now
          (fire timer (on_free (push_front timer) (on_active pop_front q), a)) in
      if empty q.active_list
      then some (q, a)
      else (if leb (q.end_clock_ms timer) now then rest else some (q, a))

  -- A stage handler gets an event with slot -1 for each timer; without one the timer itself is told.
  unfoldable pub expire :
      (handle_event : ℤ → Ptr → SedaTimerQueue × A → SedaTimerQueue × A)
      (timeout : Ptr → SedaTimerQueue × A → SedaTimerQueue × A)
      → ℕ
      → (current_clock_ms : ℕ) → SedaTimerQueue × A
      → Option (SedaTimerQueue × A)
  expire handle_event timeout fuel now (q, a) =
      if ltb q.last_clock_ms now
      then expire_loop fuel (if q.stage_handler then handle_event (negsuc 0) else timeout) now
          (record q { last_clock_ms = now }, a)
      else some (q, a)
