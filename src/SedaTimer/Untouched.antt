-- ===== src/SedaTimer/Untouched.antt =====
-- Timers that an operation of a SedaTimerQueue leaves as they are.
use zrsocket.Base.{ℕ, ◌≡◌, false, ◌==◌, arith}
use zrsocket.TimerList.{Ptr, Links, TimerList}
use zrsocket.SedaTimer.{SedaTimerQueue, init_timer, arm, on_free}

-- What the queue says of the timer y has not changed, apart from its place in a list.
pub record Untouched (q q' : SedaTimerQueue) (y : Ptr) : Type 0 where
  pub same_end : q'.end_clock_ms y ≡ q.end_clock_ms y
  pub same_interval : q'.interval_ms y ≡ q.interval_ms y
  pub same_param : q'.param y ≡ q.param y
  pub same_active : q'.is_active y ≡ q.is_active y

pub arm-Untouched :
    (q : SedaTimerQueue) (t y now iv pm : ℕ) → (y == t) ≡ false → Untouched q (arm now iv pm t q) y
unfolding arm init_timer
arm-Untouched q t y now iv pm ne = record {
  same_end = ground (arith, ne);
  same_interval = ground (arith, ne);
  same_param = ground (arith, ne);
  same_active = ground (arith, ne);
}

pub Untouched-on_free :
    (q q' : SedaTimerQueue) (y : Ptr) (f : TimerList → Links → TimerList × Links)
    → Untouched (on_free f q) q' y
    → Untouched q q' y
Untouched-on_free q q' y f u = record {
  same_end = u.same_end;
  same_interval = u.same_interval;
  same_param = u.same_param;
  same_active = u.same_active;
}
