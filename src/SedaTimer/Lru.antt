-- ===== src/SedaTimer/Lru.antt =====
-- src/seda_timer_queue.cpp: SedaLRUTimerQueue, whose timers all have one interval. It keeps what a
-- SedaTimerQueue keeps, and its interval and slot. Its cancel_timer and the loops of init, clear and
-- expire have the code of SedaTimerQueue.
pub mod Laws
use mathlib.Core.Option
use zrsocket.Base.{
  ℕ, ◌+◌, ◌%◌, ◌^◌, ℤ, pos, negsuc, Bool, true, false, not, Option, none, some, ltb, if◌then◌else◌,
}
use zrsocket.TimerList.{Ptr, push_front, push_back, pop_front, front, empty}
use zrsocket.SedaTimer.{
  SedaTimerQueue, on_active, on_free, init, cancel_timer, arm, rearm, remove_active, expire_loop,
}

pub record SedaLruTimerQueue : Type 0 where
  pub queue : SedaTimerQueue
  pub interval_ms : ℕ
  pub slot : ℤ

unfoldable pub lru_init :
    (pool queue_max_size interval_ms : ℕ) (stage_handler : Bool) (slot : ℤ)
    → SedaLruTimerQueue
    → SedaLruTimerQueue
lru_init pool n interval_ms handler slot l = record {
  queue = init pool n handler l.queue;
  interval_ms = interval_ms;
  slot = slot;
}

-- The interval asked for is not used.
unfoldable pub lru_set_timer :
    (now asked param : ℕ) → SedaLruTimerQueue → SedaLruTimerQueue × Option Ptr
lru_set_timer now asked param l =
    let q = l.queue in
    let timer = front q.free_list q.links in
    if not (empty q.free_list)
    then (
      record l {
        queue =
            on_active (push_back timer) (arm now l.interval_ms param timer (on_free pop_front q));
      },
      some timer,
    )
    else (l, none)

unfoldable pub lru_cancel_timer : Option Ptr → SedaLruTimerQueue → SedaLruTimerQueue × ℤ
lru_cancel_timer timer l = let r = cancel_timer timer l.queue in (record l { queue = r.0 }, r.1)

unfoldable pub lru_update_timer : (now : ℕ) → Option Ptr → SedaLruTimerQueue → SedaLruTimerQueue × ℤ
lru_update_timer now none l = (l, pos 0)
lru_update_timer now (some timer) l = if not (l.queue.is_active timer) then (l, negsuc 0) else (
  record l { queue = on_active (push_back timer) (rearm now timer (remove_active timer l.queue)) },
  pos 0,
)

module _ {A : Type 0} where
  unfoldable pub lru_expire :
      (handle_event : ℤ → Ptr → SedaTimerQueue × A → SedaTimerQueue × A)
      (timeout : Ptr → SedaTimerQueue × A → SedaTimerQueue × A)
      → ℕ
      → (current_clock_ms : ℕ) → SedaLruTimerQueue × A
      → Option (SedaLruTimerQueue × A)
  lru_expire handle_event timeout fuel now (l, a) =
      let fire = if l.queue.stage_handler then handle_event l.slot else timeout in
      if ltb l.queue.last_clock_ms now
      then Option.map (λ s. (record l { queue = s.0 }, s.1))
          (expire_loop fuel fire now (record l.queue { last_clock_ms = now }, a))
      else some (l, a)
