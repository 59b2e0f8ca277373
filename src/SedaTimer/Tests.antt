-- ===== src/SedaTimer/Tests.antt =====
-- Runs of a timer queue with three timers, and the witnesses of the laws.
use zrsocket.Base.{
  ◌+◌, ◌%◌, ◌^◌, ◌<◌, ◌≡◌, ◌⊎◌, refl, ℤ, pos, negsuc, Bool, true, false, none, some, List, [], ◌∷◌,
  ◌++◌, if◌then◌else◌, arith,
}
use zrsocket.TimerList
use zrsocket.TimerList.{Ptr, Links, push_back}
use zrsocket.TimerList.Chain.{has}
use zrsocket.SedaTimer.{
  SedaTimerQueue, init, set_timer, insert_active, arm, init_timer, fill, clear, cancel_timer,
  update_timer, expire,
}
use zrsocket.SedaTimer.ByTime.{by_time}
use zrsocket.SedaTimer.Arm.{Timers, Took, Armed, set_timer-Took, set_timer_lem}
use zrsocket.SedaTimer.Cancel.{cancel_timer_lem, update_timer_lem}
use zrsocket.SedaTimer.Due.{Tells}
use zrsocket.SedaTimer.Expire.{Modest, Expired, expire_lem}
use zrsocket.SedaTimer.Init.{init-Timers}
use zrsocket.SedaTimer.Lru.{SedaLruTimerQueue, lru_set_timer}
use zrsocket.SedaTimer.Lru.Laws.{lru_set_timer_lem}

abbrev blank : SedaTimerQueue
blank = record {
  links = record { prev = λ p. p; next = λ p. p };
  param = λ p. 0;
  end_clock_ms = λ p. 0;
  interval_ms = λ p. 0;
  is_active = λ p. false;
  free_list = record { head = 0; size = 0 };
  active_list = record { head = 1; size = 0 };
  last_clock_ms = 0;
  queue_max_size = 0;
  stage_handler = false;
}

-- Three timers, at 10, 11 and 12.
abbrev three : SedaTimerQueue
three = init 10 3 false blank

abbrev trio : List Ptr
trio = 10 ∷ 11 ∷ 12 ∷ []

-- The first of them armed at 100 for 5.
abbrev one_armed : SedaTimerQueue
one_armed = (set_timer 100 5 7 three).0

one_armed_zero : one_armed.last_clock_ms ≡ 0
unfolding set_timer insert_active arm init_timer init fill clear push_back TimerList.init
one_armed_zero = refl

one_armed_clock : one_armed.last_clock_ms < 105
one_armed_clock = omega (arith, one_armed_zero)

-- A handler that writes down the timer.
abbrev noted : Ptr → SedaTimerQueue × List Ptr → SedaTimerQueue × List Ptr
noted t (q, told) = (q, t ∷ told)

abbrev noted_event : ℤ → Ptr → SedaTimerQueue × List Ptr → SedaTimerQueue × List Ptr
noted_event slot t (q, told) = (q, t ∷ told)

init-Timers_example : Timers three [] (10 ∷ 11 ∷ 12 ∷ [])
init-Timers_example =
    init-Timers 10 3 false blank refl (λ y lo hi. (ground arith, ground arith)) (omega arith)

three-Timers : Timers three [] (10 ∷ 11 ∷ 12 ∷ [])
three-Timers =
    init-Timers 10 3 false blank refl (λ y lo hi. (ground arith, ground arith)) (omega arith)

set_timer_lem_example :
    ((trio ≡ []) × (set_timer 100 5 7 three ≡ (three, none)))
    ⊎ ((t : Ptr) × (free : List Ptr) × (trio ≡ t ∷ free)
        × Took three 100 5 7 t [] free (set_timer 100 5 7 three))
set_timer_lem_example = set_timer_lem three [] (10 ∷ 11 ∷ 12 ∷ []) 100 5 7 three-Timers

one_armed-Timers : Timers one_armed (10 ∷ []) (11 ∷ 12 ∷ [])
unfolding by_time
one_armed-Timers = (set_timer-Took three 10 [] (11 ∷ 12 ∷ []) 100 5 7 three-Timers).armed.timers

cancel_timer_lem_example :
    ((cancel_timer (some 10) one_armed).1 ≡ pos 0)
    × Timers (cancel_timer (some 10) one_armed).0 [] (10 ∷ 11 ∷ 12 ∷ [])
    × ((y : Ptr)
        → has y [] ≡ true
        → (cancel_timer (some 10) one_armed).0.end_clock_ms y ≡ one_armed.end_clock_ms y)
cancel_timer_lem_example = cancel_timer_lem one_armed 10 [] [] (11 ∷ 12 ∷ []) one_armed-Timers

update_timer_lem_example :
    ((update_timer 103 (some 10) one_armed).1 ≡ pos 0)
    × Armed one_armed (update_timer 103 (some 10) one_armed).0 10 (103 % 2 ^ 64) [] (11 ∷ 12 ∷ [])
    × ((update_timer 103 (some 10) one_armed).0.interval_ms 10 ≡ 0)
update_timer_lem_example = update_timer_lem one_armed 10 [] [] (11 ∷ 12 ∷ []) one_armed-Timers 103

noted-Modest : (b : Bool) (slot : ℤ) → Modest (if b then noted_event slot else noted) 105
noted-Modest true slot t q a xs ys T = (xs, ys, T, refl)
noted-Modest false slot t q a xs ys T = (xs, ys, T, refl)

expire_lem_example :
    (ts : List Ptr) × Tells 105 one_armed (10 ∷ []) ts
    × Expired
        (if one_armed.stage_handler then noted_event (negsuc 0) else noted)
        105
        (record one_armed { last_clock_ms = 105 }, [])
        ts
        (expire noted_event noted 2 105 (one_armed, []))
expire_lem_example =
    expire_lem noted_event noted 2 105 one_armed [] (10 ∷ []) (11 ∷ 12 ∷ [])
      (noted-Modest one_armed.stage_handler (negsuc 0)) one_armed-Timers one_armed_clock
      (omega arith)

abbrev lru : SedaLruTimerQueue
lru = record { queue = three; interval_ms = 30; slot = pos 2 }

lru_set_timer_lem_example :
    ((trio ≡ []) × (lru_set_timer 100 5 7 lru ≡ (lru, none)))
    ⊎ ((t : Ptr) × (free : List Ptr) × (trio ≡ t ∷ free)
        × ((lru_set_timer 100 5 7 lru).1 ≡ some t)
        × Timers (lru_set_timer 100 5 7 lru).0.queue ([] ++ t ∷ []) free
        × ((lru_set_timer 100 5 7 lru).0.queue.end_clock_ms t ≡ (100 + 30) % 2 ^ 64))
lru_set_timer_lem_example = lru_set_timer_lem lru [] (10 ∷ 11 ∷ 12 ∷ []) 100 5 7 three-Timers tt
