-- ===== src/SedaTimer/Cancel.antt =====
-- SedaTimerQueue: cancel_timer and update_timer, which take a timer out of the active list.
use zrsocket.Base.{
  ℕ, ◌%◌, ◌^◌, ◌≡◌, refl, ap, ◌∙◌, pos, true, false, some, List, [], ◌∷◌, ◌++◌, ◌==◌, arith,
}
use zrsocket.TimerList.{Ptr, push_front, remove}
use zrsocket.TimerList.Chain.{has}
use zrsocket.TimerList.Distinct.{apart, length-insert}
use zrsocket.TimerList.Ops.{push_front_lem, remove_lem}
use zrsocket.SedaTimer.{
  SedaTimerQueue, on_active, on_free, init_timer, rearm, insert_active, cancel_timer, update_timer,
}
use zrsocket.SedaTimer.ByTime.{Sorted, Sorted-without}
use zrsocket.SedaTimer.Insert.{insert_active-Placed}
use zrsocket.SedaTimer.Lists.{Two-swap, Out, Out-swap, Out-alone, leaves, comes, Out-Fresh}
use zrsocket.SedaTimer.Arm.{
  Running, Timers, Running-same, Sorted-same, Arrived, arrived, Armed, armed,
}
use zrsocket.SedaTimer.Untouched.{Untouched}

Running-without :
    (q : SedaTimerQueue) (t : Ptr) (us vs : List Ptr)
    → Running q (us ++ t ∷ vs)
    → Running q (us ++ vs)
Running-without q t [] vs (a, r) = r
Running-without q t (u ∷ us) vs (a, r) = (a, Running-without q t us vs r)

Running-at :
    (q : SedaTimerQueue) (t : Ptr) (us vs : List Ptr)
    → Running q (us ++ t ∷ vs)
    → q.is_active t ≡ true
Running-at q t [] vs (a, r) = a
Running-at q t (u ∷ us) vs (a, r) = Running-at q t us vs r

-- The queue without the timer t of its active list.
module _ (q : SedaTimerQueue) (t : Ptr) (us vs ys : List Ptr) (T : Timers q (us ++ t ∷ vs) ys) where
  abbrev without : SedaTimerQueue
  without = init_timer t (on_active (remove t) q)

  some_active : (q.active_list.size == 0) ≡ false
  some_active = ground (arith, T.lists.left.size, length-insert t us vs)

  without-Out : Out without.active_list without.free_list without.links (us ++ vs) ys t
  unfolding init_timer
  without-Out =
      Out-alone
        (leaves t us vs (remove t q.active_list q.links) T.lists (remove_lem t us vs T.lists.left))

  without-end : (y : Ptr) → has y (us ++ vs) ≡ true → without.end_clock_ms y ≡ q.end_clock_ms y
  unfolding init_timer
  without-end y i = let ne = apart y t (us ++ vs) i without-Out.not_left in ground (arith, ne)

  without-active : (y : Ptr) → has y (us ++ vs) ≡ true → without.is_active y ≡ q.is_active y
  unfolding init_timer
  without-active y i = let ne = apart y t (us ++ vs) i without-Out.not_left in ground (arith, ne)

  without-Running : Running without (us ++ vs)
  without-Running =
      Running-same q without (us ++ vs) without-active (Running-without q t us vs T.running)

  without-Sorted : Sorted without.end_clock_ms (us ++ vs)
  without-Sorted =
      Sorted-same q.end_clock_ms without.end_clock_ms (us ++ vs) without-end
        (Sorted-without q.end_clock_ms t us vs T.sorted)

  cancelled : Timers (on_free (push_front t) without) (us ++ vs) (t ∷ ys)
  cancelled = record {
    lists = Two-swap (
        comes t [] ys (push_front t without.free_list without.links) (Out-swap without-Out)
          (push_front_lem t ys without-Out.two.right (Out-Fresh (Out-swap without-Out))));
    running = without-Running;
    sorted = without-Sorted;
  }

  -- cancel_timer on a timer that runs returns 0; the timer leaves the active list, whose order stays,
  -- and is the first of the free list.
  pub cancel_timer_lem :
      ((cancel_timer (some t) q).1 ≡ pos 0)
      × Timers (cancel_timer (some t) q).0 (us ++ vs) (t ∷ ys)
      × ((y : Ptr)
          → has y (us ++ vs) ≡ true
          → (cancel_timer (some t) q).0.end_clock_ms y ≡ q.end_clock_ms y)
  unfolding cancel_timer
  cancel_timer_lem = rw (Running-at q t us vs T.running, some_active) (refl, cancelled, without-end)

  abbrev again : ℕ → SedaTimerQueue
  again now = rearm now t without

  again-Out :
      (now : ℕ)
      → Out (again now).active_list (again now).free_list (again now).links (us ++ vs) ys t
  unfolding rearm
  again-Out now = without-Out

  again-end : (now y : ℕ) → has y (us ++ vs) ≡ true → (again now).end_clock_ms y ≡ q.end_clock_ms y
  unfolding rearm
  again-end now y i =
      let ne = apart y t (us ++ vs) i without-Out.not_left in ground (arith, ne, without-end y)

  again-Untouched : (now y : ℕ) → (y == t) ≡ false → Untouched q (again now) y
  unfolding rearm init_timer
  again-Untouched now y ne = record {
    same_end = ground (arith, ne);
    same_interval = ground (arith, ne);
    same_param = ground (arith, ne);
    same_active = ground (arith, ne);
  }

  again-active : (now y : ℕ) → has y (us ++ vs) ≡ true → (again now).is_active y ≡ q.is_active y
  unfolding rearm
  again-active now y i =
      let ne = apart y t (us ++ vs) i without-Out.not_left in ground (arith, ne, without-active y)

  again_self :
      (now : ℕ)
      → ((again now).end_clock_ms t ≡ now % 2 ^ 64)
        × ((again now).interval_ms t ≡ 0)
        × ((again now).is_active t ≡ true)
  unfolding rearm init_timer
  again_self now = (ground arith, ground arith, ground arith)

  again-Arrived : (now : ℕ) → Arrived (again now) (insert_active t (again now)) t (us ++ vs) ys
  again-Arrived now =
      let o = again-Out now in
      let (at_t, at_iv, on) = again_self now in
      arrived (again now) t (us ++ vs) ys (insert_active t (again now))
        (insert_active-Placed (again now) t (us ++ vs) o.two.left (Out-Fresh o)) o on
        (Running-same q (again now) (us ++ vs) (again-active now)
          (Running-without q t us vs T.running))
        (Sorted-same q.end_clock_ms (again now).end_clock_ms (us ++ vs) (again-end now)
          (Sorted-without q.end_clock_ms t us vs T.sorted))

  -- update_timer on a timer that runs returns 0; the timer is then due at once, at `now` modulo 2^64,
  -- whatever its interval was, since removing it from the active list has set its interval to 0; it
  -- stands in the active list where its new time belongs, and the times, intervals, parameters and
  -- is_active_ of all other timers are as they were.
  pub update_timer_lem :
      (now : ℕ)
      → ((update_timer now (some t) q).1 ≡ pos 0)
        × Armed q (update_timer now (some t) q).0 t (now % 2 ^ 64) (us ++ vs) ys
        × ((update_timer now (some t) q).0.interval_ms t ≡ 0)
  unfolding update_timer
  update_timer_lem now =
      rw (Running-at q t us vs T.running, some_active)
        (
          refl,
          armed q (again now) (insert_active t (again now)) t (now % 2 ^ 64) (us ++ vs) ys
              (again-Arrived now) (again_self now).0 (again-Untouched now),
          ap (λ f. f t) (again-Arrived now).same_interval ∙ (again_self now).1,
        )
