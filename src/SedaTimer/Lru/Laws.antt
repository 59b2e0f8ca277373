-- ===== src/SedaTimer/Lru/Laws.antt =====
-- SedaLRUTimerQueue: the active list stays in the order of its times while the clock goes forward.
use mathlib.Core.Option
use zrsocket.Base.{
  ℕ, ◌+◌, ◌%◌, ◌≤◌, ◌<◌, ◌^◌, ◌≡◌, ◌⊎◌, inl, inr, refl, sym, ap, subst, ℤ, true, Option, none, some,
  List, [], ◌∷◌, ◌++◌, length, append-nil, lt→ltb, ◌==◌, if◌then◌else◌, All, All-append, arith,
}
use zrsocket.TimerList.{Ptr, pop_front, push_back}
use zrsocket.TimerList.Chain.{has}
use zrsocket.TimerList.Ops.{pop_front_lem, push_back_lem}
use zrsocket.SedaTimer.{SedaTimerQueue, on_active, on_free, arm, expire_loop}
use zrsocket.SedaTimer.ByTime.{Sorted}
use zrsocket.SedaTimer.Lists.{Two-swap, Out, Out-swap, Out-Fresh, leaves, comes, empty-cons}
use zrsocket.SedaTimer.Arm.{
  Running, Timers, Running-same, Sorted-same, arm-Out, arm-end, arm-active, arm_self,
}
use zrsocket.SedaTimer.Due.{due, length-due, Tells, due-Tells}
use zrsocket.SedaTimer.Expire.{Modest, Expired, expire_loop_lem}
use zrsocket.SedaTimer.Lru.{SedaLruTimerQueue, lru_set_timer, lru_expire}

-- All of xs are due at e or before.
abbrev pub By : (Ptr → ℕ) → ℕ → List Ptr → Type 0
By end e xs = All (λ y. end y ≤ e) xs

Sorted-behind :
    (end : Ptr → ℕ) (t : Ptr) (xs : List Ptr)
    → Sorted end xs
    → By end (end t) xs
    → Sorted end (xs ++ t ∷ [])
Sorted-behind end t [] s b = (tt, tt)
Sorted-behind end t (x ∷ xs) (l, s) (a, b) =
    (All-append (λ y. end x ≤ end y) xs (t ∷ []) l (a, tt), Sorted-behind end t xs s b)

By-same :
    (end end' : Ptr → ℕ) (e e' : ℕ) (xs : List Ptr)
    → e ≡ e'
    → ((y : Ptr) → has y xs ≡ true → end' y ≡ end y)
    → By end e xs
    → By end' e' xs
By-same end end' e e' [] h same b = tt
By-same end end' e e' (x ∷ xs) h same (a, b) = (
  omega (arith, a, h, same x (ground arith)),
  By-same end end' e e' xs h (λ y i. same y (ground arith)) b,
)

-- A running timer that is in no list has been put behind the active list.
behind :
    (q : SedaTimerQueue) (t : Ptr) (xs ys : List Ptr)
    → Out q.active_list q.free_list q.links xs ys t
    → q.is_active t ≡ true
    → Running q xs
    → Sorted q.end_clock_ms xs
    → By q.end_clock_ms (q.end_clock_ms t) xs
    → Timers (on_active (push_back t) q) (xs ++ t ∷ []) ys
behind q t xs ys o on run s b = record {
  lists =
      comes t xs [] (push_back t q.active_list q.links)
        (subst (λ zs. Out q.active_list q.free_list q.links zs ys t) (sym (append-nil xs)) o)
        (push_back_lem t xs o.two.left (Out-Fresh o));
  running = All-append (λ y. q.is_active y ≡ true) xs (t ∷ []) run (on, tt);
  sorted = Sorted-behind q.end_clock_ms t xs s b;
}

-- set_timer of the LRU queue with a free timer t returns it, running, due at now plus the queue's own
-- interval modulo 2^64, whatever interval is asked for; it is the last of the active list, which is in
-- the order of its times. For a clock that has not gone back: no active timer is due later than the
-- new one. Without a free timer it returns none and changes nothing.
pub lru_set_timer_lem :
    (l : SedaLruTimerQueue) (xs ys : List Ptr) (now asked pm : ℕ)
    → Timers l.queue xs ys
    → By l.queue.end_clock_ms ((now + l.interval_ms) % 2 ^ 64) xs
    → ((ys ≡ []) × (lru_set_timer now asked pm l ≡ (l, none)))
      ⊎ ((t : Ptr) × (free : List Ptr) × (ys ≡ t ∷ free)
          × ((lru_set_timer now asked pm l).1 ≡ some t)
          × Timers (lru_set_timer now asked pm l).0.queue (xs ++ t ∷ []) free
          × ((lru_set_timer now asked pm l).0.queue.end_clock_ms t
              ≡ (now + l.interval_ms) % 2 ^ 64))
unfolding lru_set_timer
lru_set_timer_lem l xs [] now asked pm T b =
    inl (refl, rw (ap (λ n. n == 0) T.lists.right.size) refl)
lru_set_timer_lem l xs (t ∷ ys) now asked pm T b = inr (
  t,
  ys,
  refl,
  rw (empty-cons t ys T.lists.right, T.lists.right.head_next) refl,
  rw (empty-cons t ys T.lists.right, T.lists.right.head_next) timers,
  rw (empty-cons t ys T.lists.right, T.lists.right.head_next) at_t,
)
  where
    out :
        Out
          (on_free pop_front l.queue).active_list
          (on_free pop_front l.queue).free_list
          (on_free pop_front l.queue).links
          xs
          ys
          t
    out = Out-swap (
        leaves t [] ys (pop_front l.queue.free_list l.queue.links) (Two-swap T.lists)
          (pop_front_lem t ys T.lists.right))

    at_t :
        (arm now l.interval_ms pm t (on_free pop_front l.queue)).end_clock_ms t
        ≡ (now + l.interval_ms) % 2 ^ 64
    at_t = (arm_self (on_free pop_front l.queue) t xs ys now l.interval_ms pm).0

    timers :
        Timers
          (on_active (push_back t) (arm now l.interval_ms pm t (on_free pop_front l.queue)))
          (xs ++ t ∷ [])
          ys
    timers =
        let q1 = on_free pop_front l.queue in
        let q2 = arm now l.interval_ms pm t q1 in
        let ends = arm-end q1 t xs ys now l.interval_ms pm out in
        behind q2 t xs ys (arm-Out q1 t xs ys now l.interval_ms pm out)
          (arm_self q1 t xs ys now l.interval_ms pm).3
          (Running-same l.queue q2 xs (arm-active q1 t xs ys now l.interval_ms pm out) T.running)
          (Sorted-same l.queue.end_clock_ms q2.end_clock_ms xs ends T.sorted)
          (By-same l.queue.end_clock_ms q2.end_clock_ms ((now + l.interval_ms) % 2 ^ 64)
            (q2.end_clock_ms t) xs (sym at_t) ends b)

-- expire of the LRU queue with a clock that has advanced returns, on more fuel than there are active
-- timers, and has told every timer that is due and no other, in the order of their times, with the
-- queue's slot if there is a stage handler; no timer that is due is left. For a handler that may use
-- the queue but neither adds nor removes a timer that is due already.
pub lru_expire_lem :
    {A : Type 0} (handle_event : ℤ → Ptr → SedaTimerQueue × A → SedaTimerQueue × A)
    (timeout : Ptr → SedaTimerQueue × A → SedaTimerQueue × A) (fuel now : ℕ) (l : SedaLruTimerQueue)
    (a : A) (xs ys : List Ptr)
    → Modest (if l.queue.stage_handler then handle_event l.slot else timeout) now
    → Timers l.queue xs ys
    → l.queue.last_clock_ms < now
    → length xs < fuel
    → (ts : List Ptr) × Tells now l.queue xs ts
      × (r : Option (SedaTimerQueue × A)) × (lru_expire handle_event timeout fuel now (l, a)
          ≡ Option.map (λ s. (record l { queue = s.0 }, s.1)) r)
      × Expired
          (if l.queue.stage_handler then handle_event l.slot else timeout)
          now
          (record l.queue { last_clock_ms = now }, a)
          ts
          r
unfolding lru_expire
lru_expire_lem handle_event timeout fuel now l a xs ys m T later enough =
    let fire = if l.queue.stage_handler then handle_event l.slot else timeout in
    let q = record l.queue { last_clock_ms = now } in
    (
      due now l.queue.end_clock_ms xs,
      due-Tells now l.queue xs ys T,
      expire_loop fuel fire now (q, a),
      rw (lt→ltb l.queue.last_clock_ms now later) refl,
      expire_loop_lem fire now m fuel q a xs ys
          (record { lists = T.lists; running = T.running; sorted = T.sorted })
          (omega (arith, length-due now l.queue.end_clock_ms xs, enough)),
    )
