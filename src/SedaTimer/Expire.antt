-- ===== src/SedaTimer/Expire.antt =====
-- SedaTimerQueue::expire: which timers are told, and in which order.
use zrsocket.Base.{
  ℕ, zero, suc, ◌<◌, ◌≡◌, inl, inr, refl, sym, ap, subst, ℤ, negsuc, Option, some, List, [], ◌∷◌,
  length, leb, lt→ltb, Bool-cases, ◌==◌, if◌then◌else◌, arith,
}
use zrsocket.TimerList.{Ptr, push_front, pop_front}
use zrsocket.TimerList.Ops.{push_front_lem, pop_front_lem}
use zrsocket.SedaTimer.{SedaTimerQueue, on_active, on_free, expire_loop, expire}
use zrsocket.SedaTimer.Lists.{Two-swap, Out-swap, Out-Fresh, leaves, comes, empty-cons}
use zrsocket.SedaTimer.Arm.{Timers}
use zrsocket.SedaTimer.Due.{due, due-more, due-none, length-due, Tells, due-Tells}

-- The first active timer is moved to the front of the free list.
abbrev pub moved : Ptr → SedaTimerQueue → SedaTimerQueue
moved x q = on_free (push_front x) (on_active pop_front q)

moved-Timers :
    (q : SedaTimerQueue) (x : Ptr) (xs ys : List Ptr)
    → Timers q (x ∷ xs) ys
    → Timers (moved x q) xs (x ∷ ys)
moved-Timers q x xs ys T =
    let q1 = on_active pop_front q in
    let o =
      leaves x [] xs (pop_front q.active_list q.links) T.lists (pop_front_lem x xs T.lists.left) in
    record {
      lists = Two-swap (
          comes x [] ys (push_front x q1.free_list q1.links) (Out-swap o)
            (push_front_lem x ys o.two.right (Out-Fresh (Out-swap o))));
      running = T.running.1;
      sorted = T.sorted.1;
    }

module _ {A : Type 0} (fire : Ptr → SedaTimerQueue × A → SedaTimerQueue × A) (now : ℕ) where
  -- A handler may use the queue, but leaves its lists in order and adds or removes no timer that is
  -- due at `now`.
  abbrev pub Modest : Type 0
  Modest =
      (t : Ptr) (q : SedaTimerQueue) (a : A) (xs ys : List Ptr)
      → Timers q xs ys
      → (xs' : List Ptr) × (ys' : List Ptr) × Timers (fire t (q, a)).0 xs' ys'
        × (due now (fire t (q, a)).0.end_clock_ms xs' ≡ due now q.end_clock_ms xs)

  -- The timers ts are told, one after the other, each when it has become free.
  pub data Fires : SedaTimerQueue × A → List Ptr → SedaTimerQueue × A → Type 0 where
    quiet : {s : SedaTimerQueue × A} → Fires s [] s
    fires :
        {q : SedaTimerQueue} {a : A} {t : Ptr} {ts : List Ptr} {s : SedaTimerQueue × A}
        → Fires (fire t (moved t q, a)) ts s
        → Fires (q, a) (t ∷ ts) s

  -- What the loop returns: it has told ts, and no timer is due any more.
  pub record Expired (s : SedaTimerQueue × A) (ts : List Ptr) (r : Option (SedaTimerQueue × A))
      : Type 0 where
    pub last : SedaTimerQueue × A
    pub returned : r ≡ some last
    pub fired : Fires s ts last
    pub active : List Ptr
    pub free : List Ptr
    pub timers : Timers last.0 active free
    pub none_due : due now last.0.end_clock_ms active ≡ []

  still :
      (q : SedaTimerQueue) (a : A) (xs ys : List Ptr)
      → Timers q xs ys
      → due now q.end_clock_ms xs ≡ []
      → Expired (q, a) [] (some (q, a))
  still q a xs ys T e = record {
    last = (q, a);
    returned = refl;
    fired = quiet;
    active = xs;
    free = ys;
    timers = T;
    none_due = e;
  }

  after :
      (q : SedaTimerQueue) (a : A) (x : Ptr) (ts : List Ptr) {r : Option (SedaTimerQueue × A)}
      → Expired (fire x (moved x q, a)) ts r
      → Expired (q, a) (x ∷ ts) r
  after q a x ts e = record {
    last = e.last;
    returned = e.returned;
    fired = fires e.fired;
    active = e.active;
    free = e.free;
    timers = e.timers;
    none_due = e.none_due;
  }

  pub expire_loop_lem :
      Modest
      → (fuel : ℕ) (q : SedaTimerQueue) (a : A) (xs ys : List Ptr) → Timers q xs ys
      → length (due now q.end_clock_ms xs) < fuel
      → Expired (q, a) (due now q.end_clock_ms xs) (expire_loop fuel fire now (q, a))
  unfolding expire_loop due
  expire_loop_lem m zero q a xs ys T enough = absurd (omega arith)
  expire_loop_lem m (suc fuel) q a [] ys T enough =
      rw (ap (λ n. n == 0) T.lists.left.size) (still q a [] ys T refl)
  expire_loop_lem m (suc fuel) q a (x ∷ xs) ys T enough =
      let (xs', ys', T', e) = m x (moved x q) a xs (x ∷ ys) (moved-Timers q x xs ys T) in
      rw (empty-cons x xs T.lists.left, T.lists.left.head_next)
        (elim (Bool-cases (leb (q.end_clock_ms x) now)) [
          | inl hit ↦
              let few =
                subst (λ ts. length ts < suc fuel) (due-more now q.end_clock_ms x xs hit) enough in
              rw hit (
                after q a x (due now q.end_clock_ms xs) (
                  subst
                    (λ ts.
                      Expired (fire x (moved x q, a)) ts
                        (expire_loop fuel fire now (fire x (moved x q, a))))
                    e
                    (expire_loop_lem m fuel (fire x (moved x q, a)).0 (fire x (moved x q, a)).1 xs'
                      ys' T' (subst (λ ts. length ts < fuel) (sym e) (omega (arith, few))))))
          | inr miss ↦ rw miss (still q a (x ∷ xs) ys T (due-none now q.end_clock_ms x xs miss))
        ])

-- expire with a clock that has advanced returns, on more fuel than there are active timers, and has by
-- then told every active timer that is due and no other, which are the front of the active list, in the
-- order of their times, each one once and after it has become free: the stage handler with slot -1 if there is one, and else the timer. No
-- timer that is due is left, and the lists are in order. For a handler that may use the queue but
-- neither adds nor removes a timer that is due already.
pub expire_lem :
    {A : Type 0} (handle_event : ℤ → Ptr → SedaTimerQueue × A → SedaTimerQueue × A)
    (timeout : Ptr → SedaTimerQueue × A → SedaTimerQueue × A) (fuel now : ℕ) (q : SedaTimerQueue)
    (a : A) (xs ys : List Ptr)
    → Modest (if q.stage_handler then handle_event (negsuc 0) else timeout) now
    → Timers q xs ys
    → q.last_clock_ms < now
    → length xs < fuel
    → (ts : List Ptr) × Tells now q xs ts
      × Expired
          (if q.stage_handler then handle_event (negsuc 0) else timeout)
          now
          (record q { last_clock_ms = now }, a)
          ts
          (expire handle_event timeout fuel now (q, a))
unfolding expire
expire_lem handle_event timeout fuel now q a xs ys m T later enough = (
  due now q.end_clock_ms xs,
  due-Tells now q xs ys T,
  rw (lt→ltb q.last_clock_ms now later) (
      expire_loop_lem (if q.stage_handler then handle_event (negsuc 0) else timeout) now m fuel
        (record q { last_clock_ms = now }) a xs ys
        (record { lists = T.lists; running = T.running; sorted = T.sorted })
        (omega (arith, length-due now q.end_clock_ms xs, enough))),
)
