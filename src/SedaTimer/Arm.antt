-- ===== src/SedaTimer/Arm.antt =====
-- SedaTimerQueue: set_timer, cancel_timer and update_timer on the two lists.
use zrsocket.Base.{
  ℕ, ◌+◌, ◌%◌, ◌^◌, ◌≡◌, ◌⊎◌, inl, inr, refl, sym, ap, ◌∙◌, subst, true, false, Option, none, some,
  List, [], ◌∷◌, ltb, if_intro, ◌==◌, All, arith,
}
use zrsocket.TimerList.{Ptr, pop_front}
use zrsocket.TimerList.Chain.{has}
use zrsocket.TimerList.Distinct.{apart}
use zrsocket.TimerList.Ops.{pop_front_lem}
use zrsocket.SedaTimer.{SedaTimerQueue, on_free, init_timer, arm, insert_active, set_timer}
use zrsocket.SedaTimer.ByTime.{Late, Sorted, by_time, by_time-Sorted}
use zrsocket.SedaTimer.Insert.{Placed, insert_active-Placed, by_time-Placed}
use zrsocket.SedaTimer.Untouched.{Untouched, arm-Untouched, Untouched-on_free}
use zrsocket.SedaTimer.Lists.{
  Two, Two-swap, Out, Out-swap, Out-alone, leaves, comes, Out-Fresh, empty-cons,
}

abbrev pub Running : SedaTimerQueue → List Ptr → Type 0
Running q xs = All (λ y. q.is_active y ≡ true) xs

-- xs are the active timers, in the order of their ends, and ys the free ones.
pub record Timers (q : SedaTimerQueue) (xs ys : List Ptr) : Type 0 where
  pub lists : Two q.active_list q.free_list q.links xs ys
  pub running : Running q xs
  pub sorted : Sorted q.end_clock_ms xs

pub Sorted-same :
    (end end' : Ptr → ℕ) (xs : List Ptr)
    → ((y : Ptr) → has y xs ≡ true → end' y ≡ end y)
    → Sorted end xs
    → Sorted end' xs
Sorted-same end end' [] same s = tt
Sorted-same end end' (x ∷ xs) same (l, s) = (
  late xs (λ y i. same y (ground arith)) l (same x (ground arith)),
  Sorted-same end end' xs (λ y i. same y (ground arith)) s,
)
  where
    late :
        (xs : List Ptr)
        → ((y : Ptr) → has y xs ≡ true → end' y ≡ end y)
        → Late end (end x) xs
        → end' x ≡ end x
        → Late end' (end' x) xs
    late [] same l e = tt
    late (z ∷ xs) same (a, l) e =
        (omega (arith, a, e, same z (ground arith)), late xs (λ y i. same y (ground arith)) l e)

pub Running-same :
    (q q' : SedaTimerQueue) (xs : List Ptr)
    → ((y : Ptr) → has y xs ≡ true → q'.is_active y ≡ q.is_active y)
    → Running q xs
    → Running q' xs
Running-same q q' [] same r = tt
Running-same q q' (x ∷ xs) same (a, r) =
    (same x (ground arith) ∙ a, Running-same q q' xs (λ y i. same y (ground arith)) r)

Running-by_time :
    (q : SedaTimerQueue) (t : Ptr) (xs : List Ptr)
    → q.is_active t ≡ true
    → Running q xs
    → Running q (by_time q.end_clock_ms t xs)
unfolding by_time
Running-by_time q t [] on run = (on, tt)
Running-by_time q t (x ∷ xs) on (a, run) =
    if_intro (Running q) (ltb (q.end_clock_ms x) (q.end_clock_ms t))
      (λ yes. (a, Running-by_time q t xs on run)) (λ no. (on, (a, run)))

-- What a queue is when a running timer t that is in no list has been put into the active list.
pub record Arrived (q q' : SedaTimerQueue) (t : Ptr) (xs ys : List Ptr) : Type 0 where
  pub timers : Timers q' (by_time q.end_clock_ms t xs) ys
  pub same_end : q'.end_clock_ms ≡ q.end_clock_ms
  pub same_interval : q'.interval_ms ≡ q.interval_ms
  pub same_param : q'.param ≡ q.param
  pub same_active : q'.is_active ≡ q.is_active

module _ (q : SedaTimerQueue) (t : Ptr) (xs ys : List Ptr) where
  pub arrived :
      (q' : SedaTimerQueue)
      → Placed q t xs q'
      → Out q.active_list q.free_list q.links xs ys t
      → q.is_active t ≡ true
      → Running q xs
      → Sorted q.end_clock_ms xs
      → Arrived q q' t xs ys
  arrived q' i o on run s =
      subst (λ q'. Arrived q q' t xs ys) (sym i.result)
        (record {
          timers = record {
            lists =
                subst (λ zs. Two i.now.0 q.free_list i.now.1 zs ys)
                  (sym (by_time-Placed q t xs q' s i))
                  (comes t i.before i.after i.now
                    (subst (λ zs. Out q.active_list q.free_list q.links zs ys t) (sym i.whole) o)
                    i.becomes);
            running = Running-by_time q t xs on run;
            sorted = by_time-Sorted q.end_clock_ms t xs s;
          };
          same_end = refl;
          same_interval = refl;
          same_param = refl;
          same_active = refl;
        })

  -- What set_timer writes into t changes no other timer, and no list.
  module _ (now iv pm : ℕ) (o : Out q.active_list q.free_list q.links xs ys t) where
    pub arm-Out :
        Out
          (arm now iv pm t q).active_list
          (arm now iv pm t q).free_list
          (arm now iv pm t q).links
          xs
          ys
          t
    unfolding arm init_timer
    arm-Out = Out-alone o

    pub arm-end :
        (y : Ptr) → has y xs ≡ true → (arm now iv pm t q).end_clock_ms y ≡ q.end_clock_ms y
    unfolding arm init_timer
    arm-end y i = let ne = apart y t xs i o.not_left in ground (arith, ne)

    pub arm-active : (y : Ptr) → has y xs ≡ true → (arm now iv pm t q).is_active y ≡ q.is_active y
    unfolding arm init_timer
    arm-active y i = let ne = apart y t xs i o.not_left in ground (arith, ne)

  pub arm_self :
      (now iv pm : ℕ)
      → ((arm now iv pm t q).end_clock_ms t ≡ (now + iv) % 2 ^ 64)
        × ((arm now iv pm t q).interval_ms t ≡ iv)
        × ((arm now iv pm t q).param t ≡ pm)
        × ((arm now iv pm t q).is_active t ≡ true)
  unfolding arm init_timer
  arm_self now iv pm = (ground arith, ground arith, ground arith, ground arith)

-- A timer t that runs until e, in an active list xs; all other timers are as they were.
pub record Armed (q q' : SedaTimerQueue) (t e : ℕ) (xs ys : List Ptr) : Type 0 where
  pub timers : Timers q' (by_time q'.end_clock_ms t xs) ys
  pub end_t : q'.end_clock_ms t ≡ e
  pub others : (y : Ptr) → (y == t) ≡ false → Untouched q q' y

pub armed :
    (q q1 q' : SedaTimerQueue) (t e : ℕ) (xs ys : List Ptr)
    → Arrived q1 q' t xs ys
    → q1.end_clock_ms t ≡ e
    → ((y : Ptr) → (y == t) ≡ false → Untouched q q1 y)
    → Armed q q' t e xs ys
armed q q1 q' t e xs ys a at_t at_others = record {
  timers = subst (λ f. Timers q' (by_time f t xs) ys) (sym a.same_end) a.timers;
  end_t = ap (λ f. f t) a.same_end ∙ at_t;
  others = λ y ne. record {
    same_end = ap (λ f. f y) a.same_end ∙ (at_others y ne).same_end;
    same_interval = ap (λ f. f y) a.same_interval ∙ (at_others y ne).same_interval;
    same_param = ap (λ f. f y) a.same_param ∙ (at_others y ne).same_param;
    same_active = ap (λ f. f y) a.same_active ∙ (at_others y ne).same_active;
  };
}

-- What set_timer returns with the free timer t.
pub record Took (q : SedaTimerQueue) (now iv pm t : ℕ) (xs free : List Ptr)
    (r : SedaTimerQueue × Option Ptr) : Type 0 where
  pub returned : r.1 ≡ some t
  pub armed : Armed q r.0 t ((now + iv) % 2 ^ 64) xs free
  pub interval : r.0.interval_ms t ≡ iv
  pub param : r.0.param t ≡ pm

took :
    (q : SedaTimerQueue) (t : Ptr) (xs ys : List Ptr) (now iv pm : ℕ)
    → Timers q xs (t ∷ ys)
    → Took q now iv pm t xs ys (insert_active t (arm now iv pm t (on_free pop_front q)), some t)
took q t xs ys now iv pm T =
    let q1 = on_free pop_front q in
    let q2 = arm now iv pm t q1 in
    let o1 : Out q1.active_list q1.free_list q1.links xs ys t = Out-swap (
      leaves t [] ys (pop_front q.free_list q.links) (Two-swap T.lists)
        (pop_front_lem t ys T.lists.right)) in
    let o2 = arm-Out q1 t xs ys now iv pm o1 in
    let (at_t, at_iv, at_pm, on) = arm_self q1 t xs ys now iv pm in
    let ends = arm-end q1 t xs ys now iv pm o1 in
    let a =
      arrived q2 t xs ys (insert_active t q2)
        (insert_active-Placed q2 t xs o2.two.left (Out-Fresh o2)) o2 on
        (Running-same q q2 xs (arm-active q1 t xs ys now iv pm o1) T.running)
        (Sorted-same q.end_clock_ms q2.end_clock_ms xs ends T.sorted) in
    record {
      returned = refl;
      armed =
          armed q q2 (insert_active t q2) t ((now + iv) % 2 ^ 64) xs ys a at_t
            (λ y ne. Untouched-on_free q q2 y pop_front (arm-Untouched q1 t y now iv pm ne));
      interval = ap (λ f. f t) a.same_interval ∙ at_iv;
      param = ap (λ f. f t) a.same_param ∙ at_pm;
    }

pub set_timer-Took :
    (q : SedaTimerQueue) (t : Ptr) (xs ys : List Ptr) (now iv pm : ℕ)
    → Timers q xs (t ∷ ys)
    → Took q now iv pm t xs ys (set_timer now iv pm q)
unfolding set_timer
set_timer-Took q t xs ys now iv pm T = rw (empty-cons t ys T.lists.right) (
    subst
      (λ u.
        Took q now iv pm t xs ys (insert_active u (arm now iv pm u (on_free pop_front q)), some u))
      (sym T.lists.right.head_next) (took q t xs ys now iv pm T))

-- set_timer with a free timer t takes the first one of the free list and returns it, running, with
-- the interval and the parameter asked for and due at now + interval modulo 2^64. The active list
-- stays in the order of the times at which its timers are due, the new timer behind those that are
-- due earlier and in front of the others. The times, intervals, parameters and is_active_ of all
-- other timers are as they were. Without a free timer
-- it returns no timer and changes nothing.
pub set_timer_lem :
    (q : SedaTimerQueue) (xs ys : List Ptr) (now iv pm : ℕ)
    → Timers q xs ys
    → ((ys ≡ []) × (set_timer now iv pm q ≡ (q, none)))
      ⊎ ((t : Ptr) × (free : List Ptr) × (ys ≡ t ∷ free)
          × Took q now iv pm t xs free (set_timer now iv pm q))
unfolding set_timer
set_timer_lem q xs [] now iv pm T = inl (refl, rw (ap (λ n. n == 0) T.lists.right.size) refl)
set_timer_lem q xs (t ∷ ys) now iv pm T = inr (t, ys, refl, set_timer-Took q t xs ys now iv pm T)
