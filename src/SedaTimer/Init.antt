-- ===== src/SedaTimer/Init.antt =====
-- SedaTimerQueue::init: all the timers of the pool come into the free list.
use zrsocket.Base.{
  ℕ, zero, suc, ◌+◌, ◌≤◌, ◌<◌, ◌^◌, ◌≡◌, refl, sym, subst, Bool, false, List, [], ◌∷◌, ◌++◌, length,
  length-append, append_assoc, append-nil, ◌==◌, arith,
}
use zrsocket.TimerList
use zrsocket.TimerList.{Ptr, Links, TimerList, push_back}
use zrsocket.TimerList.Chain.{has}
use zrsocket.TimerList.Distinct.{still_out}
use zrsocket.TimerList.Ops.{push_back_lem}
use zrsocket.TimerList.Refines.{init-Rep}
use zrsocket.SedaTimer.{SedaTimerQueue, on_free, init_timer, clear, fill, init}
use zrsocket.SedaTimer.Lists.{Two, Two-swap, Out, Out-swap, Out-alone, Out-Fresh, Rep-frame, comes}
use zrsocket.SedaTimer.Arm.{Timers}

-- The pool: n timers from p on.
abbrev pub range : Ptr → ℕ → List Ptr
range p zero = []
range p (suc n) = p ∷ range (suc p) n

-- A timer that has not come into a list yet.
record Waits (q : SedaTimerQueue) (xs : List Ptr) (p : Ptr) : Type 0 where
  not_in : has p xs ≡ false
  not_active_head : (p == q.active_list.head) ≡ false
  not_free_head : (p == q.free_list.head) ≡ false

fill-Two :
    (n : ℕ) (p : Ptr) (q : SedaTimerQueue) (xs : List Ptr)
    → Two q.active_list q.free_list q.links [] xs
    → ((y : Ptr) → p ≤ y → y < p + n → Waits q xs y)
    → suc (length xs + n) < 2 ^ 32
    → Two (fill n p q).active_list (fill n p q).free_list (fill n p q).links [] (xs ++ range p n)
unfolding fill init_timer push_back
fill-Two zero p q xs two w room =
    subst (Two q.active_list q.free_list q.links []) (sym (append-nil xs)) two
fill-Two (suc n) p q xs two w room =
    subst
      (Two (fill (suc n) p q).active_list (fill (suc n) p q).free_list (fill (suc n) p q).links [])
      (append_assoc xs (p ∷ []) (range (suc p) n))
      (fill-Two n (suc p) (on_free (push_back p) (init_timer p q)) (xs ++ p ∷ []) two' waits
        (omega (arith, length-append xs (p ∷ []))))
  where
    two' :
        Two q.active_list
          (push_back p q.free_list (TimerList.alone_node p q.links)).0
          (push_back p q.free_list (TimerList.alone_node p q.links)).1
          []
          (xs ++ p ∷ [])
    two' =
        let here = w p (omega arith) (omega arith) in
        let o : Out q.active_list q.free_list q.links [] xs p = record {
          two = two;
          not_left = refl;
          not_right = here.not_in;
          not_left_head = here.not_active_head;
          not_right_head = here.not_free_head;
          more_room = omega arith;
        } in
        let o' = Out-swap (Out-alone o) in
        Two-swap (
          comes p xs [] (push_back p q.free_list (TimerList.alone_node p q.links))
            (subst (λ ys. Out q.free_list q.active_list (TimerList.alone_node p q.links) ys [] p)
              (sym (append-nil xs)) o')
            (push_back_lem p xs o'.two.left (Out-Fresh o')))

    waits :
        (y : Ptr)
        → suc p ≤ y
        → y < suc p + n
        → Waits (on_free (push_back p) (init_timer p q)) (xs ++ p ∷ []) y
    waits y lo hi =
        let there = w y (omega arith) (omega arith) in
        let ne : (y == p) ≡ false = ground arith in
        record {
          not_in =
              still_out y p xs [] ne
                (subst (λ ys. has y ys ≡ false) (sym (append-nil xs)) there.not_in);
          not_active_head = there.not_active_head;
          not_free_head = there.not_free_head;
        }

clear-Two :
    (q : SedaTimerQueue)
    → (q.active_list.head == q.free_list.head) ≡ false
    → Two (clear q).active_list (clear q).free_list (clear q).links [] []
unfolding clear TimerList.init
clear-Two q heads =
    let h1 = (TimerList.init q.free_list q.links).1 in
    let h2 = (TimerList.init q.active_list h1).1 in
    record {
      left = (init-Rep q.active_list h1).0;
      right =
          Rep-frame (TimerList.init q.free_list q.links).0 h1 h2 [] (init-Rep q.free_list q.links).0
            (record { prev = ground arith; next = ground arith }) (λ y i. absurd (ground arith));
      apart = λ y i. refl;
      left_head = refl;
      right_head = refl;
      heads = heads;
      room = omega arith;
    }

-- After init with a pool of n timers, which are not the heads of the two lists, all n are free, in
-- their order, and none is active.
pub init-Timers :
    (pool n : ℕ) (handler : Bool) (q : SedaTimerQueue)
    → (q.active_list.head == q.free_list.head) ≡ false
    → ((y : Ptr)
        → pool ≤ y
        → y < pool + n
        → ((y == q.active_list.head) ≡ false) × ((y == q.free_list.head) ≡ false))
    → suc n < 2 ^ 32
    → Timers (init pool n handler q) [] (range pool n)
unfolding init clear TimerList.init
init-Timers pool n handler q heads outside room = record {
  lists =
      fill-Two n pool (clear q) [] (clear-Two q heads)
        (λ y lo hi. record {
          not_in = refl;
          not_active_head = (outside y lo hi).0;
          not_free_head = (outside y lo hi).1;
        })
        (omega (arith, room));
  running = tt;
  sorted = tt;
}
