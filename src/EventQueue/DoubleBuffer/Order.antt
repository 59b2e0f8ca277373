-- ===== src/EventQueue/DoubleBuffer/Order.antt =====
-- The double buffer as a whole: its events in order, and runs of its operations.
use zrsocket.Base.{
  ℕ, ◌+◌, ◌^◌, ◌≤◌, ◌<◌, ◌≡◌, refl, sym, subst, ap, ◌∙◌, Bool, true, false, not, List, [], ◌∷◌,
  ◌++◌, append_assoc, append-nil, ltb, if◌then◌else◌, if_intro, eq_nil, arith,
}
use zrsocket.EventQueue.{rounded_capacity}
use zrsocket.EventQueue.Capacity.{IsPowerAbove, rounded_capacity_lem}
use zrsocket.EventQueue.Slots.{window}
use zrsocket.EventQueue.DoubleBuffer.{
  Buffer, DoubleBuffer, listed, push_buffer, pop_buffer, empty_buffer, push, pop, swap_buffer, init,
}
use zrsocket.EventQueue.DoubleBuffer.Laws.{
  IsValid, events, length-events, push_buffer_lem, pop_buffer_lem,
}

module _ {ℓ} {E : Type ℓ} where
  if_append :
      (b : Bool) (xs ys : List E) → (if b then xs ++ ys else xs) ≡ xs ++ (if b then ys else [])
  if_append true xs ys = refl
  if_append false xs ys = sym (append-nil xs)

  -- Both buffers are sound.
  pub record IsSound (q : DoubleBuffer E) : Type 0 where
    pub active : IsValid q.active_buf
    pub standby : IsValid q.standby_buf

  -- The events in the queue in the order in which they are to be handled.
  unfoldable pub all_events : DoubleBuffer E → List E
  all_events q = events q.active_buf ++ events q.standby_buf

  -- An empty buffer has no events.
  pub empty_events : (b : Buffer E) → IsValid b → empty_buffer b ≡ true → events b ≡ []
  empty_events b v h = eq_nil (events b) (omega (arith, length-events b, eq_index h))
    where
      eq_index : empty_buffer b ≡ true → b.read_index ≡ b.write_index
      eq_index h = ground arith

  pub push_lem :
      (e : E) (q : DoubleBuffer E)
      → IsSound q
      → q.standby_buf.write_index + 1 < 2 ^ 64
      → let (q', done) = push e q in
        IsSound q' × (all_events q' ≡ all_events q ++ (if done then e ∷ [] else []))
  unfolding push all_events
  push_lem e q v w =
      let (a, b, c) = push_buffer_lem e q.standby_buf v.standby w in
      (
        record { active = v.active; standby = a },
        ap (λ t. events q.active_buf ++ t)
              (c ∙ if_append (push_buffer e q.standby_buf).1 (events q.standby_buf) (e ∷ []))
            ∙ sym (
                append_assoc (events q.active_buf) (events q.standby_buf)
                  (if (push_buffer e q.standby_buf).1 then e ∷ [] else [])),
      )

  pub pop_lem :
      (q : DoubleBuffer E)
      → IsSound q
      → let (q', out) = pop q in IsSound q' × (listed out ++ all_events q' ≡ all_events q)
  unfolding pop all_events
  pop_lem q v =
      let (a, b, c) = pop_buffer_lem q.active_buf v.active in
      (
        record { active = a; standby = v.standby },
        sym (
              append_assoc (listed (pop_buffer q.active_buf).1) (events (pop_buffer q.active_buf).0)
                (events q.standby_buf))
            ∙ ap (λ t. t ++ events q.standby_buf) b,
      )

  pub swap_lem :
      (q : DoubleBuffer E)
      → IsSound q
      → empty_buffer q.active_buf ≡ true
      → let (q', done) = swap_buffer q in IsSound q' × (all_events q' ≡ all_events q)
  unfolding swap_buffer all_events
  swap_lem q v h =
      if_intro (λ (x : DoubleBuffer E × Bool). IsSound x.0 × (all_events x.0 ≡ all_events q))
        (not (empty_buffer q.standby_buf))
        (λ _. (
          record { active = v.standby; standby = v.active },
          ap (λ t. events q.standby_buf ++ t) none_active
              ∙ append-nil (events q.standby_buf)
              ∙ ap (λ t. t ++ events q.standby_buf) (sym none_active),
        ))
        (λ _. (v, refl))
    where
      none_active : events q.active_buf ≡ []
      none_active = empty_events q.active_buf v.active h

  -- The producers' pushes and the consumer's pops and swaps in any order, each step under its lock;
  -- the consumer swaps only if its buffer is empty. The lists are the events that were taken in and
  -- those that were handed out.
  pub data Run : DoubleBuffer E → List E → List E → DoubleBuffer E → Type ℓ where
    starts : (q : DoubleBuffer E) → Run q [] [] q
    pushes :
        {q q' : DoubleBuffer E} {came gone : List E}
        → Run q came gone q'
        → (e : E) → q'.standby_buf.write_index + 1 < 2 ^ 64
        → Run q (came ++ (if (push e q').1 then e ∷ [] else [])) gone (push e q').0
    pops :
        {q q' : DoubleBuffer E} {came gone : List E}
        → Run q came gone q'
        → Run q came (gone ++ listed (pop q').1) (pop q').0
    swaps :
        {q q' : DoubleBuffer E} {came gone : List E}
        → Run q came gone q'
        → empty_buffer q'.active_buf ≡ true
        → Run q came gone (swap_buffer q').0

  -- First in, first out: the events handed out, followed by those still there, are those that were
  -- there at first, followed by those taken in. The indices must not come to the end of uint64_t.
  pub Run-fifo :
      {q q' : DoubleBuffer E} {came gone : List E}
      → IsSound q
      → Run q came gone q'
      → IsSound q' × (gone ++ all_events q' ≡ all_events q ++ came)
  Run-fifo v (starts q) = (v, sym (append-nil (all_events q)))
  Run-fifo {q} v (pushes {q' = p} {came = came} {gone = gone} r e w) =
      let (v', f) = Run-fifo v r in
      let (v2, g) = push_lem e p v' w in
      let x = (if (push e p).1 then e ∷ [] else []) in
      (
        v2,
        ap (λ t. gone ++ t) g
            ∙ sym (append_assoc gone (all_events p) x)
            ∙ ap (λ t. t ++ x) f
            ∙ append_assoc (all_events q) came x,
      )
  Run-fifo {q} v (pops {q' = p} {came = came} {gone = gone} r) =
      let (v', f) = Run-fifo v r in
      let (v2, g) = pop_lem p v' in
      (v2, append_assoc gone (listed (pop p).1) (all_events (pop p).0) ∙ ap (λ t. gone ++ t) g ∙ f)
  Run-fifo v (swaps {q' = p} {gone = gone} r h) =
      let (v', f) = Run-fifo v r in let (v2, g) = swap_lem p v' h in (v2, ap (λ t. gone ++ t) g ∙ f)

  -- `init` with a capacity from 1 to 2 ^ 31 leaves a sound queue with no events in it.
  pub init_lem :
      (fresh : ℕ → E) (capacity : ℕ) (q : DoubleBuffer E)
      → 1 ≤ capacity
      → capacity ≤ 2 ^ 31
      → let (q', done) = init fresh capacity q in
        (done ≡ true)
        × IsSound q'
        × (all_events q' ≡ [])
        × (capacity ≤ q'.active_buf.capacity)
        × (capacity ≤ q'.standby_buf.capacity)
  unfolding init all_events events window
  init_lem fresh capacity q a b =
      let r = rounded_capacity_lem capacity a b in
      subst
        (λ t. Started (
          if t then (q, false) else (record { active_buf = started; standby_buf = started }, true)))
        (sym (at_least_one capacity a))
        (
          refl,
          record { active = started-IsValid r; standby = started-IsValid r },
          refl,
          r.enough,
          r.enough,
        )
    where
      Started : DoubleBuffer E × Bool → Type ℓ
      Started x =
          (x.1 ≡ true)
          × IsSound x.0
          × (all_events x.0 ≡ [])
          × (capacity ≤ x.0.active_buf.capacity)
          × (capacity ≤ x.0.standby_buf.capacity)

      started : Buffer E
      started = record {
        slots = fresh;
        capacity = rounded_capacity capacity;
        read_index = 0;
        write_index = 0;
      }

      started-IsValid : IsPowerAbove capacity (rounded_capacity capacity) → IsValid started
      started-IsValid r = record {
        some_slot = omega (arith, r.enough);
        ordered = omega arith;
        inside = omega arith;
        word = omega arith;
      }

      at_least_one : (n : ℕ) → 1 ≤ n → ltb n 1 ≡ false
      at_least_one n h = ground arith
