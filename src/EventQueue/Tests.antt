-- ===== src/EventQueue/Tests.antt =====
-- The theorems about the event queues at concrete inputs.
use zrsocket.Base.{ℕ, ◌+◌, ◌≡◌, refl, [], ◌∷◌, ◌++◌, arith}
use zrsocket.EventQueue.{put}
use zrsocket.EventQueue.Slots.{window}
use zrsocket.EventQueue.DoubleBuffer.{
  Buffer, DoubleBuffer, push_buffer, pop_buffer, push, pop, swap_buffer,
}
use zrsocket.EventQueue.DoubleBuffer.Laws.{IsValid, events}
use zrsocket.EventQueue.DoubleBuffer.Order.{
  IsSound, all_events, starts, pushes, pops, swaps, Run-fifo,
}

-- Two slots, after 7 events of which 6 have been taken out.
abbrev one_event : Buffer ℕ
one_event = record { slots = λ i. 40 + i; capacity = 2; read_index = 6; write_index = 7 }

one_event-IsValid : IsValid one_event
one_event-IsValid = record {
  some_slot = omega arith;
  ordered = omega arith;
  inside = omega arith;
  word = omega arith;
}

abbrev both : DoubleBuffer ℕ
both = record { active_buf = one_event; standby_buf = one_event }

both-IsSound : IsSound both
both-IsSound = record { active = one_event-IsValid; standby = one_event-IsValid }

-- A push, a pop that empties the active buffer, a swap and another pop.
abbrev popped_once : DoubleBuffer ℕ
popped_once = (pop (push 9 both).0).0

Run-fifo_example :
    let q' = (pop (swap_buffer popped_once).0).0 in
    IsSound q' × (40 ∷ 40 ∷ [] ++ all_events q' ≡ 40 ∷ 40 ∷ 9 ∷ [])
unfolding push pop push_buffer pop_buffer swap_buffer put all_events events window
Run-fifo_example =
    Run-fifo both-IsSound (pops (swaps (pops (pushes (starts both) 9 (omega arith))) refl))
