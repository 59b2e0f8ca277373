-- ===== src/EventQueue/Ring/Tests.antt =====
-- The theorems about the ring at a concrete input.
use mathlib.Core.Option
use zrsocket.Base.{ℕ, ◌+◌, ◌≡◌, ◌<◌, refl, some, List, [], ◌∷◌, ◌++◌, length, arith}
use zrsocket.EventQueue.{put}
use zrsocket.EventQueue.Slots.{window}
use zrsocket.EventQueue.Ring.{Ring, push, pop, push_popped, move, pop_size, pop_batch}
use zrsocket.EventQueue.Ring.Transfer.{Transferred, pop_batch_lem}
use zrsocket.EventQueue.Ring.Fifo.{IsValid, events, starts, pushes, pops, RingRun-fifo}

-- Four slots, of which three may be filled; the window goes round the end.
abbrev two_events : Ring ℕ
two_events = record { slots = λ i. 40 + i; capacity = 4; read_index = 2; write_index = 0 }

two_events-IsValid : IsValid two_events
two_events-IsValid = record { read_inside = omega arith; write_inside = omega arith }

RingRun-fifo_example :
    let q' = (pop (push 9 two_events).0).0 in
    IsValid q' × (42 ∷ [] ++ events q' ≡ 42 ∷ 43 ∷ 9 ∷ []) × (length (events q') < q'.capacity)
unfolding push pop put events window
RingRun-fifo_example = RingRun-fifo two_events-IsValid (pops (pushes (starts two_events) 9))

-- Three events in a ring that keeps one slot of four free: it is full.
abbrev full_ring : Ring ℕ
full_ring = record { slots = λ i. 70 + i; capacity = 4; read_index = 0; write_index = 3 }

-- A batch into a full ring counts one event, which is in neither ring afterwards.
batch_loses_event :
    Option.map {B = List ℕ × List ℕ × ℕ}
      (λ x. (events x.0.0, events x.0.1, x.1))
      (pop_batch 5 two_events full_ring)
    ≡ some (43 ∷ [], 70 ∷ 71 ∷ 72 ∷ [], 1)
unfolding pop_batch move pop_size push_popped Option.bind push pop put events window
batch_loses_event = refl

-- A batch into a ring with room.
abbrev one_room : Ring ℕ
one_room = record { slots = λ i. 70 + i; capacity = 4; read_index = 1; write_index = 3 }

pop_batch_lem_example : Transferred 1 two_events one_room (pop_batch 1 two_events one_room)
pop_batch_lem_example =
    pop_batch_lem 1 two_events one_room two_events-IsValid
      (record { read_inside = omega arith; write_inside = omega arith })
