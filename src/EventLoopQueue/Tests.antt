-- ===== src/EventLoopQueue/Tests.antt =====
-- A run of the loop of an EventLoopQueue, and the theorem about it at that run.
use zrsocket.Base.{ℕ, ◌+◌, ◌≡◌, refl, Bool, List, [], ◌∷◌, ◌++◌, ◌==◌, arith}
use zrsocket.EventQueue.Slots.{window}
use zrsocket.EventQueue.DoubleBuffer.{DoubleBuffer, pop_buffer, pop, swap_buffer}
use zrsocket.EventQueue.DoubleBuffer.Laws.{events}
use zrsocket.EventQueue.DoubleBuffer.Order.{IsSound, all_events}
use zrsocket.EventLoopQueue.{pop_handling, after_pop, loop}
use zrsocket.EventLoopQueue.Laws.{Handled, loop_lem}

-- The event 40 in the active buffer, 50 and 51 in the standby buffer; 50 quits.
abbrev pending : DoubleBuffer ℕ
pending = record {
  active_buf = record { slots = λ i. 40 + i; capacity = 2; read_index = 6; write_index = 7 };
  standby_buf = record { slots = λ i. 50 + i; capacity = 2; read_index = 4; write_index = 6 };
}

abbrev note_down : ℕ → List ℕ → List ℕ
note_down e seen = seen ++ e ∷ []

abbrev quits_at : ℕ → Bool
quits_at e = e == 50

loop_run : (loop note_down quits_at 5 (pending, [])).1 ≡ 40 ∷ 50 ∷ []
unfolding loop after_pop pop_handling pop pop_buffer swap_buffer
loop_run = refl

loop_rest : all_events (loop note_down quits_at 5 (pending, [])).0 ≡ 51 ∷ []
unfolding loop after_pop pop_handling pop pop_buffer swap_buffer all_events events window
loop_rest = refl

pending-IsSound : IsSound pending
pending-IsSound = record {
  active = record {
    some_slot = omega arith;
    ordered = omega arith;
    inside = omega arith;
    word = omega arith;
  };
  standby = record {
    some_slot = omega arith;
    ordered = omega arith;
    inside = omega arith;
    word = omega arith;
  };
}

loop_lem_example :
    Handled note_down quits_at (40 ∷ 50 ∷ 51 ∷ []) [] (loop note_down quits_at 5 (pending, []))
unfolding all_events events window
loop_lem_example = loop_lem note_down quits_at 5 pending [] pending-IsSound (omega arith)
