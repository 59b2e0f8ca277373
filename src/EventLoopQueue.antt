-- ===== src/EventLoopQueue.antt =====
-- include/zrsocket/event_loop_queue.h: EventLoopQueue, the pending events of a thread and the loop
-- that handles them, over a DoubleBufferEventTypeQueue. `handle` is what handle_event makes of the
-- handler's state, `quits` the test for QUIT_EVENT. No event is pushed while the loop runs.
pub mod Laws
mod Tests
use zrsocket.Base.{ℕ, zero, suc, Bool, Option, none, some, if◌then◌else◌}
use zrsocket.EventQueue.DoubleBuffer.{Buffer, DoubleBuffer, pop_buffer, pop, swap_buffer}

module _ {ℓ ℓ'} {E : Type ℓ} {H : Type ℓ'} (handle : E → H → H) where
  abbrev pub handled : Option E → H → H
  handled none h = h
  handled (some e) h = handle e h

  -- DoubleBufferEventTypeQueue::pop(handler), which is Buffer::pop(handler) of the active buffer.
  unfoldable pub pop_handling : DoubleBuffer E × H → (DoubleBuffer E × H) × Option E
  pop_handling x = let p = pop x.0 in ((p.0, handled p.1 x.1), p.1)

  module _ (quits : E → Bool) where
    -- What a round does after its pop; `again` are the rounds that are left.
    unfoldable pub after_pop :
        (DoubleBuffer E × H → DoubleBuffer E × H)
        → DoubleBuffer E × H
        → Option E
        → DoubleBuffer E × H
    after_pop again x (some e) = let rest = again x in if quits e then x else rest
    after_pop again x none =
        let s = swap_buffer x.0 in let rest = again (s.0, x.1) in if s.1 then rest else (s.0, x.1)

    -- EventLoopQueue::loop(times)
    unfoldable pub loop : ℕ → DoubleBuffer E × H → DoubleBuffer E × H
    loop zero x = x
    loop (suc times) x = let p = pop_handling x in after_pop (λ y. loop times y) p.0 p.1
