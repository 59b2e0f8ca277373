-- ===== src/EventQueue/Concurrent.antt =====
-- include/zrsocket/event_type_queue.h, class SPSCVolatileEventTypeQueue: one producer and one
-- consumer that run at the same time; SPSCAtomicEventTypeQueue does the same with atomic indices.
-- A turn of a thread is what it does up to and with its next access of an index of the other thread
-- or of a slot, and turns come in any order, each one seeing all that came before:
-- the threads' accesses are taken to be sequentially consistent, which neither volatile nor relaxed
-- atomic indices make sure of. `pushed` and
-- `handled` are the events that push has accepted and that the handler has been given so far.
pub mod Invariant
pub mod Fifo
mod Tests
use zrsocket.Base.{ℕ, ◌+◌, ◌%◌, Bool, true, false, List, [], ◌∷◌, ◌++◌, ltb, if◌then◌else◌}
use zrsocket.EventQueue.{add64, sub64, put, rounded_capacity}

-- Where a push stands: before its test, before it writes the slot, before it writes `write_index_`.
pub data Producer {ℓ} (E : Type ℓ) : Type ℓ where
  outside : Producer E
  has_room : (event : E) (write_index : ℕ) → Producer E
  stored : (event : E) (write_index : ℕ) → Producer E

-- Where a pop stands: before its test, before the handler, before it writes `read_index_`.
pub data Consumer : Type 0 where
  outside : Consumer
  has_event : (read_index : ℕ) → Consumer
  called : (read_index : ℕ) → Consumer

pub record Shared {ℓ} (E : Type ℓ) : Type ℓ where
  pub slots : ℕ → E
  pub capacity : ℕ
  pub read_index : ℕ
  pub write_index : ℕ
  pub producer : Producer E
  pub consumer : Consumer
  pub pushed : List E
  pub handled : List E

-- A turn of the producer, which pushes e next, or of the consumer.
pub data Turn {ℓ} (E : Type ℓ) : Type ℓ where
  produce : E → Turn E
  consume : Turn E

module _ {ℓ} {E : Type ℓ} where
  -- init(capacity) on a new object, where the block is allocated; `fresh` is what stands in it. With
  -- capacity 0 init returns at once and leaves the object without a slot.
  unfoldable pub start : (ℕ → E) → ℕ → Shared E
  start fresh capacity = record {
    slots = fresh;
    capacity = if ltb capacity 1 then 0 else rounded_capacity capacity;
    read_index = 0;
    write_index = 0;
    producer = outside;
    consumer = outside;
    pushed = [];
    handled = [];
  }

  unfoldable pub push_turn : E → Producer E → Shared E → Shared E
  push_turn e outside s =
      if ltb (sub64 s.write_index s.read_index) s.capacity
      then record s { producer = has_room e s.write_index }
      else s
  push_turn e (has_room x w) s = record s {
    slots = put s.slots (w % s.capacity) x;
    producer = stored x w;
  }
  push_turn e (stored x w) s = record s {
    write_index = add64 w 1;
    producer = outside;
    pushed = s.pushed ++ x ∷ [];
  }

  unfoldable pub pop_turn : Consumer → Shared E → Shared E
  pop_turn outside s =
      if ltb s.read_index s.write_index then record s { consumer = has_event s.read_index } else s
  pop_turn (has_event r) s = record s {
    consumer = called r;
    handled = s.handled ++ s.slots (r % s.capacity) ∷ [];
  }
  pop_turn (called r) s = record s { read_index = add64 r 1; consumer = outside }

  unfoldable pub turn : Turn E → Shared E → Shared E
  turn (produce e) s = push_turn e s.producer s
  turn consume s = pop_turn s.consumer s

  unfoldable pub turns : List (Turn E) → Shared E → Shared E
  turns [] s = s
  turns (t ∷ ts) s = turns ts (turn t s)
