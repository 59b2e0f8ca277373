-- ===== src/EventQueue/Ring.antt =====
-- include/zrsocket/event_type_queue.h, class SPSCNormalEventTypeQueue: a ring for one producer and
-- one consumer. The indices stay below the capacity, and one slot is kept free.
pub mod Fifo
pub mod Transfer
mod Tests
use mathlib.Core.Option
use zrsocket.Base.{
  ℕ, suc, zero, ◌+◌, ◌-◌, ◌%◌, Bool, true, false, not, ◌||◌, Option, none, some, min, ltb, leb,
  ◌==◌, if◌then◌else◌,
}
use zrsocket.EventQueue.{put, rounded_capacity}

pub record Ring {ℓ} (E : Type ℓ) : Type ℓ where
  pub slots : ℕ → E
  pub capacity : ℕ
  pub read_index : ℕ
  pub write_index : ℕ

module _ {ℓ} {E : Type ℓ} where
  -- init(capacity), where the block is allocated; `fresh` is what stands in it.
  unfoldable pub init : (ℕ → E) → ℕ → Ring E → Ring E × Bool
  init fresh capacity q = if ltb capacity 1 then (q, false) else (
    record { slots = fresh; capacity = rounded_capacity capacity; read_index = 0; write_index = 0 },
    true,
  )

  abbrev pub size : Ring E → ℕ
  size q =
      if leb q.read_index q.write_index
      then q.write_index - q.read_index
      else q.capacity - q.read_index + q.write_index

  unfoldable pub push : E → Ring E → Ring E × Bool
  push e q =
      if not ((q.write_index + 1) % q.capacity == q.read_index)
      then (
        record q {
          slots = put q.slots q.write_index e;
          write_index = (q.write_index + 1) % q.capacity;
        },
        true,
      )
      else (q, false)

  unfoldable pub pop : Ring E → Ring E × Option E
  pop q =
      if not (q.write_index == q.read_index)
      then (record q { read_index = (q.read_index + 1) % q.capacity }, some (q.slots q.read_index))
      else (q, none)

  abbrev pub ring_free_size : Ring E → ℕ
  ring_free_size q = q.capacity - size q

  -- push_queue->push(pop()): a push of a null pointer would read through it, which is `none`.
  unfoldable pub push_popped : Option E → Ring E → Option (Ring E)
  push_popped none to = none
  push_popped (some e) to = some (push e to).0

  -- The loop of pop(push_queue, batch_size), of the ring `from` into another ring `to`.
  unfoldable pub move : ℕ → Ring E → Ring E → Option (Ring E × Ring E)
  move zero from to = some (from, to)
  move (suc n) from to = Option.bind (push_popped (pop from).1 to) (λ to'. move n (pop from).0 to')

  unfoldable pub pop_size : ℕ → Ring E → Ring E → ℕ
  pop_size batch_size from to = min batch_size (min (size from) (ring_free_size to))

  -- pop(push_queue, batch_size)
  unfoldable pub pop_batch : ℕ → Ring E → Ring E → Option ((Ring E × Ring E) × ℕ)
  pop_batch batch_size from to =
      if ltb (size from) 1 || ltb (ring_free_size to) 1
      then some ((from, to), 0)
      else Option.map (λ x. (x, pop_size batch_size from to))
          (move (pop_size batch_size from to) from to)
