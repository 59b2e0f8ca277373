-- ===== src/EventQueue/DoubleBuffer.antt =====
-- include/zrsocket/event_type_queue.h, class DoubleBufferEventTypeQueue: producers push into the
-- standby buffer under the mutex, the consumer pops from the active one, and swaps them when it is
-- empty. The indices of a buffer only grow; `slots` and the capacity are as in EventQueue.
pub mod Laws
pub mod Order
use zrsocket.Base.{
  ℕ, zero, suc, ◌+◌, ◌-◌, ◌%◌, ◌^◌, ◌≤◌, ◌<◌, ◌≡◌, refl, sym, ap, ◌∙◌, Bool, true, false, not,
  Option, none, some, List, [], ◌∷◌, ◌++◌, append_assoc, append-nil, length, length-append, ltb,
  leb, ◌==◌, if◌then◌else◌, if_intro, ltb→lt, ltb→le, eq_nil, min, arith,
}
use zrsocket.EventQueue.{add64, sub64, put, rounded_capacity}
use zrsocket.EventQueue.Slots.{window, length-window, window-put}

pub record Buffer {ℓ} (E : Type ℓ) : Type ℓ where
  pub slots : ℕ → E
  pub capacity : ℕ
  pub read_index : ℕ
  pub write_index : ℕ

-- The pointers `active_buf_` and `standby_buf_`, with what they point to.
pub record DoubleBuffer {ℓ} (E : Type ℓ) : Type ℓ where
  pub active_buf : Buffer E
  pub standby_buf : Buffer E

-- What a pop has handed out.
abbrev pub listed {ℓ} : {E : Type ℓ} → Option E → List E
listed none = []
listed (some e) = e ∷ []

module _ {ℓ} {E : Type ℓ} where
  -- Buffer::push: the second component is the result 1 or 0.
  unfoldable pub push_buffer : E → Buffer E → Buffer E × Bool
  push_buffer e b =
      if ltb (sub64 b.write_index b.read_index) b.capacity
      then (
        record b {
          slots = put b.slots (b.write_index % b.capacity) e;
          write_index = add64 b.write_index 1;
        },
        true,
      )
      else (b, false)

  -- Buffer::pop
  unfoldable pub pop_buffer : Buffer E → Buffer E × Option E
  pop_buffer b =
      if ltb b.read_index b.write_index
      then (
        record b { read_index = add64 b.read_index 1 },
        some (b.slots (b.read_index % b.capacity)),
      )
      else (b, none)

  abbrev pub empty_buffer : Buffer E → Bool
  empty_buffer b = b.read_index == b.write_index

  unfoldable pub push : E → DoubleBuffer E → DoubleBuffer E × Bool
  push e q = let (b, done) = push_buffer e q.standby_buf in (record q { standby_buf = b }, done)

  unfoldable pub pop : DoubleBuffer E → DoubleBuffer E × Option E
  pop q = let (b, e) = pop_buffer q.active_buf in (record q { active_buf = b }, e)

  unfoldable pub swap_buffer : DoubleBuffer E → DoubleBuffer E × Bool
  swap_buffer q =
      if not (empty_buffer q.standby_buf)
      then (record { active_buf = q.standby_buf; standby_buf = q.active_buf }, true)
      else (q, false)

  -- init(capacity), where both blocks are allocated; `fresh` is what stands in a new block.
  unfoldable pub init : (ℕ → E) → ℕ → DoubleBuffer E → DoubleBuffer E × Bool
  init fresh capacity q =
      let b : Buffer E = record {
        slots = fresh;
        capacity = rounded_capacity capacity;
        read_index = 0;
        write_index = 0;
      } in
      if ltb capacity 1 then (q, false) else (record { active_buf = b; standby_buf = b }, true)
