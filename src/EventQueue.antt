-- ===== src/EventQueue.antt =====
-- include/zrsocket/event_type_queue.h: the queues of events between a producer and the thread that
-- handles them.
-- `buffer_` is an array of `capacity_` slots of 2 ^ type_len_mask_ bytes; `slots i` is the event at
-- the offset i << type_len_mask_, which an event that fits in a slot fills alone. The capacity is a
-- power of two, so `x & (capacity - 1)` is `x % capacity`.
pub mod Slots
pub mod Capacity
pub mod DoubleBuffer
pub mod Ring
pub mod Concurrent
mod Tests
use zrsocket.Base.{
  ℕ, zero, suc, ◌+◌, ◌-◌, ◌*◌, ◌%◌, ◌^◌, Bool, true, false, Option, none, some, List, [], ◌∷◌, ltb,
  leb, ◌==◌, if◌then◌else◌, add32, sub32, min,
}

-- uint64_t arithmetic
abbrev pub add64 : ℕ → ℕ → ℕ
add64 a b = (a + b) % 2 ^ 64

abbrev pub sub64 : ℕ → ℕ → ℕ
sub64 a b = (a + 2 ^ 64 - b) % 2 ^ 64

-- buffer_[i] = e
unfoldable pub put {ℓ} : {E : Type ℓ} → (ℕ → E) → ℕ → E → ℕ → E
put slots i e j = if j == i then e else slots j

-- The least power of two from p on that is not below n, found within `fuel` doublings: 2 to the
-- power of the ceiling of log2 n, as std::pow gives it: a double, before the cast.
unfoldable pub power_from : ℕ → ℕ → ℕ → ℕ
power_from zero n p = p
power_from (suc fuel) n p = if leb n p then p else power_from fuel n (p + p)

-- The cast to uint_t; it is not defined beyond 2 ^ 31, whose next power does not fit.
unfoldable pub rounded_capacity : ℕ → ℕ
rounded_capacity n = power_from 32 n 1 % 2 ^ 32
