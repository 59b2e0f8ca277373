-- ===== src/EventQueue/Concurrent/Fifo.antt =====
-- Producer and consumer in any interleaving.
use zrsocket.Base.{
  ℕ, suc, ◌+◌, ◌-◌, ◌*◌, ◌^◌, ◌≤◌, ◌<◌, ◌≡◌, refl, List, [], ◌∷◌, ◌++◌, length, ltb, if_intro,
  arith,
}
use zrsocket.EventQueue.{sub64, rounded_capacity}
use zrsocket.EventQueue.Slots.{window, length-window}
use zrsocket.EventQueue.Concurrent.{
  Producer, has_room, stored, Consumer, outside, has_event, called, Shared, Turn, produce, consume,
  start, push_turn, pop_turn, turn, turns,
}
use zrsocket.EventQueue.Concurrent.Invariant.{
  ProducerOk, ConsumerOk, rest, Good, push_turn-Good, pop_turn-Good,
}

module _ {ℓ} {E : Type ℓ} where
  push_turn-write :
      (e : E) (s : Shared E) (p : Producer E)
      → ProducerOk s p
      → (push_turn e p s).write_index ≤ suc s.write_index
  unfolding push_turn
  push_turn-write e s outside ok =
      if_intro (λ (s' : Shared E). s'.write_index ≤ suc s.write_index)
        (ltb (sub64 s.write_index s.read_index) s.capacity) (λ room. omega arith)
        (λ full. omega arith)
  push_turn-write e s (has_room x w) ok = omega arith
  push_turn-write e s (stored x w) (free, at) = omega (arith, free.own)

  pop_turn-write : (s : Shared E) (c : Consumer) → (pop_turn c s).write_index ≡ s.write_index
  unfolding pop_turn
  pop_turn-write s outside =
      if_intro (λ (s' : Shared E). s'.write_index ≡ s.write_index) (ltb s.read_index s.write_index)
        (λ e. refl) (λ e. refl)
  pop_turn-write s (has_event r) = refl
  pop_turn-write s (called r) = refl

  turns-Good :
      (ts : List (Turn E)) (s : Shared E)
      → suc (s.write_index + length ts) < 2 ^ 64
      → Good s
      → Good (turns ts s)
  unfolding turns turn
  turns-Good [] s small g = g
  turns-Good (produce e ∷ ts) s small g =
      turns-Good ts (push_turn e s.producer s)
        (omega (arith, small, push_turn-write e s s.producer g.producer_ok))
        (push_turn-Good e s s.producer (omega (arith, small)) g.producer_ok g)
  turns-Good (consume ∷ ts) s small g =
      turns-Good ts (pop_turn s.consumer s) (omega (arith, small, pop_turn-write s s.consumer))
        (pop_turn-Good s s.consumer (omega (arith, small)) g.consumer_ok g)

  start-Good : (fresh : ℕ → E) (capacity : ℕ) → Good (start fresh capacity)
  unfolding start window
  start-Good fresh capacity = record {
    order = omega arith;
    fits = omega arith;
    producer_ok = tt;
    consumer_ok = refl;
  }

  -- The events that have been pushed and not been handled.
  pub record Queued (s : Shared E) : Type ℓ where
    pub left : List E
    pub fifo : s.handled ++ left ≡ s.pushed
    pub bounded : length left ≤ s.capacity

  Good-Queued : (s : Shared E) (c : Consumer) → ConsumerOk s c → Good s → Queued s
  Good-Queued s outside ok g = record {
    left = rest s s.read_index;
    fifo = ok;
    bounded = omega (
      arith,
      g.fits,
      length-window s.slots s.capacity s.read_index (s.write_index - s.read_index),
    );
  }
  Good-Queued s (has_event r) (own, lt, ok) g = record {
    left = rest s s.read_index;
    fifo = ok;
    bounded = omega (
      arith,
      g.fits,
      length-window s.slots s.capacity s.read_index (s.write_index - s.read_index),
    );
  }
  Good-Queued s (called r) (own, lt, ok) g = record {
    left = rest s (suc s.read_index);
    fifo = ok;
    bounded = omega (
      arith,
      g.fits,
      length-window s.slots s.capacity (suc s.read_index) (s.write_index - suc s.read_index),
    );
  }

  start-write : (fresh : ℕ → E) (capacity : ℕ) → (start fresh capacity).write_index ≡ 0
  unfolding start
  start-write fresh capacity = refl

  -- However the turns of the producer and of the consumer interleave, if every turn sees all turns
  -- before it (the accesses are sequentially consistent, which the source does not make sure of), from
  -- an init of a new queue on with a capacity up to 2^31 whose block, shifted by the type length, fits
  -- in a uint_t, and for fewer than 2^64 - 1 turns: the handler has been given the events that push has accepted, in their
  -- order, each one once, and as many as the capacity at most are still to be handled.
  pub turns-fifo :
      (fresh : ℕ → E) (capacity type_len_mask : ℕ) (ts : List (Turn E))
      → capacity ≤ 2 ^ 31
      → rounded_capacity capacity * 2 ^ type_len_mask < 2 ^ 32
      → suc (length ts) < 2 ^ 64
      → Queued (turns ts (start fresh capacity))
  turns-fifo fresh capacity mask ts _ _ small =
      let s = turns ts (start fresh capacity) in
      let g =
        turns-Good ts (start fresh capacity) (omega (arith, small, start-write fresh capacity))
          (start-Good fresh capacity) in
      Good-Queued s s.consumer g.consumer_ok g
