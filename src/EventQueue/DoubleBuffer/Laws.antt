-- ===== src/EventQueue/DoubleBuffer/Laws.antt =====
-- One buffer of the double buffer: its invariant, its events, and each operation on them.
use mathlib.Core.Path.{ap₂}
use zrsocket.Base.{
  ℕ, suc, ◌+◌, ◌-◌, ◌%◌, ◌^◌, ◌≤◌, ◌<◌, ◌≡◌, refl, sym, ap, ◌∙◌, Bool, Option, List, [], ◌∷◌, ◌++◌,
  length, ltb, if◌then◌else◌, if_intro, ltb→lt, ltb→le, min, arith,
}
use zrsocket.EventQueue.{sub64, put}
use zrsocket.EventQueue.Slots.{window, length-window, window-put}
use zrsocket.EventQueue.DoubleBuffer.{Buffer, listed, push_buffer, pop_buffer}

one_more : {r w : ℕ} → r < w → w - r ≡ suc (w - suc r)
one_more h = omega arith

module _ {ℓ} {E : Type ℓ} where
  -- The indices have not come to the end of uint64_t, and at most a round lies between them.
  pub record IsValid (b : Buffer E) : Type 0 where
    pub some_slot : 0 < b.capacity
    pub ordered : b.read_index ≤ b.write_index
    pub inside : b.write_index ≤ b.read_index + b.capacity
    pub word : b.write_index < 2 ^ 64

  -- The events in a buffer, the oldest first.
  unfoldable pub events : Buffer E → List E
  events b = window b.slots b.capacity b.read_index (b.write_index - b.read_index)

  pub length-events : (b : Buffer E) → length (events b) ≡ b.write_index - b.read_index
  unfolding events
  length-events b = length-window b.slots b.capacity b.read_index (b.write_index - b.read_index)

  size_lem : (b : Buffer E) → IsValid b → sub64 b.write_index b.read_index ≡ length (events b)
  size_lem b v = omega (arith, v.ordered, v.word, length-events b)

  -- `push` takes an event exactly if fewer than `capacity` are there, and puts it behind them.
  -- The index must not come to the end of uint64_t.
  pub push_buffer_lem :
      (e : E) (b : Buffer E)
      → IsValid b
      → b.write_index + 1 < 2 ^ 64
      → let (b', done) = push_buffer e b in
        IsValid b'
        × (done ≡ ltb (length (events b)) b.capacity)
        × (events b' ≡ (if done then events b ++ e ∷ [] else events b))
  unfolding push_buffer events
  push_buffer_lem e b v w =
      if_intro
        (λ (x : Buffer E × Bool).
          IsValid x.0
          × (x.1 ≡ ltb (length (events b)) b.capacity)
          × (events x.0 ≡ (if x.1 then events b ++ e ∷ [] else events b)))
        (ltb (sub64 b.write_index b.read_index) b.capacity)
        (λ room. (
          record {
            some_slot = v.some_slot;
            ordered = omega (arith, v.ordered);
            inside =
                omega (arith, v.ordered, ltb→lt (sub64 b.write_index b.read_index) b.capacity room);
            word = omega arith;
          },
          sym room ∙ ap (λ n. ltb n b.capacity) (size_lem b v),
          ap₂ (λ i n. window (put b.slots (i % b.capacity) e) b.capacity b.read_index n)
                (omega (arith, v.ordered)) (omega (arith, v.ordered))
              ∙ window-put b.slots b.capacity b.read_index (b.write_index - b.read_index) e (
                  omega (
                    arith,
                    v.ordered,
                    v.word,
                    ltb→lt (sub64 b.write_index b.read_index) b.capacity room,
                  )),
        ))
        (λ full. (v, sym full ∙ ap (λ n. ltb n b.capacity) (size_lem b v), refl))

  -- `pop` hands out the oldest event, if there is one.
  pub pop_buffer_lem :
      (b : Buffer E)
      → IsValid b
      → let (b', out) = pop_buffer b in
        IsValid b'
        × (listed out ++ events b' ≡ events b)
        × (length (listed out) ≡ min 1 (length (events b)))
  unfolding pop_buffer events window
  pop_buffer_lem b v =
      if_intro
        (λ (x : Buffer E × Option E).
          IsValid x.0
          × (listed x.1 ++ events x.0 ≡ events b)
          × (length (listed x.1) ≡ min 1 (length (events b))))
        (ltb b.read_index b.write_index)
        (λ some_event. (
          record {
            some_slot = v.some_slot;
            ordered = omega (arith, v.word, ltb→lt _ _ some_event);
            inside = omega (arith, v.word, v.inside, ltb→lt _ _ some_event);
            word = v.word;
          },
          ap₂ (λ i n. b.slots (b.read_index % b.capacity) ∷ window b.slots b.capacity i n)
                (omega (arith, v.word, ltb→lt _ _ some_event))
                (omega (arith, v.word, ltb→lt _ _ some_event))
              ∙ sym
                  (ap (window b.slots b.capacity b.read_index) (one_more (ltb→lt _ _ some_event))),
          omega (arith, length-events b, ltb→lt _ _ some_event),
        ))
        (λ none_there. (v, refl, omega (arith, length-events b, ltb→le _ _ none_there)))
