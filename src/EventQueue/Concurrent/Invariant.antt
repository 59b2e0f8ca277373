-- ===== src/EventQueue/Concurrent/Invariant.antt =====
-- What holds of the indices, the slots and the two threads before and after every turn.
use mathlib.Core.Path.{ap₂}
use zrsocket.Base.{
  ℕ, zero, suc, ◌+◌, ◌-◌, ◌%◌, ◌^◌, ◌≤◌, ◌<◌, ◌≡◌, refl, sym, ap, ◌∙◌, subst, List, [], ◌∷◌, ◌++◌,
  append_assoc, ltb, ltb→lt, if_intro, arith,
}
use zrsocket.EventQueue.{add64, sub64, put}
use zrsocket.EventQueue.Slots.{mod_ne, window, put_self, put_ne}
use zrsocket.EventQueue.Concurrent.{
  Producer, has_room, stored, Consumer, outside, has_event, called, Shared, push_turn, pop_turn,
}

module _ {ℓ} {E : Type ℓ} where
  window-put_outside :
      (slots : ℕ → E) (size r n w : ℕ) (e : E)
      → r + n ≤ w
      → w < r + size
      → window (put slots (w % size) e) size r n ≡ window slots size r n
  unfolding window
  window-put_outside slots size r zero w e h near = refl
  window-put_outside slots size r (suc n) w e h near =
      ap₂ (λ a t. a ∷ t)
        (put_ne slots (w % size) e (r % size)
          (mod_ne size r w (omega arith) (omega arith) (omega arith)))
        (window-put_outside slots size (suc r) n w e (omega arith) (omega arith))

  window-snoc :
      (slots : ℕ → E) (size r n : ℕ)
      → window slots size r (suc n) ≡ window slots size r n ++ slots ((r + n) % size) ∷ []
  unfolding window
  window-snoc slots size r zero = ap (λ k. slots (k % size) ∷ []) (omega arith)
  window-snoc slots size r (suc n) =
      ap (λ t. slots (r % size) ∷ t)
        (window-snoc slots size (suc r) n
          ∙ ap (λ k. window slots size (suc r) n ++ slots (k % size) ∷ []) (omega arith))

  -- The producer's own copy of its index is right, and its slot is free.
  pub record Free (s : Shared E) (w : ℕ) : Type ℓ where
    pub own : w ≡ s.write_index
    pub near : w < s.read_index + s.capacity

  -- Once stored, the event is in the slot.
  abbrev pub ProducerOk : Shared E → Producer E → Type ℓ
  ProducerOk s outside = Unit {ℓ}
  ProducerOk s (has_room e w) = Free s w
  ProducerOk s (stored e w) = Free s w × (s.slots (w % s.capacity) ≡ e)

  -- The events from `from` on that are in the queue.
  abbrev pub rest : Shared E → ℕ → List E
  rest s from = window s.slots s.capacity from (s.write_index - from)

  -- What has been handled, with what is there, is what has been pushed.
  abbrev pub ConsumerOk : Shared E → Consumer → Type ℓ
  ConsumerOk s outside = s.handled ++ rest s s.read_index ≡ s.pushed
  ConsumerOk s (has_event r) =
      (r ≡ s.read_index) × (r < s.write_index) × (s.handled ++ rest s s.read_index ≡ s.pushed)
  ConsumerOk s (called r) =
      (r ≡ s.read_index) × (r < s.write_index) × (s.handled ++ rest s (suc s.read_index) ≡ s.pushed)

  pub record Good (s : Shared E) : Type ℓ where
    pub order : s.read_index ≤ s.write_index
    pub fits : s.write_index ≤ s.read_index + s.capacity
    pub producer_ok : ProducerOk s s.producer
    pub consumer_ok : ConsumerOk s s.consumer

  -- A store into a free slot is not seen by the consumer.
  after_store :
      (s : Shared E) (x : E) (w : ℕ) (c : Consumer)
      → w ≡ s.write_index
      → s.read_index ≤ s.write_index
      → w < s.read_index + s.capacity
      → ConsumerOk s c
      → ConsumerOk (record s { slots = put s.slots (w % s.capacity) x; producer = stored x w }) c
  after_store s x w outside e le near ok =
      ap (λ t. s.handled ++ t)
        (window-put_outside s.slots s.capacity s.read_index (s.write_index - s.read_index) w x
          (omega arith) near)
      ∙ ok
  after_store s x w (has_event r) e le near (own, lt, ok) = (
    own,
    lt,
    ap (λ t. s.handled ++ t)
          (window-put_outside s.slots s.capacity s.read_index (s.write_index - s.read_index) w x
            (omega arith) near)
        ∙ ok,
  )
  after_store s x w (called r) e le near (own, lt, ok) = (
    own,
    lt,
    ap (λ t. s.handled ++ t)
          (window-put_outside s.slots s.capacity (suc s.read_index)
            (s.write_index - suc s.read_index) w x (omega arith) (omega arith))
        ∙ ok,
  )

  -- One more event is there, behind the others.
  rest-grown :
      (s : Shared E) (x : E) (from : ℕ)
      → from ≤ s.write_index
      → s.slots (s.write_index % s.capacity) ≡ x
      → window s.slots s.capacity from (suc s.write_index - from) ≡ rest s from ++ x ∷ []
  rest-grown s x from le at =
      ap (window s.slots s.capacity from) longer
      ∙ window-snoc s.slots s.capacity from (s.write_index - from)
      ∙ ap (λ k. rest s from ++ s.slots (k % s.capacity) ∷ []) end
      ∙ ap (λ y. rest s from ++ y ∷ []) at
    where
      longer : suc s.write_index - from ≡ suc (s.write_index - from)
      longer = omega arith

      end : from + (s.write_index - from) ≡ s.write_index
      end = omega arith

  abbrev published : E → Shared E → Shared E
  published x s = record s {
    write_index = suc s.write_index;
    producer = outside;
    pushed = s.pushed ++ x ∷ [];
  }

  appended :
      (s : Shared E) (x : E) (from : ℕ)
      → from ≤ s.write_index
      → s.slots (s.write_index % s.capacity) ≡ x
      → s.handled ++ rest s from ≡ s.pushed
      → s.handled ++ window s.slots s.capacity from (suc s.write_index - from) ≡ s.pushed ++ x ∷ []
  appended s x from le at ok =
      ap (λ t. s.handled ++ t) (rest-grown s x from le at)
      ∙ sym (append_assoc s.handled (rest s from) (x ∷ []))
      ∙ ap (λ t. t ++ x ∷ []) ok

  after_publish :
      (s : Shared E) (x : E) (c : Consumer)
      → s.read_index ≤ s.write_index
      → s.slots (s.write_index % s.capacity) ≡ x
      → ConsumerOk s c
      → ConsumerOk (published x s) c
  after_publish s x outside le at ok = appended s x s.read_index le at ok
  after_publish s x (has_event r) le at (own, lt, ok) =
      (own, omega arith, appended s x s.read_index le at ok)
  after_publish s x (called r) le at (own, lt, ok) =
      (own, omega arith, appended s x (suc s.read_index) (omega arith) at ok)

  pub push_turn-Good :
      (e : E) (s : Shared E) (p : Producer E)
      → suc s.write_index < 2 ^ 64
      → ProducerOk s p
      → Good s
      → Good (push_turn e p s)
  unfolding push_turn
  push_turn-Good e s outside small ok g =
      if_intro Good (ltb (sub64 s.write_index s.read_index) s.capacity)
        (λ room. record {
          order = g.order;
          fits = g.fits;
          producer_ok = record { own = refl; near = near (ltb→lt _ _ room) };
          consumer_ok = same s.consumer g.consumer_ok;
        })
        (λ full. g)
    where
      near :
          sub64 s.write_index s.read_index < s.capacity → s.write_index < s.read_index + s.capacity
      near h = omega (arith, h, g.order, small)

      same :
          (c : Consumer)
          → ConsumerOk s c
          → ConsumerOk (record s { producer = has_room e s.write_index }) c
      same outside ok = ok
      same (has_event r) ok = ok
      same (called r) ok = ok
  push_turn-Good e s (has_room x w) small ok g = record {
    order = g.order;
    fits = g.fits;
    producer_ok = (record { own = ok.own; near = ok.near }, put_self s.slots (w % s.capacity) x);
    consumer_ok = after_store s x w s.consumer ok.own g.order ok.near g.consumer_ok;
  }
  push_turn-Good e s (stored x w) small (free, at) g =
      subst
        (λ n. Good (record s { write_index = n; producer = outside; pushed = s.pushed ++ x ∷ [] }))
        next
        (record {
          order = omega (arith, g.order);
          fits = omega (arith, free.own, free.near);
          producer_ok = tt;
          consumer_ok =
              after_publish s x s.consumer g.order
                (subst (λ i. s.slots (i % s.capacity) ≡ x) free.own at) g.consumer_ok;
        })
    where
      next : suc s.write_index ≡ add64 w 1
      next = omega (arith, free.own, small)

  -- The consumer gives a slot back.
  after_pop :
      (s : Shared E) (p : Producer E)
      → ProducerOk s p
      → ProducerOk (record s { read_index = suc s.read_index; consumer = outside }) p
  after_pop s outside ok = tt
  after_pop s (has_room e w) ok = record { own = ok.own; near = omega (arith, ok.near) }
  after_pop s (stored e w) (ok, at) = (record { own = ok.own; near = omega (arith, ok.near) }, at)

  unaffected :
      (s : Shared E) (c : Consumer) (xs : List E) (p : Producer E)
      → ProducerOk s p
      → ProducerOk (record s { consumer = c; handled = xs }) p
  unaffected s c xs outside ok = tt
  unaffected s c xs (has_room e w) ok = record { own = ok.own; near = ok.near }
  unaffected s c xs (stored e w) (ok, at) = (record { own = ok.own; near = ok.near }, at)

  first_event :
      (s : Shared E)
      → s.read_index < s.write_index
      → rest s s.read_index ≡ s.slots (s.read_index % s.capacity) ∷ rest s (suc s.read_index)
  unfolding window
  first_event s lt = ap (window s.slots s.capacity s.read_index) one_more
    where
      one_more : s.write_index - s.read_index ≡ suc (s.write_index - suc s.read_index)
      one_more = omega (arith, lt)

  pub pop_turn-Good :
      (s : Shared E) (c : Consumer)
      → s.write_index < 2 ^ 64
      → ConsumerOk s c
      → Good s
      → Good (pop_turn c s)
  unfolding pop_turn
  pop_turn-Good s outside small ok g =
      if_intro Good (ltb s.read_index s.write_index)
        (λ some_event. record {
          order = g.order;
          fits = g.fits;
          producer_ok = unaffected s (has_event s.read_index) s.handled s.producer g.producer_ok;
          consumer_ok = (refl, ltb→lt _ _ some_event, ok);
        })
        (λ none_there. g)
  pop_turn-Good s (has_event r) small (own, lt, ok) g = record {
    order = g.order;
    fits = g.fits;
    producer_ok =
        unaffected s (called r) (s.handled ++ s.slots (r % s.capacity) ∷ []) s.producer
          g.producer_ok;
    consumer_ok = (
      own,
      lt,
      append_assoc s.handled (s.slots (r % s.capacity) ∷ []) (rest s (suc s.read_index))
          ∙ ap (λ i. s.handled ++ s.slots (i % s.capacity) ∷ rest s (suc s.read_index)) own
          ∙ ap (λ t. s.handled ++ t) (sym (first_event s (subst (λ i. i < s.write_index) own lt)))
          ∙ ok,
    );
  }
  pop_turn-Good s (called r) small (own, lt, ok) g =
      subst (λ n. Good (record s { read_index = n; consumer = outside })) next
        (record {
          order = omega (arith, own, lt);
          fits = omega (arith, g.fits);
          producer_ok = after_pop s s.producer g.producer_ok;
          consumer_ok = ok;
        })
    where
      next : suc s.read_index ≡ add64 r 1
      next = omega (arith, own, lt, small)
