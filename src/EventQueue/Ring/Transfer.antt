-- ===== src/EventQueue/Ring/Transfer.antt =====
-- What a batch of events that goes from one ring to another takes and what arrives.
use mathlib.Core.Option
use zrsocket.Base.{
  ℕ, zero, suc, ◌+◌, ◌-◌, ◌%◌, ◌≤◌, ◌<◌, ◌≡◌, refl, sym, ap, ◌∙◌, Bool, true, false, not, Option,
  none, some, min, List, [], ◌∷◌, ◌++◌, append_assoc, append-nil, length, length-append, take, drop,
  ltb, ◌==◌, ◌||◌, if◌then◌else◌, if_intro, arith,
}
use zrsocket.EventQueue.DoubleBuffer.{listed}
use zrsocket.EventQueue.Ring.{
  Ring, size, ring_free_size, push, pop, push_popped, move, pop_size, pop_batch,
}
use zrsocket.EventQueue.Ring.Fifo.{IsValid, events, length-events, few, push_lem, pop_lem}

one_less :
    {c c' l : ℕ} (k : ℕ) → c' ≡ c → l ≡ k + 1 → true ≡ ltb (k + 1) c → suc (c' - suc l) ≡ c - suc k
one_less k f g h = ground arith

no_room : {c c' l : ℕ} (k : ℕ) → c' ≡ c → l ≡ k → false ≡ ltb (k + 1) c → c' - suc l ≡ 0
no_room k f g h = ground arith

none_of :
    {l k s t : ℕ} (c n : ℕ)
    → l ≡ s
    → k ≡ t
    → (ltb s 1 || ltb (c - t) 1) ≡ true
    → 0 ≡ min n (min l (c - k))
none_of c n f g h = ground arith

take_nil {ℓ} : {A : Type ℓ} (n : ℕ) → take {A = A} n [] ≡ []
take_nil zero = refl
take_nil (suc n) = refl

module _ {ℓ} {E : Type ℓ} where
  -- How many more events a ring takes: one slot is kept free.
  abbrev pub room : Ring E → ℕ
  room q = q.capacity - suc (length (events q))

  push_capacity : (e : E) (q : Ring E) → (push e q).0.capacity ≡ q.capacity
  unfolding push
  push_capacity e q =
      if_intro (λ (x : Ring E × Bool). x.0.capacity ≡ q.capacity)
        (not ((q.write_index + 1) % q.capacity == q.read_index)) (λ _. refl) (λ _. refl)

  -- A ring that has an event hands one out.
  none_left : (q : Ring E) → (pop q).1 ≡ none → size q ≡ 0
  unfolding pop
  none_left q =
      if_intro (λ (x : Ring E × Option E). x.1 ≡ none → size q ≡ 0)
        (not (q.write_index == q.read_index)) (λ _ h. ground arith) (λ same _. ground arith)

  -- A push and those after it take as many of the events as there is room for.
  take-room :
      (e : E) (es : List E) (q : Ring E)
      → IsValid q
      → let q' = (push e q).0 in
        IsValid q' × (events q' ++ take (room q') es ≡ events q ++ take (room q) (e ∷ es))
  take-room e es q v =
      let (v', done, f) = push_lem e q v in (v', after (push e q).1 done f (few (push e q).0 v'))
    where
      q' : Ring E
      q' = (push e q).0

      same_length : events q' ≡ events q ++ [] → length (events q') ≡ length (events q)
      same_length f = ap length (f ∙ append-nil (events q))

      after :
          (b : Bool)
          → b ≡ ltb (length (events q) + 1) q.capacity
          → events q' ≡ events q ++ (if b then e ∷ [] else [])
          → length (events q') < q'.capacity
          → events q' ++ take (room q') es ≡ events q ++ take (room q) (e ∷ es)
      after true h f _ =
          ap (λ t. t ++ take (room q') es) f
          ∙ append_assoc (events q) (e ∷ []) (take (room q') es)
          ∙ ap (λ n. events q ++ take n (e ∷ es))
              (one_less (length (events q)) (push_capacity e q)
                (ap length f ∙ length-append (events q) (e ∷ [])) h)
      after false h f few' =
          ap (λ n. events q' ++ take n es)
            (no_room (length (events q)) (push_capacity e q) (same_length f) h)
          ∙ append-nil (events q')
          ∙ f
          ∙ ap (λ n. events q ++ take n (e ∷ es)) (sym (no_room (length (events q)) refl refl h))

  -- `n` events have left one ring, and as many of them as there was room for are in the other.
  pub record Moved (n : ℕ) (from to : Ring E) (x : Ring E × Ring E) : Type ℓ where
    pub from_valid : IsValid x.0
    pub to_valid : IsValid x.1
    pub left : events x.0 ≡ drop n (events from)
    pub arrived : events x.1 ≡ events to ++ take (room to) (take n (events from))

  data MovedBy (n : ℕ) (from to : Ring E) : Option (Ring E × Ring E) → Type ℓ where
    moves : {x : Ring E × Ring E} → Moved n from to x → MovedBy n from to (some x)

  Moved-none : (from to : Ring E) → IsValid from → IsValid to → Moved 0 from to (from, to)
  Moved-none from to v w = record {
    from_valid = v;
    to_valid = w;
    left = refl;
    arrived = sym (ap (λ t. events to ++ t) (take_nil (room to)) ∙ append-nil (events to));
  }

  one_before :
      (n : ℕ) (from to : Ring E) (e : E)
      → IsValid to
      → e ∷ events (pop from).0 ≡ events from
      → (o : Option (Ring E × Ring E)) → MovedBy n (pop from).0 (push e to).0 o
      → MovedBy (suc n) from to o
  one_before n from to e w f none r = elim r [ ]
  one_before n from to e w f (some x) (moves r) = moves (record {
    from_valid = r.from_valid;
    to_valid = r.to_valid;
    left = r.left ∙ ap (drop (suc n)) f;
    arrived =
        r.arrived
        ∙ (take-room e (take n (events (pop from).0)) to w).1
        ∙ ap (λ t. events to ++ take (room to) (take (suc n) t)) f;
  })

  move_lem :
      (n : ℕ) (from to : Ring E)
      → IsValid from
      → IsValid to
      → n ≤ length (events from)
      → MovedBy n from to (move n from to)
  unfolding move Option.bind push_popped
  move_lem zero from to v w h = moves (Moved-none from to v w)
  move_lem (suc n) from to v w h =
      let (v', f) = pop_lem from v in
      by_out (pop from).1 f (none_left from) (λ e f'.
        move_lem n (pop from).0 (push e to).0 v' (take-room e [] to w).0
          (omega (arith, ap length f')))
    where
      by_out :
          (out : Option E)
          → listed out ++ events (pop from).0 ≡ events from
          → (out ≡ none → size from ≡ 0)
          → ((e : E)
              → e ∷ events (pop from).0 ≡ events from
              → MovedBy n (pop from).0 (push e to).0 (move n (pop from).0 (push e to).0))
          → MovedBy
              (suc n)
              from
              to
              (Option.bind (push_popped out to) (λ to'. move n (pop from).0 to'))
      by_out none f empty again = absurd (omega (arith, empty refl, length-events from))
      by_out (some e) f empty again =
          one_before n from to e w f (move n (pop from).0 (push e to).0) (again e f)

  at_most_size :
      (batch_size : ℕ) (from to : Ring E) → pop_size batch_size from to ≤ length (events from)
  unfolding pop_size
  at_most_size batch_size from to = omega (arith, length-events from)

  -- What pop(push_queue, batch_size) gives back and leaves.
  pub data Transferred (batch_size : ℕ) (from to : Ring E)
      : Option ((Ring E × Ring E) × ℕ) → Type ℓ where
    transfers :
        {x : Ring E × Ring E} {n : ℕ}
        → n ≡ min batch_size (min (length (events from)) (to.capacity - length (events to)))
        → Moved n from to x
        → Transferred batch_size from to (some (x, n))

  counted :
      (batch_size : ℕ) (from to : Ring E)
      → (o : Option (Ring E × Ring E)) → MovedBy (pop_size batch_size from to) from to o
      → Transferred batch_size from to (Option.map (λ x. (x, pop_size batch_size from to)) o)
  unfolding pop_size
  counted batch_size from to none r = elim r [ ]
  counted batch_size from to (some x) (moves r) =
      transfers (omega (arith, length-events from, length-events to)) r

  nothing :
      (batch_size : ℕ) (from to : Ring E)
      → (ltb (size from) 1 || ltb (ring_free_size to) 1) ≡ true
      → 0 ≡ min batch_size (min (length (events from)) (to.capacity - length (events to)))
  nothing batch_size from to h =
      none_of to.capacity batch_size (length-events from) (length-events to) h

  -- The batch never reads through a null pointer. The events it takes, as many as the batch size,
  -- the events held and `capacity - size` of the other ring allow, leave the first ring in order,
  -- and they arrive in order in the other ring, but only as far as it has room: `capacity - 1 - size`
  -- of them. A batch that takes more loses its last event.
  pub pop_batch_lem :
      (batch_size : ℕ) (from to : Ring E)
      → IsValid from
      → IsValid to
      → Transferred batch_size from to (pop_batch batch_size from to)
  unfolding pop_batch
  pop_batch_lem batch_size from to v w =
      if_intro (Transferred batch_size from to) (ltb (size from) 1 || ltb (ring_free_size to) 1)
        (λ h. transfers (nothing batch_size from to h) (Moved-none from to v w))
        (λ _.
          counted batch_size from to (move (pop_size batch_size from to) from to)
            (move_lem (pop_size batch_size from to) from to v w (at_most_size batch_size from to)))
