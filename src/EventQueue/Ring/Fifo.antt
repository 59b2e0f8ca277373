-- ===== src/EventQueue/Ring/Fifo.antt =====
-- The ring as a bounded queue.
use native.Mathlib.Nat.{mod-eq_of_lt, mod_self, mod-mod, suc-mod, add-mod_left}
use mathlib.Core.Path.{ap₂}
use zrsocket.Base.{
  ℕ, zero, suc, ◌+◌, ◌%◌, ◌<◌, ◌≡◌, ◌⊎◌, inl, inr, refl, sym, ap, ◌∙◌, Bool, true, not, Option,
  List, [], ◌∷◌, ◌++◌, append_assoc, append-nil, length, ltb, leb, leb→le, leb→lt, ◌==◌,
  if◌then◌else◌, if_intro, Bool-cases, arith,
}
use zrsocket.EventQueue.{put}
use zrsocket.EventQueue.Slots.{window, length-window, window-put}
use zrsocket.EventQueue.DoubleBuffer.{listed}
use zrsocket.EventQueue.Ring.{Ring, size, push, pop}

-- The next index of a ring.
next_cases :
    (n i : ℕ) → i < n → ((i + 1 < n) × ((i + 1) % n ≡ i + 1)) ⊎ ((i + 1 ≡ n) × ((i + 1) % n ≡ 0))
next_cases n i h = elim (Bool-cases (leb n (i + 1))) [
  | inl e ↦ inr (
    omega (arith, leb→le n (i + 1) e),
    ap (λ k. k % n) (omega (arith, leb→le n (i + 1) e)) ∙ mod_self n,
  )
  | inr e ↦ inl (leb→lt n (i + 1) e, mod-eq_of_lt (leb→lt n (i + 1) e))
]

module _ {ℓ} {E : Type ℓ} where
  -- A window begins at an index or at its remainder.
  window-mod : (slots : ℕ → E) (m i n : ℕ) → window slots m (i % m) n ≡ window slots m i n
  unfolding window
  window-mod slots m i zero = refl
  window-mod slots m i (suc n) =
      ap₂ (λ k t. slots k ∷ t) (mod-mod i m)
        (sym (window-mod slots m (suc (i % m)) n)
          ∙ ap (λ k. window slots m k n) (sym (suc-mod i m))
          ∙ window-mod slots m (suc i) n)

  pub record IsValid (q : Ring E) : Type 0 where
    pub read_inside : q.read_index < q.capacity
    pub write_inside : q.write_index < q.capacity

  -- The events in the ring, the oldest first.
  unfoldable pub events : Ring E → List E
  events q = window q.slots q.capacity q.read_index (size q)

  pub length-events : (q : Ring E) → length (events q) ≡ size q
  unfolding events
  length-events q = length-window q.slots q.capacity q.read_index (size q)

  size-lt : (q : Ring E) → IsValid q → size q < q.capacity
  size-lt q v = ground (arith, v.read_inside, v.write_inside)

  -- The write index stands behind the last event.
  at_end : (q : Ring E) → IsValid q → (q.read_index + size q) % q.capacity ≡ q.write_index
  at_end q v =
      if_intro (λ n. (q.read_index + n) % q.capacity ≡ q.write_index)
        (leb q.read_index q.write_index)
        (λ e. ap (λ k. k % q.capacity) (omega (arith, leb→le _ _ e)) ∙ mod-eq_of_lt v.write_inside)
        (λ e.
          ap (λ k. k % q.capacity) (omega (arith, v.read_inside))
          ∙ add-mod_left q.capacity q.write_index
          ∙ mod-eq_of_lt v.write_inside)

  -- What a push or a pop leaves where it finds room or an event.
  abbrev pushed : E → Ring E → Ring E
  pushed e q = record q {
    slots = put q.slots q.write_index e;
    write_index = (q.write_index + 1) % q.capacity;
  }

  abbrev popped : Ring E → Ring E
  popped q = record q { read_index = (q.read_index + 1) % q.capacity }

  size-pushed :
      (q : Ring E) (e : E)
      → IsValid q
      → not ((q.write_index + 1) % q.capacity == q.read_index) ≡ true
      → ((q.write_index + 1) % q.capacity < q.capacity) × (size (pushed e q) ≡ suc (size q))
  size-pushed q e v room =
      ground
        (arith, v.read_inside, v.write_inside, next_cases q.capacity q.write_index v.write_inside)

  size-popped :
      (q : Ring E)
      → IsValid q
      → not (q.write_index == q.read_index) ≡ true
      → ((q.read_index + 1) % q.capacity < q.capacity) × (size q ≡ suc (size (popped q)))
  size-popped q v some_event =
      ground
        (arith, v.read_inside, v.write_inside, next_cases q.capacity q.read_index v.read_inside)

  full_size :
      (q : Ring E)
      → IsValid q
      → not ((q.write_index + 1) % q.capacity == q.read_index) ≡ ltb (size q + 1) q.capacity
  full_size q v =
      ground
        (arith, v.read_inside, v.write_inside, next_cases q.capacity q.write_index v.write_inside)

  pub few : (q : Ring E) → IsValid q → length (events q) < q.capacity
  few q v = omega (arith, length-events q, size-lt q v)

  pub push_lem :
      (e : E) (q : Ring E)
      → IsValid q
      → let (q', done) = push e q in
        IsValid q'
        × (done ≡ ltb (length (events q) + 1) q.capacity)
        × (events q' ≡ events q ++ (if done then e ∷ [] else []))
  unfolding push
  push_lem e q v =
      if_intro
        (λ (x : Ring E × Bool).
          IsValid x.0
          × (x.1 ≡ ltb (length (events q) + 1) q.capacity)
          × (events x.0 ≡ events q ++ (if x.1 then e ∷ [] else [])))
        (not ((q.write_index + 1) % q.capacity == q.read_index))
        (λ room.
          let (inside, larger) = size-pushed q e v room in
          (
            record { read_inside = v.read_inside; write_inside = inside },
            sym room ∙ allowed,
            extended room larger,
          ))
        (λ full. (v, sym full ∙ allowed, sym (append-nil (events q))))
    where
      allowed :
          not ((q.write_index + 1) % q.capacity == q.read_index)
          ≡ ltb (length (events q) + 1) q.capacity
      allowed = full_size q v ∙ ap (λ n. ltb (n + 1) q.capacity) (sym (length-events q))

      extended :
          not ((q.write_index + 1) % q.capacity == q.read_index) ≡ true
          → size (pushed e q) ≡ suc (size q)
          → events (pushed e q) ≡ events q ++ e ∷ []
      extended room larger =
          unfold events in
          ap (window (pushed e q).slots q.capacity q.read_index) larger
          ∙ ap (λ i. window (put q.slots i e) q.capacity q.read_index (suc (size q)))
              (sym (at_end q v))
          ∙ window-put q.slots q.capacity q.read_index (size q) e (size-lt q v)

  pub pop_lem :
      (q : Ring E)
      → IsValid q
      → let (q', out) = pop q in IsValid q' × (listed out ++ events q' ≡ events q)
  unfolding pop
  pop_lem q v =
      if_intro (λ (x : Ring E × Option E). IsValid x.0 × (listed x.1 ++ events x.0 ≡ events q))
        (not (q.write_index == q.read_index))
        (λ some_event.
          let (inside, smaller) = size-popped q v some_event in
          (record { read_inside = inside; write_inside = v.write_inside }, first_event smaller))
        (λ _. (v, refl))
    where
      first_event :
          size q ≡ suc (size (popped q)) → q.slots q.read_index ∷ events (popped q) ≡ events q
      first_event smaller =
          unfold events in
          unfold window in
          ap₂ (λ k t. q.slots k ∷ t) (sym (mod-eq_of_lt v.read_inside))
            (window-mod q.slots q.capacity (q.read_index + 1) (size (popped q))
              ∙ ap (λ k. window q.slots q.capacity k (size (popped q))) (omega arith))
          ∙ sym (ap (window q.slots q.capacity q.read_index) smaller)

  -- The producer's pushes and the consumer's pops in any order.
  pub data RingRun : Ring E → List E → List E → Ring E → Type ℓ where
    starts : (q : Ring E) → RingRun q [] [] q
    pushes :
        {q q' : Ring E} {came gone : List E}
        → RingRun q came gone q'
        → (e : E) → RingRun q (came ++ (if (push e q').1 then e ∷ [] else [])) gone (push e q').0
    pops :
        {q q' : Ring E} {came gone : List E}
        → RingRun q came gone q'
        → RingRun q came (gone ++ listed (pop q').1) (pop q').0

  -- First in, first out, for any number of steps: the events handed out, followed by those still
  -- there, are those that were there at first, followed by those taken in. Fewer events than the
  -- capacity are there at any time.
  pub RingRun-fifo :
      {q q' : Ring E} {came gone : List E}
      → IsValid q
      → RingRun q came gone q'
      → IsValid q' × (gone ++ events q' ≡ events q ++ came) × (length (events q') < q'.capacity)
  RingRun-fifo v (starts q) = (v, sym (append-nil (events q)), few q v)
  RingRun-fifo {q} v (pushes {q' = p} {came = came} {gone = gone} r e) =
      let (v', f, _) = RingRun-fifo v r in
      let (v2, _, g) = push_lem e p v' in
      let x = (if (push e p).1 then e ∷ [] else []) in
      (
        v2,
        ap (λ t. gone ++ t) g
            ∙ sym (append_assoc gone (events p) x)
            ∙ ap (λ t. t ++ x) f
            ∙ append_assoc (events q) came x,
        few (push e p).0 v2,
      )
  RingRun-fifo {q} v (pops {q' = p} {came = came} {gone = gone} r) =
      let (v', f, _) = RingRun-fifo v r in
      let (v2, g) = pop_lem p v' in
      (
        v2,
        append_assoc gone (listed (pop p).1) (events (pop p).0) ∙ ap (λ t. gone ++ t) g ∙ f,
        few (pop p).0 v2,
      )
