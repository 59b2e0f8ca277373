-- ===== src/EventLoopQueue/Laws.antt =====
-- What the loop of an EventLoopQueue handles and what it leaves in the queue.
use mathlib.Core.Path.{ap₂}
use zrsocket.Base.{
  ℕ, zero, suc, ◌+◌, ◌≤◌, ◌≡◌, refl, sym, subst, ap, ◌∙◌, Bool, true, false, not, Option, none,
  some, List, [], ◌∷◌, ◌++◌, length, if◌then◌else◌, if_intro, ltb, ltb→le, ◌==◌, arith,
}
use zrsocket.EventQueue.DoubleBuffer.{
  Buffer, DoubleBuffer, listed, pop_buffer, empty_buffer, pop, swap_buffer,
}
use zrsocket.EventQueue.DoubleBuffer.Laws.{IsValid}
use zrsocket.EventQueue.DoubleBuffer.Order.{IsSound, all_events, empty_events, pop_lem, swap_lem}
use zrsocket.EventLoopQueue.{handled, pop_handling, after_pop, loop}

eq_index : (r w : ℕ) → r ≤ w → w ≤ r → (r == w) ≡ true
eq_index r w a b = ground arith

not-true : (b : Bool) → not b ≡ false → b ≡ true
not-true b h = ground arith

not-false : (b : Bool) → not b ≡ true → b ≡ false
not-false b h = ground arith

one_round_less :
    {n k l : ℕ} {b c : Bool}
    → l ≡ k
    → b ≡ false
    → c ≡ true
    → suc (k + (if b then 0 else 1)) ≤ suc n
    → suc (l + (if c then 0 else 1)) ≤ n
one_round_less e f g h = ground arith

at_most_two : {n : ℕ} (k : ℕ) (b : Bool) → k + 2 ≤ n → suc (k + (if b then 0 else 1)) ≤ n
at_most_two k b h = ground arith

module _ {ℓ} {E : Type ℓ} where
  -- The events up to the first one that quits, and those behind it.
  unfoldable pub through : (E → Bool) → List E → List E
  through quits [] = []
  through quits (e ∷ es) = e ∷ (if quits e then [] else through quits es)

  unfoldable pub behind : (E → Bool) → List E → List E
  behind quits [] = []
  behind quits (e ∷ es) = let rest = behind quits es in if quits e then es else rest

  -- The rounds that a queue needs: one for each event, one for the swap and one to find it empty.
  unfoldable pub rounds : DoubleBuffer E → ℕ
  rounds q = suc (length (all_events q) + (if empty_buffer q.standby_buf then 0 else 1))

  pop-some :
      (q : DoubleBuffer E) (e : E)
      → IsSound q
      → (pop q).1 ≡ some e
      → IsSound (pop q).0 × (all_events q ≡ e ∷ all_events (pop q).0)
  pop-some q e v h =
      let (v', f) = pop_lem q v in (v', sym f ∙ ap (λ o. listed o ++ all_events (pop q).0) h)

  none_there :
      (b : Buffer E) → IsValid b → (pop_buffer b).1 ≡ none → empty_buffer (pop_buffer b).0 ≡ true
  unfolding pop_buffer
  none_there b v =
      if_intro (λ (x : Buffer E × Option E). x.1 ≡ none → empty_buffer x.0 ≡ true)
        (ltb b.read_index b.write_index) (λ _ h. ground arith)
        (λ empty _. eq_index b.read_index b.write_index v.ordered (ltb→le _ _ empty))

  pop-none :
      (q : DoubleBuffer E)
      → IsSound q
      → (pop q).1 ≡ none
      → let q' = (pop q).0 in
        IsSound q'
        × (all_events q ≡ all_events q')
        × (empty_buffer q'.active_buf ≡ true)
        × (empty_buffer q'.standby_buf ≡ empty_buffer q.standby_buf)
  unfolding pop
  pop-none q v h =
      let (v', f) = pop_lem q v in
      (
        v',
        sym f ∙ ap (λ o. listed o ++ all_events (pop q).0) h,
        none_there q.active_buf v.active h,
        refl,
      )

  swap_done :
      (q : DoubleBuffer E)
      → (swap_buffer q).1 ≡ true
      → (empty_buffer q.standby_buf ≡ false) × ((swap_buffer q).0.standby_buf ≡ q.active_buf)
  unfolding swap_buffer
  swap_done q =
      if_intro
        (λ (x : DoubleBuffer E × Bool).
          x.1 ≡ true → (empty_buffer q.standby_buf ≡ false) × (x.0.standby_buf ≡ q.active_buf))
        (not (empty_buffer q.standby_buf)) (λ h _. (not-false (empty_buffer q.standby_buf) h, refl))
        (λ _ h. ground arith)

  swap_none : (q : DoubleBuffer E) → (swap_buffer q).1 ≡ false → empty_buffer q.standby_buf ≡ true
  unfolding swap_buffer
  swap_none q =
      if_intro (λ (x : DoubleBuffer E × Bool). x.1 ≡ false → empty_buffer q.standby_buf ≡ true)
        (not (empty_buffer q.standby_buf)) (λ _ h. ground arith)
        (λ h _. not-true (empty_buffer q.standby_buf) h)

  fewer_rounds :
      {n : ℕ} (q : DoubleBuffer E) (e : E)
      → all_events q ≡ e ∷ all_events (pop q).0
      → rounds q ≤ suc n
      → rounds (pop q).0 ≤ n
  unfolding rounds pop
  fewer_rounds q e f enough = omega (arith, ap length f)

  swap_rounds :
      {n : ℕ} (q q' : DoubleBuffer E)
      → all_events q' ≡ all_events q
      → empty_buffer q.standby_buf ≡ false
      → empty_buffer q'.standby_buf ≡ true
      → rounds q ≤ suc n
      → rounds q' ≤ n
  unfolding rounds
  swap_rounds q q' f = one_round_less (ap length f)

  no_rounds : (q : DoubleBuffer E) → rounds q ≤ 0 → ⊥
  unfolding rounds
  no_rounds q h = omega arith

  rounds_enough : {n : ℕ} (q : DoubleBuffer E) → length (all_events q) + 2 ≤ n → rounds q ≤ n
  unfolding rounds
  rounds_enough q = at_most_two (length (all_events q)) (empty_buffer q.standby_buf)

  none_at_all :
      (q : DoubleBuffer E)
      → IsSound q
      → empty_buffer q.active_buf ≡ true
      → empty_buffer q.standby_buf ≡ true
      → all_events q ≡ []
  unfolding all_events
  none_at_all q v a b =
      ap₂ (λ s t. s ++ t) (empty_events q.active_buf v.active a)
        (empty_events q.standby_buf v.standby b)

module _ {ℓ ℓ'} {E : Type ℓ} {H : Type ℓ'} where
  unfoldable pub handle_all : (E → H → H) → List E → H → H
  handle_all handle [] h = h
  handle_all handle (e ∷ es) h = handle_all handle es (handle e h)

  module _ (handle : E → H → H) (quits : E → Bool) where
    -- Of the events `es`, all up to the first that quits have been handled in order, from the state
    -- `h` on, and those behind it are what the queue holds.
    pub record Handled (es : List E) (h : H) (y : DoubleBuffer E × H) : Type (ℓ ⊔ ℓ') where
      pub sound : IsSound y.0
      pub state : y.1 ≡ handle_all handle (through quits es) h
      pub left : all_events y.0 ≡ behind quits es

    nothing_to_do :
        (es : List E) (h : H) (q : DoubleBuffer E)
        → IsSound q
        → es ≡ []
        → all_events q ≡ []
        → Handled es h (q, h)
    unfolding through behind handle_all
    nothing_to_do es h q v f g =
        subst (λ t. Handled t h (q, h)) (sym f) (record { sound = v; state = refl; left = g })

    quit_or_go :
        (e : E) (es : List E) (h : H) (q : DoubleBuffer E) (z : DoubleBuffer E × H)
        → IsSound q
        → all_events q ≡ es
        → Handled es (handle e h) z
        → Handled (e ∷ es) h (if quits e then (q, handle e h) else z)
    unfolding through behind handle_all
    quit_or_go e es h q z v f r = record {
      sound = if_intro (λ (y : DoubleBuffer E × H). IsSound y.0) (quits e) (λ _. v) (λ _. r.sound);
      state = state_at (quits e);
      left = left_at (quits e);
    }
      where
        state_at :
            (b : Bool)
            → (if b then (q, handle e h) else z).1
              ≡ handle_all handle (if b then [] else through quits es) (handle e h)
        state_at true = refl
        state_at false = r.state

        left_at :
            (b : Bool)
            → all_events (if b then (q, handle e h) else z).0 ≡ (if b then es else behind quits es)
        left_at true = f
        left_at false = r.left

    -- The rounds that are left do their work on every queue for which they are enough.
    abbrev Goes : ℕ → (DoubleBuffer E × H → DoubleBuffer E × H) → Type (ℓ ⊔ ℓ')
    Goes n again =
        (q : DoubleBuffer E) (h : H)
        → IsSound q
        → rounds q ≤ n
        → Handled (all_events q) h (again (q, h))

    after_pop-some :
        {n : ℕ} (again : DoubleBuffer E × H → DoubleBuffer E × H)
        → Goes n again
        → (q : DoubleBuffer E) (h : H) (e : E) → IsSound q
        → rounds q ≤ suc n
        → (pop q).1 ≡ some e
        → Handled (all_events q) h (after_pop handle quits again ((pop q).0, handle e h) (some e))
    unfolding after_pop
    after_pop-some {n} again go q h e v enough p =
        let (v', f) = pop-some q e v p in
        subst (λ es. Handled es h (after_pop handle quits again ((pop q).0, handle e h) (some e)))
          (sym f)
          (quit_or_go e (all_events (pop q).0) h (pop q).0 (again ((pop q).0, handle e h)) v' refl
            (go (pop q).0 (handle e h) v' (fewer_rounds q e f enough)))

    after_pop-none :
        {n : ℕ} (again : DoubleBuffer E × H → DoubleBuffer E × H)
        → Goes n again
        → (q : DoubleBuffer E) (h : H) → IsSound q
        → rounds q ≤ suc n
        → (pop q).1 ≡ none
        → Handled (all_events q) h (after_pop handle quits again ((pop q).0, h) none)
    unfolding after_pop
    after_pop-none {n} again go q h v enough p =
        let (v', f, a, b) = pop-none q v p in
        let (v2, g) = swap_lem (pop q).0 v' a in
        let s = swap_buffer (pop q).0 in
        subst (λ es. Handled es h (if s.1 then again (s.0, h) else (s.0, h))) (g ∙ sym f)
          (if_intro (λ (y : DoubleBuffer E × H). Handled (all_events s.0) h y) s.1
            (λ swapped.
              let (c, d) = swap_done (pop q).0 swapped in
              go s.0 h v2
                (swap_rounds q s.0 (g ∙ sym f) (sym b ∙ c) (ap empty_buffer d ∙ a) enough))
            (λ stays.
              let none_left = g ∙ none_at_all (pop q).0 v' a (swap_none (pop q).0 stays) in
              nothing_to_do (all_events s.0) h s.0 v2 none_left none_left))

    by_pop :
        {n : ℕ} (again : DoubleBuffer E × H → DoubleBuffer E × H)
        → Goes n again
        → (q : DoubleBuffer E) (h : H) → IsSound q
        → rounds q ≤ suc n
        → (o : Option E) → (pop q).1 ≡ o
        → Handled (all_events q) h (after_pop handle quits again ((pop q).0, handled handle o h) o)
    by_pop again go q h v enough none p = after_pop-none again go q h v enough p
    by_pop again go q h v enough (some e) p = after_pop-some again go q h e v enough p

    loop-Goes : (times : ℕ) → Goes times (loop handle quits times)
    unfolding loop pop_handling
    loop-Goes zero q h v enough = absurd (no_rounds q enough)
    loop-Goes (suc times) q h v enough =
        by_pop (λ y. loop handle quits times y) (loop-Goes times) q h v enough (pop q).1 refl

    -- The loop returns when it has handled every event up to the first that quits, in their order:
    -- the handler's state is what these events make of it, and the events behind stay in the queue.
    -- It must be given two rounds more than there are events.
    pub loop_lem :
        (times : ℕ) (q : DoubleBuffer E) (h : H)
        → IsSound q
        → length (all_events q) + 2 ≤ times
        → Handled (all_events q) h (loop handle quits times (q, h))
    loop_lem times q h v enough = loop-Goes times q h v (rounds_enough q enough)
