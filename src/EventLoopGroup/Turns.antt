-- ===== src/EventLoopGroup/Turns.antt =====
-- The loops in turn.
use native.Mathlib.Nat.{mod-lt, mod-eq_of_lt, mod_self, mod-mod, suc-mod}
use mathlib.Core.Path.{ap₂}
use zrsocket.Base.{
  ℕ, zero, suc, ◌+◌, ◌-◌, ◌%◌, ◌≤◌, ◌<◌, ◌≡◌, refl, sym, ap, ◌∙◌, List, [], ◌∷◌, ◌++◌, ltb, ltb→le,
  if_intro, arith,
}
use zrsocket.EventLoopGroup.{Group, assign_event_loop, assigned}

-- The loops from i on, in turn, round the end of the vector.
unfoldable pub in_turn : (size n i : ℕ) → List ℕ
in_turn size zero i = []
in_turn size (suc n) i = i % size ∷ in_turn size n (suc i)

-- i, i + 1, ..., i + n - 1
abbrev pub count_from : (i n : ℕ) → List ℕ
count_from i zero = []
count_from i (suc n) = i ∷ count_from (suc i) n

pub in_turn-mod : (size n i : ℕ) → in_turn size n (i % size) ≡ in_turn size n i
unfolding in_turn
in_turn-mod size zero i = refl
in_turn-mod size (suc n) i =
    ap₂ (λ k t. k ∷ t) (mod-mod i size)
      (sym (in_turn-mod size n (suc (i % size)))
        ∙ ap (λ k. in_turn size n k) (sym (suc-mod i size))
        ∙ in_turn-mod size n (suc i))

in_turn-add : (size a b i : ℕ) → in_turn size (a + b) i ≡ in_turn size a i ++ in_turn size b (i + a)
unfolding in_turn
in_turn-add size zero b i = ap₂ (in_turn size) (omega arith) (omega arith)
in_turn-add size (suc a) b i =
    ap (λ n. in_turn size n i) suc_add
    ∙ ap (λ t. i % size ∷ t)
        (in_turn-add size a b (suc i) ∙ ap (λ k. in_turn size a (suc i) ++ in_turn size b k) there)
  where
    suc_add : suc a + b ≡ suc (a + b)
    suc_add = omega arith

    there : suc i + a ≡ i + suc a
    there = omega arith

in_turn-count_from : (size n i : ℕ) → i + n ≤ size → in_turn size n i ≡ count_from i n
unfolding in_turn
in_turn-count_from size zero i h = refl
in_turn-count_from size (suc n) i h =
    ap₂ (λ k t. k ∷ t) (mod-eq_of_lt (omega arith))
      (in_turn-count_from size n (suc i) (omega arith))

-- Once round, beginning with loop i.
abbrev pub once_round : (size i : ℕ) → List ℕ
once_round size i = count_from i (size - i) ++ count_from 0 i

pub in_turn-once_round : (size i : ℕ) → i < size → in_turn size size i ≡ once_round size i
in_turn-once_round size i lt =
    ap (λ n. in_turn size n i) split
    ∙ in_turn-add size (size - i) i i
    ∙ ap₂ ◌++◌ (in_turn-count_from size (size - i) i (omega arith)) (
        ap (in_turn size i) end
        ∙ sym (in_turn-mod size i size)
        ∙ ap (in_turn size i) (mod_self size)
        ∙ in_turn-count_from size i 0 (omega arith))
  where
    split : size ≡ size - i + i
    split = omega arith

    end : i + (size - i) ≡ size
    end = omega arith

module _ {ℓ} {L : Type ℓ} where
  -- There is a loop, and the next index is one of a loop.
  pub record IsValid (g : Group L) : Type 0 where
    pub inside : g.next_index < g.loops_size

  -- The group after a call.
  abbrev pub onward : Group L → Group L
  onward g = record g { next_index = (g.next_index + 1) % g.loops_size }

  pub assign_lem : (g : Group L) → IsValid g → assign_event_loop g ≡ (onward g, g.next_index)
  unfolding assign_event_loop
  assign_lem g v =
      if_intro (λ p. p ≡ (onward g, g.next_index)) (ltb 1 g.loops_size) (λ more. refl)
        (λ one.
          ap₂ (λ k i. (record g { next_index = k }, i)) (alone (ltb→le _ _ one))
            (sym (first (ltb→le _ _ one))))
    where
      first : g.loops_size ≤ 1 → g.next_index ≡ 0
      first h = omega (arith, v.inside, h)

      single : g.loops_size ≤ 1 → g.loops_size ≡ 1
      single h = omega (arith, v.inside, h)

      alone : g.loops_size ≤ 1 → g.next_index ≡ (g.next_index + 1) % g.loops_size
      alone h = first h ∙ sym (ap₂ (λ a b. (a + 1) % b) (first h) (single h))

  pub onward-IsValid : (g : Group L) → IsValid g → IsValid (onward g)
  onward-IsValid g v = record { inside = mod-lt (g.next_index + 1) (omega (arith, v.inside)) }

  assigned-in_turn :
      (n : ℕ) (g : Group L) → IsValid g → assigned n g ≡ in_turn g.loops_size n g.next_index
  unfolding assigned in_turn
  assigned-in_turn zero g v = refl
  assigned-in_turn (suc n) g v = rw (assign_lem g v) (
      ap₂ (λ k t. k ∷ t) (sym (mod-eq_of_lt v.inside))
        (assigned-in_turn n (onward g) (onward-IsValid g v)
          ∙ in_turn-mod g.loops_size n (g.next_index + 1)
          ∙ ap (in_turn g.loops_size n) (omega arith)))

  -- As many calls of assign_event_loop as there are loops hand out every loop, each one once: from the
  -- next one on to the last, then from the first one on. For a group with a loop whose next index is
  -- one of a loop.
  pub assigned-once_round :
      (g : Group L) → IsValid g → assigned g.loops_size g ≡ once_round g.loops_size g.next_index
  assigned-once_round g v =
      assigned-in_turn g.loops_size g v ∙ in_turn-once_round g.loops_size g.next_index v.inside
