-- ===== src/EventLoopGroup/Handlers.antt =====
-- EventLoopGroup::add_handler, and the groups that init makes.
use native.Mathlib.Nat.{mod-eq_of_lt}
use mathlib.Core.Path.{ap₂}
use zrsocket.Base.{
  ℕ, zero, suc, ◌+◌, ◌%◌, ◌≤◌, ◌<◌, ◌≡◌, ◌≢◌, inl, inr, refl, sym, ap, ◌∙◌, ℤ, pos, negsuc, Bool,
  false, ◌||◌, List, [], ◌∷◌, Bool-cases, if◌then◌else◌, arith,
}
use zrsocket.EventQueue.Slots.{mod_ne}
use zrsocket.EventLoopGroup.{Group, set_loop, accepted, try_loops, add_handler}
use zrsocket.EventLoopGroup.Turns.{
  IsValid, onward, assign_lem, onward-IsValid, in_turn, in_turn-mod, once_round, in_turn-once_round,
}

module _ {ℓ} {L : Type ℓ} (add : L → L × ℤ) where
  -- One of the loops at these indices takes the handler.
  abbrev pub some_accepts : (ℕ → L) → List ℕ → Bool
  some_accepts loops [] = false
  some_accepts loops (k ∷ ks) = accepted add (add (loops k)).1 || some_accepts loops ks

  abbrev pub result : Bool → ℤ
  result b = if b then pos 0 else negsuc 0

  -- A loop that is not asked again does not matter.
  some_accepts-set :
      (loops : ℕ → L) (size next n i : ℕ) (l : L)
      → next < i
      → i + n ≤ next + size
      → next < size
      → some_accepts (set_loop loops next l) (in_turn size n i)
        ≡ some_accepts loops (in_turn size n i)
  unfolding in_turn
  some_accepts-set loops size next zero i l lt near inside = refl
  some_accepts-set loops size next (suc n) i l lt near inside =
      ap₂ (λ x b. accepted add (add x).1 || b)
        (other (i % size)
          (λ e. mod_ne size next i (omega arith) lt (omega arith) (mod-eq_of_lt inside ∙ sym e)))
        (some_accepts-set loops size next n (suc i) l (omega arith) (omega arith) inside)
    where
      other : (j : ℕ) → j ≢ next → set_loop loops next l j ≡ loops j
      other j ne = ground arith

  -- The group after the loop at the next index has been asked.
  abbrev asked : Group L → Group L
  asked g = record (onward g) {
    loops = set_loop g.loops g.next_index (add (g.loops g.next_index)).0;
  }

  try_step :
      (n : ℕ) (g : Group L)
      → IsValid g
      → try_loops add (suc n) g ≡ (
          if accepted add (add (g.loops g.next_index)).1
          then (asked g, pos 0)
          else try_loops add n (asked g))
  unfolding try_loops
  try_step n g v = rw (assign_lem g v) refl

  turn_step :
      (n : ℕ) (g : Group L)
      → IsValid g
      → some_accepts g.loops (in_turn g.loops_size (suc n) g.next_index) ≡ (
          accepted add (add (g.loops g.next_index)).1
          || some_accepts g.loops (in_turn g.loops_size n (suc g.next_index)))
  unfolding in_turn
  turn_step n g v =
      ap
        (λ k.
          accepted add (add (g.loops k)).1
          || some_accepts g.loops (in_turn g.loops_size n (suc g.next_index)))
        (mod-eq_of_lt v.inside)

  try_loops_lem :
      (n : ℕ) (g : Group L)
      → IsValid g
      → n ≤ g.loops_size
      → (try_loops add n g).1 ≡ result (some_accepts g.loops (in_turn g.loops_size n g.next_index))
  unfolding try_loops in_turn
  try_loops_lem zero g v le = refl
  try_loops_lem (suc n) g v le =
      ap (λ r. r.1) (try_step n g v)
      ∙ elim (Bool-cases (accepted add (add (g.loops g.next_index)).1)) [
        | inl hit ↦ rw hit (sym (ap result (turn_step n g v ∙ ap (λ b. b || later) hit)))
        | inr miss ↦ rw miss (
            try_loops_lem n (asked g) (record { inside = (onward-IsValid g v).inside })
              (omega (arith, le))
            ∙ ap result (
                ap (some_accepts (asked g).loops) (
                  in_turn-mod g.loops_size n (g.next_index + 1)
                  ∙ ap (in_turn g.loops_size n) (omega arith))
                ∙ some_accepts-set g.loops g.loops_size g.next_index n (suc g.next_index)
                    (add (g.loops g.next_index)).0 (omega arith) (omega (arith, le)) v.inside
                ∙ sym (turn_step n g v ∙ ap (λ b. b || later) miss)))
      ]
    where
      later : Bool
      later = some_accepts g.loops (in_turn g.loops_size n (suc g.next_index))

  -- The loops at these indices are asked, one after the other, until one takes the handler.
  unfoldable pub asked_until : List ℕ → (ℕ → L) → ℕ → L
  asked_until [] loops = loops
  asked_until (k ∷ ks) loops =
      let r = add (loops k) in
      let loops' = set_loop loops k r.0 in
      let rest = asked_until ks loops' in if accepted add r.1 then loops' else rest

  try_loops-loops :
      (n : ℕ) (g : Group L)
      → IsValid g
      → n ≤ g.loops_size
      → (try_loops add n g).0.loops ≡ asked_until (in_turn g.loops_size n g.next_index) g.loops
  unfolding try_loops in_turn asked_until
  try_loops-loops zero g v le = refl
  try_loops-loops (suc n) g v le =
      ap (λ r. r.0.loops) (try_step n g v)
      ∙ elim (Bool-cases (accepted add (add (g.loops g.next_index)).1)) [
        | inl hit ↦ rw hit refl
        | inr miss ↦ rw miss (
            try_loops-loops n (asked g) (record { inside = (onward-IsValid g v).inside })
              (omega (arith, le))
            ∙ ap (λ ks. asked_until ks (asked g).loops)
                (in_turn-mod g.loops_size n (g.next_index + 1)
                  ∙ ap (in_turn g.loops_size n) (omega arith)))
      ]
      ∙ ap (λ k. asked_until (k ∷ in_turn g.loops_size n (suc g.next_index)) g.loops)
          (sym (mod-eq_of_lt v.inside))

  -- add_handler asks the loops in turn, each one once at most, beginning with the next one, until one
  -- takes the handler: the loops are then what asking them in that order makes of them. It returns
  -- 0 exactly if one of them takes the handler, and else -1. For a group with a loop whose next index is
  -- one of a loop, and whatever a loop that refuses does to itself.
  pub add_handler_lem :
      (g : Group L)
      → IsValid g
      → let round = once_round g.loops_size g.next_index in
        ((add_handler add g).0.loops ≡ asked_until round g.loops)
        × ((add_handler add g).1 ≡ result (some_accepts g.loops round))
  unfolding add_handler
  add_handler_lem g v = (
    try_loops-loops g.loops_size g v (omega arith)
        ∙ ap (λ ks. asked_until ks g.loops) (in_turn-once_round g.loops_size g.next_index v.inside),
    try_loops_lem g.loops_size g v (omega arith)
        ∙ ap (λ ks. result (some_accepts g.loops ks))
            (in_turn-once_round g.loops_size g.next_index v.inside),
  )
