-- ===== src/TimerList/Tests.antt =====
-- A run on a SedaTimerList, and the witness of its refinement.
use zrsocket.Base.{◌≡◌, refl, List, [], ◌∷◌, arith}
use zrsocket.TimerList.{
  Links, TimerList, init, push_back, push_front, pop_front, remove, insert_before, insert_after,
  shrink, detach, off_front, off_back,
}
use zrsocket.TimerList.Model.{Rep}
use zrsocket.TimerList.Refines.{
  Op, back_in, front_in, after, before, out, front_out, apply, apply_all, Meaning, done, step,
  pushes_back, pushes_front, comes_after, comes_before, goes, pops_front, apply_all-Means,
}

-- `head_` is timer 0.
abbrev list : TimerList
list = record { head = 0; size = 7 }

abbrev links : Links
links = record { prev = λ p. 9; next = λ p. 9 }

abbrev calls : List Op
calls = back_in 1 ∷ front_in 2 ∷ after 2 3 ∷ before 2 4 ∷ out 3 ∷ front_out ∷ []

calls_means : Meaning 0 calls [] (2 ∷ 1 ∷ [])
calls_means = step (pushes_back refl refl (omega arith)) (
    step (pushes_front refl refl (omega arith)) (
      step (comes_after [] (1 ∷ []) refl refl (omega arith)) (
        step (comes_before [] (3 ∷ 1 ∷ []) refl refl (omega arith))
          (step (goes 3 (4 ∷ 2 ∷ []) (1 ∷ [])) (step (pops_front 4 (2 ∷ 1 ∷ [])) done)))))

calls_size : (apply_all calls (init list links).0 (init list links).1).0.size ≡ 2
unfolding apply_all apply init push_back push_front insert_after insert_before remove pop_front
    shrink detach off_front off_back
calls_size = refl

apply_all-Means_example :
    Rep
      (apply_all calls (init list links).0 (init list links).1).0
      (apply_all calls (init list links).0 (init list links).1).1
      (2 ∷ 1 ∷ [])
apply_all-Means_example = apply_all-Means list links calls (2 ∷ 1 ∷ []) calls_means
