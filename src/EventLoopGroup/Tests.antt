-- ===== src/EventLoopGroup/Tests.antt =====
-- A group of three loops, a loop being the number of handlers that it still takes.
use zrsocket.Base.{ℕ, zero, suc, ◌≡◌, refl, ℤ, pos, negsuc, arith}
use zrsocket.EventLoopGroup.{
  Group, assign_event_loop, assigned, add_loops, init, add_handler, try_loops,
}
use zrsocket.EventLoopGroup.Turns.{IsValid, once_round, assigned-once_round}
use zrsocket.EventLoopGroup.Handlers.{some_accepts, asked_until, result, add_handler_lem}

abbrev take_one : ℕ → ℕ × ℤ
take_one zero = (zero, negsuc 0)
take_one (suc n) = (n, pos 0)

-- Only loop 0 takes a handler.
abbrev loops : ℕ → ℕ
loops zero = 1
loops (suc _) = 0

abbrev three : Group ℕ
three = record { loops = loops; loops_size = 3; next_index = 1 }

three-IsValid : IsValid three
three-IsValid = record { inside = omega arith }

init_size :
    (init (λ i. 5) 0 (record { loops = loops; loops_size = 0; next_index = 0 })).loops_size ≡ 1
unfolding init add_loops
init_size = refl

takes : (add_handler take_one three).1 ≡ pos 0
unfolding add_handler try_loops assign_event_loop
takes = refl

assigned-once_round_example : assigned 3 three ≡ once_round 3 1
assigned-once_round_example = assigned-once_round three three-IsValid

add_handler_lem_example :
    ((add_handler take_one three).0.loops ≡ asked_until take_one (once_round 3 1) loops)
    × ((add_handler take_one three).1
        ≡ result take_one (some_accepts take_one loops (once_round 3 1)))
add_handler_lem_example = add_handler_lem take_one three three-IsValid
