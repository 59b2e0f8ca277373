-- ===== src/EventQueue/Concurrent/Tests.antt =====
-- An interleaved run: the consumer sees the first event while the second is being stored.
use zrsocket.Base.{ℕ, ◌≡◌, refl, List, [], ◌∷◌, arith}
use zrsocket.EventQueue.{put, rounded_capacity, power_from}
use zrsocket.EventQueue.Concurrent.{Turn, produce, consume, start, push_turn, pop_turn, turn, turns}
use zrsocket.EventQueue.Concurrent.Fifo.{Queued, turns-fifo}

abbrev interleaved : List (Turn ℕ)
interleaved =
    produce 7
    ∷ produce 7
    ∷ consume
    ∷ produce 7
    ∷ produce 8
    ∷ consume
    ∷ produce 8
    ∷ consume
    ∷ consume
    ∷ []

interleaved_run : (turns interleaved (start (λ i. 0) 2)).handled ≡ 7 ∷ []
unfolding turns turn push_turn pop_turn start rounded_capacity power_from put
interleaved_run = refl

turns-fifo_example : Queued (turns interleaved (start (λ i. 0) 2))
unfolding rounded_capacity power_from
turns-fifo_example = turns-fifo (λ i. 0) 2 3 interleaved (omega arith) (omega arith) (omega arith)
