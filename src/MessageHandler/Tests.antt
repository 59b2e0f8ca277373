-- ===== src/MessageHandler/Tests.antt =====
-- The theorems about the send queues at concrete inputs.
use zrsocket.Base.{ℕ, ◌≡◌, inl, inr, refl, Bool, true, false, [], ◌∷◌, ◌++◌, Memory, arith, copy_to}
use zrsocket.ByteBuffer.{ByteBuffer}
use zrsocket.MessageHandler.{
  ErrorIds, Reply, Connection, send, take_standby, handle_write, gathered,
}
use zrsocket.MessageHandler.Queues.{IsQueued}
use zrsocket.MessageHandler.Stream.{IsSound, stream, taken, send_lem}
use zrsocket.MessageHandler.Writes.{Handles, handle_write_lem}

abbrev ids : ErrorIds
ids = record { again = 11; would_block = 11; io_pending = 11; no_buffers = 105 }

abbrev unlimited : ℕ → Bool
unlimited _ = true

abbrev fresh : Memory
fresh _ = 0

abbrev idle : Connection
idle = record {
  queue_active = [];
  queue_standby = [];
  last_error = 0;
  write_event = false;
  deleted = false;
  wire = [];
}

idle-IsSound : IsSound idle
idle-IsSound = record { active = _; standby = _; registered = inr (refl, refl) }

abbrev answers : ℕ → Reply
answers n = record { send_bytes = n; error_id = 0; unregisters = true }

send_lem_example :
    let (c', ret) = send ids unlimited fresh (1 ∷ 2 ∷ 3 ∷ []) true (answers 2) idle in
    IsSound c' × (stream c' ≡ stream idle ++ taken ret (1 ∷ 2 ∷ 3 ∷ []))
send_lem_example =
    send_lem ids unlimited (λ _. refl) fresh (1 ∷ 2 ∷ 3 ∷ []) true (answers 2) idle idle-IsSound
      (omega arith) (inl (omega arith, omega arith))

abbrev message : ByteBuffer
message = record {
  cells = copy_to (λ _. 9) 1 (5 ∷ 6 ∷ 7 ∷ []);
  buffer_size = 4;
  data_begin_index = 1;
  data_end_index = 4;
  owner = true;
}

message-IsQueued : IsQueued message
message-IsQueued = record {
  valid = record { ordered = omega arith; inside = omega arith; word = omega arith };
  owned = refl;
}

-- The message stands in the queue that is not being sent from.
abbrev one_waits : Connection
one_waits = record idle { queue_standby = message ∷ []; write_event = true }

one_waits-IsSound : IsSound one_waits
one_waits-IsSound = record { active = _; standby = (message-IsQueued, _); registered = inl refl }

handle_write_lem_example : Handles one_waits (handle_write ids 8 (answers 2) one_waits)
unfolding gathered
handle_write_lem_example =
    handle_write_lem ids 8 (answers 2) one_waits one_waits-IsSound (omega arith)

-- Two sends, of which the first is taken in part, then a write.
abbrev sent_twice : Connection
sent_twice =
    (send ids unlimited fresh (4 ∷ 5 ∷ []) true (answers 2)
      (send ids unlimited fresh (1 ∷ 2 ∷ 3 ∷ []) true (answers 2) idle).0).0

-- Then an error that is not transient, after which the handler is deleted.
abbrev breaks_off : Reply
breaks_off = record { send_bytes = 0; error_id = 104; unregisters = true }

abbrev swapped_once : Connection
swapped_once = (take_standby (record sent_twice { write_event = false })).0
