-- ===== src/Decoder/FixedLength/Tests.antt =====
-- Runs of the decoder, and the theorems about it at concrete inputs.
use zrsocket.Base.{
  ℕ, ◌≡◌, refl, Bool, true, false, ◌⊎◌, Option, none, some, List, [], ◌∷◌, ltb, arith, copy_to,
  update,
}
use zrsocket.ByteBuffer.{ByteBuffer, write, reset}
use zrsocket.Decoder.FixedLength.{
  Handler, Result, ok, failed, decode, deliver, complete, completed, keep_rest,
}
use zrsocket.Decoder.FixedLength.Loop.{IsReady}
use zrsocket.Decoder.FixedLength.Refines.{Decodes, decode_feeds_fixed}
use zrsocket.Decoder.FixedLength.Pieces.{SameInPieces, decode_pieces_fixed}

-- A subclass that lists what it is given, and refuses a message that begins with 0.
abbrev record_message : List ℕ → List (List ℕ) → List (List ℕ) × Bool
record_message [] seen = (seen, true)
record_message (c ∷ m) seen = ((c ∷ m) ∷ seen, ltb 0 c)

abbrev unlimited : ℕ → Bool
unlimited _ = true

abbrev fresh_buffer : ByteBuffer
fresh_buffer = record {
  cells = λ _. 0;
  buffer_size = 4;
  data_begin_index = 0;
  data_end_index = 0;
  owner = true;
}

abbrev fresh_handler : Handler (List (List ℕ))
fresh_handler = record { message_buffer = fresh_buffer; closing = false; app = [] }

abbrev one_held : Handler (List (List ℕ))
one_held = record fresh_handler {
  message_buffer = record fresh_buffer { cells = λ _. 7; data_end_index = 1 };
}

one_held-IsReady : IsReady record_message unlimited 3 (omega arith) (7 ∷ []) one_held
one_held-IsReady = record {
  held = record {
    start = refl;
    end = refl;
    bytes = refl;
    owned = refl;
    fits = omega arith;
    room = omega arith;
    word = omega arith;
  };
  partial = omega arith;
  in_word = omega arith;
}

decode_feeds_fixed_example :
    Decodes record_message unlimited 3 (omega arith) (7 ∷ []) (8 ∷ 9 ∷ 1 ∷ 2 ∷ 3 ∷ 4 ∷ []) one_held
decode_feeds_fixed_example =
    decode_feeds_fixed record_message unlimited 3 (omega arith) (7 ∷ [])
      (8 ∷ 9 ∷ 1 ∷ 2 ∷ 3 ∷ 4 ∷ []) one_held one_held-IsReady

-- The handler that a call leaves.
abbrev left_by : Option (Handler (List (List ℕ)) × Result) → Handler (List (List ℕ))
left_by none = fresh_handler
left_by (some out) = out.0

abbrev feed : Handler (List (List ℕ)) → List ℕ → Option (Handler (List (List ℕ)) × Result)
feed = decode record_message unlimited 3

abbrev held_then : Handler (List (List ℕ))
held_then = left_by (feed one_held (8 ∷ []))

decode_pieces_fixed_example :
    (first : Handler (List (List ℕ))) × (result : Result) × (feed one_held (8 ∷ [])
      ≡ some (first, result))
    × (((result ≡ failed) × (first.closing ≡ true))
        ⊎ ((result ≡ ok)
            × SameInPieces record_message unlimited 3
                (omega arith)
                (8 ∷ [])
                (9 ∷ 1 ∷ [])
                one_held
                first))
decode_pieces_fixed_example =
    decode_pieces_fixed record_message unlimited 3 (omega arith) (7 ∷ []) (8 ∷ []) (9 ∷ 1 ∷ [])
      one_held one_held-IsReady

seen_in_order :
    (left_by (feed one_held (8 ∷ 9 ∷ 1 ∷ 2 ∷ 3 ∷ 4 ∷ []))).app
    ≡ (1 ∷ 2 ∷ 3 ∷ []) ∷ (7 ∷ 8 ∷ 9 ∷ []) ∷ []
unfolding decode deliver complete completed keep_rest write reset copy_to update
seen_in_order = refl
