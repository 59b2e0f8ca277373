-- ===== src/Decoder/LengthField/Tests.antt =====
-- Runs of the decoder, and the theorems about it at concrete inputs.
use zrsocket.Base.{
  ◌++◌, ◌⊎◌, ◌<◌, ◌≡◌, zero, suc, ℕ, refl, inl, inr, Bool, true, false, some, List, [], ◌∷◌, arith,
}
use zrsocket.Framing.{Stuck, waits, accepts}
use zrsocket.Decoder.Common.{
  little_endian, big_endian, byte_at, load16, store16, read_length_field_int16_network,
}
use zrsocket.Decoder.LengthField.{
  Config, Handler, update, handle_open, decode, chosen_proc, network_proc,
}
use zrsocket.Decoder.LengthField.Refines.{
  IsConfig, IsReady, length_frame, frame_of, FeedsLength, Returns, decode_feeds,
}
use zrsocket.Decoder.LengthField.Total.{Decoded, decode_any}
use zrsocket.Decoder.LengthField.Reader.{field_value, field_limit, update_lem}
use zrsocket.Decoder.LengthField.Pieces.{
  update-IsConfig, handle_open-IsReady, SameInPieces, decode_pieces,
}

-- One byte in front, then a length of two bytes in network order; at most 8 bytes.
abbrev config : Config
config = update little_endian (record {
  length_field_offset = 1;
  length_field_length = 2;
  max_message_length = 8;
  byte_order = some big_endian;
  read_length_field_proc = λ _. 0;
  min_head_length = 0;
})

updated-IsConfig : IsConfig config
updated-IsConfig =
    update-IsConfig little_endian
      (record {
        length_field_offset = 1;
        length_field_length = 2;
        max_message_length = 8;
        byte_order = some big_endian;
        read_length_field_proc = λ _. 0;
        min_head_length = 0;
      })
      (omega arith) (omega arith) (omega arith)

-- A subclass that lists what it is given, and is content.
abbrev record_message : List ℕ → List (List ℕ) → List (List ℕ) × Bool
record_message m seen = (m ∷ seen, true)

abbrev unlimited : ℕ → Bool
unlimited _ = true

abbrev fresh_handler : Handler (List (List ℕ))
fresh_handler = record {
  message_buffer = record {
    cells = λ _. 0;
    buffer_size = 0;
    data_begin_index = 0;
    data_end_index = 0;
    owner = true;
  };
  message_length = 0;
  closing = false;
  app = [];
}

abbrev opened : Handler (List (List ℕ))
opened = handle_open record_message unlimited config (λ _. 0) fresh_handler

abbrev FeedsExample : List ℕ → List (List ℕ) → List ℕ → List (List ℕ) → Type 0
FeedsExample bytes seen rest seen' =
    FeedsLength record_message unlimited config updated-IsConfig bytes seen rest seen' true

opened-IsReady : IsReady config [] opened
opened-IsReady =
    handle_open-IsReady record_message unlimited config updated-IsConfig (λ _. 0) fresh_handler
      (record { ordered = omega arith; inside = omega arith; word = omega arith }) refl (inr refl)

feeds_part : FeedsExample (9 ∷ 0 ∷ []) [] (9 ∷ 0 ∷ []) []
unfolding length_frame frame_of update
feeds_part = waits refl

feeds_message :
    FeedsExample (9 ∷ 0 ∷ 5 ∷ 1 ∷ 2 ∷ 7 ∷ []) [] (7 ∷ []) ((9 ∷ 0 ∷ 5 ∷ 1 ∷ 2 ∷ []) ∷ [])
unfolding length_frame frame_of update chosen_proc network_proc read_length_field_int16_network
    load16 store16
feeds_message = accepts 5 refl refl (waits refl)

decode_feeds_example :
    Returns record_message unlimited config updated-IsConfig
      (7 ∷ [])
      ((9 ∷ 0 ∷ 5 ∷ 1 ∷ 2 ∷ []) ∷ [])
      true
      (decode record_message unlimited config opened (9 ∷ 0 ∷ 5 ∷ 1 ∷ 2 ∷ 7 ∷ []))
unfolding handle_open
decode_feeds_example =
    decode_feeds record_message unlimited config updated-IsConfig [] (9 ∷ 0 ∷ 5 ∷ 1 ∷ 2 ∷ 7 ∷ [])
      opened opened-IsReady feeds_message

decode_pieces_example :
    SameInPieces record_message unlimited config updated-IsConfig
      (9 ∷ 0 ∷ [])
      (5 ∷ 1 ∷ 2 ∷ 7 ∷ [])
      opened
      true
unfolding handle_open
decode_pieces_example =
    decode_pieces record_message unlimited config updated-IsConfig [] (9 ∷ 0 ∷ [])
      (5 ∷ 1 ∷ 2 ∷ 7 ∷ []) opened opened-IsReady feeds_part feeds_message

decode_any_example :
    Decoded record_message unlimited config updated-IsConfig (9 ∷ 0 ∷ 5 ∷ 1 ∷ 2 ∷ 7 ∷ []) opened []
    ⊎ Stuck record_message (length_frame config) ([] ++ 9 ∷ 0 ∷ 5 ∷ 1 ∷ 2 ∷ 7 ∷ []) opened.app
decode_any_example =
    decode_any record_message unlimited config updated-IsConfig [] (9 ∷ 0 ∷ 5 ∷ 1 ∷ 2 ∷ 7 ∷ [])
      opened opened-IsReady

-- The length 300 in network order.
abbrev length_bytes : List ℕ
length_bytes = 1 ∷ 44 ∷ []

length_bytes-small : (i : ℕ) → byte_at length_bytes i < 256
length_bytes-small zero = omega arith
length_bytes-small (suc zero) = omega arith
length_bytes-small (suc (suc i)) = omega arith

update_lem_example : config.read_length_field_proc length_bytes ≡ 300
unfolding field_value load16
update_lem_example =
    update_lem little_endian
      (record {
        length_field_offset = 1;
        length_field_length = 2;
        max_message_length = 8;
        byte_order = some big_endian;
        read_length_field_proc = λ _. 0;
        min_head_length = 0;
      })
      length_bytes length_bytes-small (inl refl) (unfold field_limit in omega arith)
