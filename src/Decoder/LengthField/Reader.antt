-- ===== src/Decoder/LengthField/Reader.antt =====
-- The reader of length fields that `update` chooses.
use zrsocket.Base.{ℕ, ◌^◌, ◌<◌, ◌≡◌, ◌⊎◌, inl, inr, refl, List, ◌==◌, if◌then◌else◌, arith}
use zrsocket.Decoder.Common.{
  ByteOrder, little_endian, big_endian, byte_at, load16, load32, store16, store32, sign_extend,
  read_length_field_int8, read_length_field_int16_host, read_length_field_int16_network,
  read_length_field_int32_host, read_length_field_int32_network,
}
use zrsocket.Decoder.LengthField.{Config, known_order, update, chosen_proc, network_proc, host_proc}

-- The number that a field of n bytes holds in a byte order; a width that is not 1 or 4 counts as 2.
unfoldable pub field_value : ByteOrder → ℕ → List ℕ → ℕ
field_value order n s =
    if n == 1 then byte_at s 0 else if n == 4 then load32 order s else load16 order s

-- The numbers below which a field of n bytes is not taken for a negative one.
unfoldable pub field_limit : ℕ → ℕ
field_limit n = if n == 1 then 2 ^ 7 else if n == 4 then 2 ^ 32 else 2 ^ 15

module _ (s : List ℕ) (bytes : (i : ℕ) → byte_at s i < 256) where
  network16_lem : (host : ByteOrder) → read_length_field_int16_network host s ≡ load16 big_endian s
  unfolding read_length_field_int16_network load16 store16
  network16_lem little_endian = omega (arith, bytes 0, bytes 1)
  network16_lem big_endian = omega (arith, bytes 0, bytes 1)

  network32_lem : (host : ByteOrder) → read_length_field_int32_network host s ≡ load32 big_endian s
  unfolding read_length_field_int32_network load32 store32
  network32_lem little_endian = omega (arith, bytes 0, bytes 1, bytes 2, bytes 3)
  network32_lem big_endian = omega (arith, bytes 0, bytes 1, bytes 2, bytes 3)

  int8_lem : byte_at s 0 < 2 ^ 7 → read_length_field_int8 s ≡ byte_at s 0
  unfolding read_length_field_int8 sign_extend
  int8_lem h = ground arith

  host16_lem :
      (host : ByteOrder)
      → load16 host s < 2 ^ 15
      → read_length_field_int16_host host s ≡ load16 host s
  unfolding read_length_field_int16_host sign_extend
  host16_lem host h = ground arith

  host32_lem : (host : ByteOrder) → read_length_field_int32_host host s ≡ load32 host s
  unfolding read_length_field_int32_host
  host32_lem host = refl

  network_proc_lem :
      (host : ByteOrder) (n : ℕ)
      → field_value big_endian n s < field_limit n
      → network_proc host n s ≡ field_value big_endian n s
  unfolding network_proc field_value field_limit
  network_proc_lem host n h = ground (arith, int8_lem, network16_lem host, network32_lem host)

  host_proc_lem :
      (host : ByteOrder) (n : ℕ)
      → field_value host n s < field_limit n
      → host_proc host n s ≡ field_value host n s
  unfolding host_proc field_value field_limit
  host_proc_lem host n h = ground (arith, int8_lem, host16_lem host, host32_lem host)

  chosen_proc_lem :
      (host order : ByteOrder) (n : ℕ)
      → (order ≡ big_endian) ⊎ (order ≡ host)
      → field_value order n s < field_limit n
      → chosen_proc host n order s ≡ field_value order n s
  unfolding chosen_proc
  chosen_proc_lem host big_endian n known h = network_proc_lem host n h
  chosen_proc_lem little_endian little_endian n known h = host_proc_lem little_endian n h
  chosen_proc_lem big_endian little_endian n known h = elim known [ inl e ↦ cc | inr e ↦ cc ]

-- The reader that `update` chooses gives the number that the length field holds in the byte order
-- configured, or in the machine's if none is, for a field of 1, 2 or 4 bytes (any other width is read
-- as 2 bytes). The byte order must be big-endian or the machine's own: on a big-endian machine a
-- little-endian field is read in the wrong order. The number must be one that the reader does not take
-- for a negative one: below 2^7 in one byte, 2^32 in four, 2^15 else.
pub update_lem :
    (host : ByteOrder) (c : Config) (s : List ℕ)
    → ((i : ℕ) → byte_at s i < 256)
    → (known_order host c.byte_order ≡ big_endian) ⊎ (known_order host c.byte_order ≡ host)
    → field_value (known_order host c.byte_order) c.length_field_length s
      < field_limit c.length_field_length
    → (update host c).read_length_field_proc s
      ≡ field_value (known_order host c.byte_order) c.length_field_length s
unfolding update
update_lem host c s bytes known h =
    chosen_proc_lem s bytes host (known_order host c.byte_order) c.length_field_length known h
