-- ===== src/Decoder/Common.antt =====
-- include/zrsocket/message_common.h: the length fields of messages, written and read.
-- `data` is the list of the bytes from the pointer on; a byte is below 256. The byte order of the
-- machine is a parameter, and a `char` is signed.
use zrsocket.Base.{
  ℕ, ◌+◌, ◌-◌, ◌*◌, ◌/◌, ◌%◌, ◌^◌, ◌≤◌, ◌<◌, ◌≡◌, List, [], ◌∷◌, get_or, ltb, if◌then◌else◌, arith,
}

pub data ByteOrder : Type 0 where
  little_endian big_endian : ByteOrder

abbrev pub byte_at : List ℕ → ℕ → ℕ
byte_at bytes i = get_or bytes i 0

-- A w-bit two's complement value as a uint_t.
unfoldable pub sign_extend : ℕ → ℕ → ℕ
sign_extend w v = if ltb v (2 ^ (w - 1)) then v else v + 2 ^ 32 - 2 ^ w

-- `*((int16_t *)data)` and `*((int32_t *)data)` as bit patterns.
unfoldable pub load16 : ByteOrder → List ℕ → ℕ
load16 little_endian s = byte_at s 0 + 256 * byte_at s 1
load16 big_endian s = 256 * byte_at s 0 + byte_at s 1

unfoldable pub load32 : ByteOrder → List ℕ → ℕ
load32 little_endian s =
    byte_at s 0 + 256 * byte_at s 1 + 65536 * byte_at s 2 + 16777216 * byte_at s 3
load32 big_endian s = 16777216 * byte_at s 0 + 65536 * byte_at s 1 + 256 * byte_at s 2 + byte_at s 3

-- `*((int16_t *)buf) = v` and `*((int32_t *)buf) = v`: the bytes stored.
unfoldable pub store16 : ByteOrder → ℕ → List ℕ
store16 little_endian v = v % 256 ∷ v / 256 % 256 ∷ []
store16 big_endian v = v / 256 % 256 ∷ v % 256 ∷ []

unfoldable pub store32 : ByteOrder → ℕ → List ℕ
store32 little_endian v = v % 256 ∷ v / 256 % 256 ∷ v / 65536 % 256 ∷ v / 16777216 % 256 ∷ []
store32 big_endian v = v / 16777216 % 256 ∷ v / 65536 % 256 ∷ v / 256 % 256 ∷ v % 256 ∷ []

-- ntohs, htons, ntohl, htonl: between the machine's order and the network's, which is big-endian.
abbrev network16 : ByteOrder → ℕ → ℕ
network16 order v = load16 big_endian (store16 order v)

abbrev network32 : ByteOrder → ℕ → ℕ
network32 order v = load32 big_endian (store32 order v)

unfoldable pub read_length_field_int8 : List ℕ → ℕ
unfolding sign_extend
read_length_field_int8 s = sign_extend 8 (byte_at s 0)

module _ (order : ByteOrder) where
  unfoldable pub read_length_field_int16_host : List ℕ → ℕ
  unfolding sign_extend
  read_length_field_int16_host s = sign_extend 16 (load16 order s)

  unfoldable pub read_length_field_int16_network : List ℕ → ℕ
  read_length_field_int16_network s = network16 order (load16 order s)

  unfoldable pub read_length_field_int32_host : List ℕ → ℕ
  read_length_field_int32_host s = load32 order s

  unfoldable pub read_length_field_int32_network : List ℕ → ℕ
  read_length_field_int32_network s = network32 order (load32 order s)

  unfoldable pub write_length_field_int16_host : ℕ → List ℕ
  write_length_field_int16_host n = store16 order (n % 2 ^ 16)

  unfoldable pub write_length_field_int16_network : ℕ → List ℕ
  write_length_field_int16_network n = store16 order (network16 order (n % 2 ^ 16))

  unfoldable pub write_length_field_int32_host : ℕ → List ℕ
  write_length_field_int32_host n = store32 order n

  unfoldable pub write_length_field_int32_network : ℕ → List ℕ
  write_length_field_int32_network n = store32 order (network32 order n)

unfoldable pub write_length_field_int8 : ℕ → List ℕ
write_length_field_int8 n = n % 256 ∷ []

-- A length that is written into a field and read back is the same length, on every machine, up to
-- the bound of the field: 7 and 15 bits where the reader extends a sign, 16 and 32 bits elsewhere.
pub read-write_length_field :
    (order : ByteOrder) (n7 n15 n16 n32 : ℕ)
    → n7 < 2 ^ 7
    → n15 < 2 ^ 15
    → n16 < 2 ^ 16
    → n32 < 2 ^ 32
    → (read_length_field_int8 (write_length_field_int8 n7) ≡ n7)
      × (read_length_field_int16_host order (write_length_field_int16_host order n15) ≡ n15)
      × (read_length_field_int16_network order (write_length_field_int16_network order n16) ≡ n16)
      × (read_length_field_int32_host order (write_length_field_int32_host order n32) ≡ n32)
      × (read_length_field_int32_network order (write_length_field_int32_network order n32) ≡ n32)
unfolding read_length_field_int8 read_length_field_int16_host read_length_field_int16_network
    read_length_field_int32_host read_length_field_int32_network write_length_field_int8
    write_length_field_int16_host write_length_field_int16_network write_length_field_int32_host
    write_length_field_int32_network load16 load32 store16 store32 sign_extend
read-write_length_field little_endian a b c d ha hb hc hd =
    (ground arith, ground arith, omega arith, omega arith, omega arith)
read-write_length_field big_endian a b c d ha hb hc hd =
    (ground arith, ground arith, omega arith, omega arith, omega arith)

-- A length of 2 ^ 7 and more in a field of one byte, or of 2 ^ 15 and more in a host field of two
-- bytes, is read as a length near 2 ^ 32.
pub read_length_field_sign :
    (order : ByteOrder) (n8 n16 : ℕ)
    → 2 ^ 7 ≤ n8
    → n8 < 2 ^ 8
    → 2 ^ 15 ≤ n16
    → n16 < 2 ^ 16
    → (read_length_field_int8 (write_length_field_int8 n8) ≡ n8 + 2 ^ 32 - 2 ^ 8)
      × (read_length_field_int16_host order (write_length_field_int16_host order n16)
          ≡ n16 + 2 ^ 32 - 2 ^ 16)
unfolding read_length_field_int8 read_length_field_int16_host write_length_field_int8
    write_length_field_int16_host load16 store16 sign_extend
read_length_field_sign little_endian a b ha ha' hb hb' = (ground arith, ground arith)
read_length_field_sign big_endian a b ha ha' hb hb' = (ground arith, ground arith)
