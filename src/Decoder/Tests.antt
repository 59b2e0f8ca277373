-- ===== src/Decoder/Tests.antt =====
-- The theorems about length fields at concrete inputs.
use zrsocket.Base.{◌+◌, ◌-◌, ◌^◌, ◌≡◌, arith}
use zrsocket.Decoder.Common.{
  little_endian, read_length_field_int8, read_length_field_int16_host,
  read_length_field_int16_network, read_length_field_int32_host, read_length_field_int32_network,
  write_length_field_int8, write_length_field_int16_host, write_length_field_int16_network,
  write_length_field_int32_host, write_length_field_int32_network, read-write_length_field,
  read_length_field_sign,
}

read-write_length_field_example :
    (read_length_field_int8 (write_length_field_int8 100) ≡ 100)
    × (read_length_field_int16_host little_endian (write_length_field_int16_host little_endian 1000)
        ≡ 1000)
    × (read_length_field_int16_network little_endian
          (write_length_field_int16_network little_endian 40000)
        ≡ 40000)
    × (read_length_field_int32_host little_endian
          (write_length_field_int32_host little_endian 3000000000)
        ≡ 3000000000)
    × (read_length_field_int32_network little_endian
          (write_length_field_int32_network little_endian 3000000000)
        ≡ 3000000000)
read-write_length_field_example =
    read-write_length_field little_endian 100 1000 40000 3000000000 (omega arith) (omega arith)
      (omega arith) (omega arith)

read_length_field_sign_example :
    (read_length_field_int8 (write_length_field_int8 200) ≡ 200 + 2 ^ 32 - 2 ^ 8)
    × (read_length_field_int16_host little_endian
          (write_length_field_int16_host little_endian 40000)
        ≡ 40000 + 2 ^ 32 - 2 ^ 16)
read_length_field_sign_example =
    read_length_field_sign little_endian 200 40000 (omega arith) (omega arith) (omega arith)
      (omega arith)
