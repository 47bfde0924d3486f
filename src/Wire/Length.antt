-- ===== src/Wire/Length.antt =====
-- The variable-length "remaining length" field: aws_iot_mqtt_internal_write_len_to_buffer,
-- aws_iot_mqtt_internal_decode_remaining_length_from_buffer and
-- aws_iot_mqtt_internal_get_final_packet_length_from_remaining_length of
-- arduino-esp32/AWS_IOT/src/aws_iot_mqtt_client_common_internal.c.
pub mod Encode
pub mod Decode
use hornbill_examples.Common.{
  ℕ, zero, suc, ◌+◌, ◌*◌, ◌/◌, ◌%◌, ◌^◌, ltb, ◌==◌, if◌then◌else◌, bit_and, bit_or, List, [], ◌∷◌,
}
use hornbill_examples.Errors.{Result, ok, err, fault, mqtt_decode_remaining_length_error, ◌>>=◌}
use hornbill_examples.Wire.{Cursor, write_char}

-- MAX_NO_OF_REMAINING_LENGTH_BYTES
abbrev pub max_no_of_remaining_length_bytes : ℕ
max_no_of_remaining_length_bytes = 4

-- The `do` loop on fuel; a fault stands for fuel that ran out.
unfoldable pub write_len_loop : ℕ → ℕ → Cursor → Result Cursor
write_len_loop zero n c = fault
write_len_loop (suc fuel) n c =
    let encoded_byte = n % 128 in
    let n' = n / 128 in
    write_char (if ltb 0 n' then bit_or encoded_byte 128 else encoded_byte) c >>= λ c'.
    let more = write_len_loop fuel n' c' in if ltb 0 n' then more else ok c'

-- `ptr += write_len_to_buffer(ptr, length)`. A uint32_t has five groups of seven bits at most.
unfoldable pub write_len_to_buffer : ℕ → Cursor → Result Cursor
write_len_to_buffer n c = write_len_loop 5 n c

-- What the decoder leaves in its output pointers.
pub record RemainingLength : Type 0 where
  pub decoded_len : ℕ
  pub read_bytes_len : ℕ

-- The `do` loop over the bytes from `buf` on; the arguments are its variables.
unfoldable pub decode_len_loop : List ℕ → ℕ → ℕ → ℕ → Result RemainingLength
decode_len_loop [] multiplier len decoded_len =
    if ltb max_no_of_remaining_length_bytes (len + 1)
    then err mqtt_decode_remaining_length_error
    else fault
decode_len_loop (encoded_byte ∷ buf) multiplier len decoded_len =
    let decoded_len' = (decoded_len + bit_and encoded_byte 127 * multiplier) % 2 ^ 32 in
    let more = decode_len_loop buf (multiplier * 128 % 2 ^ 32) (len + 1) decoded_len' in
    if ltb max_no_of_remaining_length_bytes (len + 1)
    then err mqtt_decode_remaining_length_error
    else (if bit_and encoded_byte 128 == 0
        then ok (record { decoded_len = decoded_len'; read_bytes_len = len + 1 })
        else more)

unfoldable pub decode_remaining_length_from_buffer : List ℕ → Result RemainingLength
decode_remaining_length_from_buffer buf = decode_len_loop buf 1 0 0

-- The room that a packet needs, by its remaining length: a uint32_t.
unfoldable pub get_final_packet_length_from_remaining_length : ℕ → ℕ
get_final_packet_length_from_remaining_length rem_len =
    let rem_len' = (rem_len + 1) % 2 ^ 32 in
    if ltb rem_len' 128
    then (rem_len' + 1) % 2 ^ 32
    else (if ltb rem_len' 16384
        then (rem_len' + 2) % 2 ^ 32
        else (if ltb rem_len' 2097152 then (rem_len' + 3) % 2 ^ 32 else (rem_len' + 4) % 2 ^ 32))
