-- ===== src/Packet/Subscribe.antt =====
-- SUBSCRIBE and SUBACK: _aws_iot_mqtt_serialize_subscribe and _aws_iot_mqtt_deserialize_suback of
-- arduino-esp32/AWS_IOT/src/aws_iot_mqtt_client_subscribe.c.
pub mod Serialize
pub mod Granted
use hornbill_examples.Common.{
  ℕ, zero, suc, ◌+◌, ◌-◌, ◌%◌, ◌^◌, ltb, leb, ◌==◌, if◌then◌else◌, List, [], ◌∷◌, Option, length,
}
use hornbill_examples.Errors.{
  Result, ok, err, failure, mqtt_tx_buffer_too_short_error, mqtt_rx_buffer_too_short_error, guard,
  require, ◌>>=◌, ◌>>◌,
}
use hornbill_examples.Wire.{
  Cursor, start, write_char, write_uint_16, write_utf8_string, Reader, reader, skip, read_char,
  read_uint16_t,
}
use hornbill_examples.Wire.Header.{
  QoS, qos1, qos_code, subscribe, init_header, header_byte, header_bits,
}
use hornbill_examples.Wire.Length.{
  write_len_to_buffer, decode_remaining_length_from_buffer,
  get_final_packet_length_from_remaining_length,
}

-- One entry of the parallel arrays pTopicNameList, pTopicNameLenList and pRequestedQoSs, which have
-- topicCount entries. The length of the name is that of the list.
pub record Request : Type 0 where
  pub topic_name : List ℕ
  pub requested_qos : QoS

-- The first loop, from `rem_len` on.
unfoldable pub subscribe_rem_len : List Request → ℕ → ℕ
subscribe_rem_len [] rem_len = rem_len
subscribe_rem_len (r ∷ requests) rem_len =
    subscribe_rem_len requests ((rem_len + (length r.topic_name + 2 + 1)) % 2 ^ 32)

-- The second loop.
unfoldable pub write_requests : List Request → Cursor → Result Cursor
write_requests [] c = ok c
write_requests (r ∷ requests) c = do
  after_topic ← write_utf8_string r.topic_name (length r.topic_name) c
  after_qos ← write_char (qos_code r.requested_qos) after_topic
  write_requests requests after_qos

unfoldable pub serialize_subscribe : Option (List ℕ) → ℕ → ℕ → ℕ → List Request → Result Cursor
serialize_subscribe tx_buf tx_buf_len dup packet_id requests = do
  buf ← require tx_buf
  let rem_len = subscribe_rem_len requests 2
  guard (leb (get_final_packet_length_from_remaining_length rem_len) tx_buf_len)
      mqtt_tx_buffer_too_short_error
  header ← init_header subscribe qos1 dup 0
  after_header ← write_char (header_byte header) (start buf)
  after_len ← write_len_to_buffer rem_len after_header
  after_id ← write_uint_16 packet_id after_len
  write_requests requests after_id

-- The `while(curData < endData)` loop: `left` is `endData - curData`, `count` is
-- `*pGrantedQoSCount`, and the cursor is at `pGrantedQoSs[count]`.
unfoldable pub read_granted : ℕ → ℕ → ℕ → Reader → Cursor → Result (ℕ × Cursor)
read_granted zero max_expected count r granted = ok (count, granted)
read_granted (suc left) max_expected count r granted =
    if ltb max_expected count
    then err failure
    else (read_char r >>= λ (code, r'). write_char code granted >>= λ granted'.
        read_granted left max_expected (count + 1) r' granted')

-- What the function leaves in its output pointers; the bytes before the cursor's pointer are the
-- codes that it stored in the array.
pub record SubackFields : Type 0 where
  pub packet_id : ℕ
  pub granted_count : ℕ
  pub granted_qoss : Cursor

-- `granted_qoss` is the caller's array. `endData - curData < 2` compares the decoded length; the
-- two bytes of the packet id are then behind `curData`.
unfoldable pub deserialize_suback : ℕ → List ℕ → List ℕ → ℕ → Result SubackFields
deserialize_suback max_expected granted_qoss rx_buf rx_buf_len = do
  guard (leb 5 rx_buf_len) mqtt_rx_buffer_too_short_error
  (byte, after_header) ← read_char (reader rx_buf)
  guard ((header_bits byte).type == 9) failure
  decoded ← decode_remaining_length_from_buffer after_header.rest
  let after_len = skip decoded.read_bytes_len after_header
  guard (leb 2 decoded.decoded_len) failure
  (packet_id, after_id) ← read_uint16_t after_len
  (count, granted) ←
      read_granted (decoded.decoded_len - 2) max_expected 0 after_id (start granted_qoss)
  ok (record { packet_id = packet_id; granted_count = count; granted_qoss = granted })
