-- ===== src/Packet/Unsubscribe.antt =====
-- UNSUBSCRIBE and UNSUBACK: _aws_iot_mqtt_serialize_unsubscribe and
-- _aws_iot_mqtt_deserialize_unsuback of
-- arduino-esp32/AWS_IOT/src/aws_iot_mqtt_client_unsubscribe.c.
use hornbill_examples.Common.{ℕ, ◌+◌, ◌%◌, ◌^◌, leb, ◌==◌, List, [], ◌∷◌, Option, length}
use hornbill_examples.Errors.{
  Result, ok, failure, mqtt_tx_buffer_too_short_error, guard, ◌>>=◌, ◌>>◌,
}
use hornbill_examples.Wire.{Cursor, start, write_char, write_uint_16, write_utf8_string}
use hornbill_examples.Wire.Header.{qos1, unsubscribe, init_header, header_byte}
use hornbill_examples.Wire.Length.{
  write_len_to_buffer, get_final_packet_length_from_remaining_length,
}
use hornbill_examples.Packet.Ack.{deserialize_ack}

-- The first loop over pTopicNameLenList, from `rem_len` on.
unfoldable pub unsubscribe_rem_len : List (List ℕ) → ℕ → ℕ
unsubscribe_rem_len [] rem_len = rem_len
unsubscribe_rem_len (topic ∷ topics) rem_len =
    unsubscribe_rem_len topics ((rem_len + (length topic + 2)) % 2 ^ 32)

-- The second loop.
unfoldable pub write_topics : List (List ℕ) → Cursor → Result Cursor
write_topics [] c = ok c
write_topics (topic ∷ topics) c = do
  after_topic ← write_utf8_string topic (length topic) c
  write_topics topics after_topic

unfoldable pub serialize_unsubscribe : List ℕ → ℕ → ℕ → ℕ → List (List ℕ) → Result Cursor
serialize_unsubscribe buf tx_buf_len dup packet_id topics = do
  let rem_len = unsubscribe_rem_len topics 2
  guard (leb (get_final_packet_length_from_remaining_length rem_len) tx_buf_len)
      mqtt_tx_buffer_too_short_error
  header ← init_header unsubscribe qos1 dup 0
  after_header ← write_char (header_byte header) (start buf)
  after_len ← write_len_to_buffer rem_len after_header
  after_id ← write_uint_16 packet_id after_len
  write_topics topics after_id

-- The packet id of an UNSUBACK.
unfoldable pub deserialize_unsuback : Option (List ℕ) → ℕ → Result ℕ
deserialize_unsuback rx_buf rx_buf_len = do
  ack ← deserialize_ack rx_buf rx_buf_len
  guard (ack.packet_type == 11) failure
  ok ack.packet_id
