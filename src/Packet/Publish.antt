-- ===== src/Packet/Publish.antt =====
-- PUBLISH packets: _aws_iot_mqtt_internal_serialize_publish, _aws_iot_mqtt_read_string_with_len and
-- aws_iot_mqtt_internal_deserialize_publish of
-- arduino-esp32/AWS_IOT/src/aws_iot_mqtt_client_publish.c.
-- A pointer that the code compares with NULL is an Option; the output pointers are the result.
pub mod Serialize
pub mod Body
pub mod RoundTrip
pub mod MissingId
use hornbill_examples.Common.{
  ℕ, ◌+◌, ◌-◌, ◌%◌, ◌^◌, ltb, leb, ◌==◌, if◌then◌else◌, List, Option, none, some, length,
}
use hornbill_examples.Errors.{
  Result, ok, err, failure, mqtt_tx_buffer_too_short_error, mqtt_rx_buffer_too_short_error, guard,
  require, ◌>>=◌, ◌>>◌,
}
use hornbill_examples.Wire.{
  Cursor, start, write_char, write_uint_16, memcpy, write_utf8_string, Reader, reader, skip,
  read_char, read_uint16_t,
}
use hornbill_examples.Wire.Header.{
  QoS, qos0, qos1, qos_code, publish, init_header, header_byte, header_bits,
}
use hornbill_examples.Wire.Length.{
  write_len_to_buffer, RemainingLength, decode_remaining_length_from_buffer,
  get_final_packet_length_from_remaining_length,
}

-- `rem_len`: the topic with its length, the payload, and the packet id if there is one.
abbrev pub publish_rem_len : QoS → ℕ → ℕ → ℕ
publish_rem_len qos topic_name_len payload_len =
    let rem_len = (topic_name_len + payload_len + 2) % 2 ^ 32 in
    if ltb 0 (qos_code qos) then (rem_len + 2) % 2 ^ 32 else rem_len

-- `if(qos > 0) write_uint_16(&ptr, packetId);`
abbrev pub write_packet_id : QoS → ℕ → Cursor → Result Cursor
write_packet_id qos packet_id c = if ltb 0 (qos_code qos) then write_uint_16 packet_id c else ok c

-- The bytes before the pointer of the result are the packet, so their number is `*pSerializedLen`.
unfoldable pub serialize_publish :
    Option (List ℕ) → ℕ → ℕ → QoS → ℕ → ℕ → List ℕ → ℕ → Option (List ℕ) → ℕ → Result Cursor
serialize_publish tx_buf tx_buf_len dup qos retained packet_id topic_name topic_name_len payload
      payload_len =
    do
      buf ← require tx_buf
      payload_bytes ← require payload
      let rem_len = publish_rem_len qos topic_name_len payload_len
      guard (leb (get_final_packet_length_from_remaining_length rem_len) tx_buf_len)
          mqtt_tx_buffer_too_short_error
      header ← init_header publish qos dup retained
      after_header ← write_char (header_byte header) (start buf)
      after_len ← write_len_to_buffer rem_len after_header
      after_topic ← write_utf8_string topic_name topic_name_len after_len
      after_id ← write_packet_id qos packet_id after_topic
      memcpy payload_bytes payload_len after_id

-- A string in the receive buffer: the bytes from its pointer on, and its length.
pub record BufferString : Type 0 where
  pub string : List ℕ
  pub string_len : ℕ

-- `enddata` is an offset in the buffer. On success the pointer stands behind the string.
unfoldable pub read_string_with_len : Reader → ℕ → Result (BufferString × Reader)
read_string_with_len r enddata = do
  guard (ltb (r.pos + 1) enddata) failure
  (string_len, r') ← read_uint16_t r
  guard (leb (r'.pos + string_len) enddata) failure
  ok (record { string = r'.rest; string_len = string_len }, skip string_len r')

-- What the function leaves in its output pointers. The packet id is written only for a QoS but 0.
pub record PublishFields : Type 0 where
  pub dup : ℕ
  pub qos : ℕ
  pub retained : ℕ
  pub packet_id : Option ℕ
  pub topic_name : BufferString
  pub payload : List ℕ
  pub payload_len : ℕ

-- `if(QOS0 != *qos) *pPacketId = read_uint16_t(&curData);`
abbrev pub read_packet_id : ℕ → Reader → Result (Option ℕ × Reader)
read_packet_id qos r =
    if qos == 0
    then ok (none, r)
    else (read_uint16_t r >>= λ (packet_id, r'). ok (some packet_id, r'))

-- `(size_t) (endData - curData)`, where size_t has 32 bits.
abbrev pub size_between : ℕ → ℕ → ℕ
size_between cur_data end_data = (end_data + 2 ^ 32 - cur_data) % 2 ^ 32

unfoldable pub deserialize_publish : List ℕ → ℕ → Result PublishFields
unfolding read_string_with_len
deserialize_publish rx_buf rx_buf_len = do
  guard (leb 4 rx_buf_len) mqtt_rx_buffer_too_short_error
  (byte, after_header) ← read_char (reader rx_buf)
  let header = header_bits byte
  guard (header.type == 3) failure
  decoded ← decode_remaining_length_from_buffer after_header.rest
  let after_len = skip decoded.read_bytes_len after_header
  let end_data = after_len.pos + decoded.decoded_len
  (topic_name, after_topic) ← read_string_with_len after_len end_data
  guard (leb after_topic.pos end_data) failure
  (packet_id, after_id) ← read_packet_id header.qos after_topic
  ok (record {
    dup = header.dup;
    qos = header.qos;
    retained = header.retain;
    packet_id = packet_id;
    topic_name = topic_name;
    payload = after_id.rest;
    payload_len = size_between after_id.pos end_data;
  })
