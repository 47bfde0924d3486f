-- ===== src/Packet/Ack.antt =====
-- Packets of a packet id alone, and of nothing: aws_iot_mqtt_internal_serialize_ack and
-- aws_iot_mqtt_internal_deserialize_ack of
-- arduino-esp32/AWS_IOT/src/aws_iot_mqtt_client_publish.c, and aws_iot_mqtt_internal_serialize_zero
-- of arduino-esp32/AWS_IOT/src/aws_iot_mqtt_client_common_internal.c.
pub mod RoundTrip
use hornbill_examples.Common.{ℕ, ltb, leb, List, Option}
use hornbill_examples.Errors.{
  Result, ok, failure, mqtt_tx_buffer_too_short_error, mqtt_rx_buffer_too_short_error, guard,
  require, ◌>>=◌, ◌>>◌,
}
use hornbill_examples.Wire.{
  Cursor, start, write_char, write_uint_16, reader, skip, read_char, read_uint16_t,
}
use hornbill_examples.Wire.Header.{
  MessageType, pubrel, QoS, qos0, qos1, init_header, header_byte, header_bits,
}
use hornbill_examples.Wire.Length.{write_len_to_buffer, decode_remaining_length_from_buffer}

-- `(PUBREL == msgType) ? QOS1 : QOS0`
abbrev pub request_qos : MessageType → QoS
request_qos pubrel = qos1
request_qos _ = qos0

unfoldable pub serialize_ack : Option (List ℕ) → ℕ → MessageType → ℕ → ℕ → Result Cursor
serialize_ack tx_buf tx_buf_len msg_type dup packet_id = do
  buf ← require tx_buf
  guard (leb 4 tx_buf_len) mqtt_tx_buffer_too_short_error
  header ← init_header msg_type (request_qos msg_type) dup 0
  after_header ← write_char (header_byte header) (start buf)
  after_len ← write_len_to_buffer 2 after_header
  write_uint_16 packet_id after_len

-- What the function leaves in its output pointers.
pub record AckFields : Type 0 where
  pub packet_type : ℕ
  pub dup : ℕ
  pub packet_id : ℕ

-- `enddata - curdata < 2` compares the decoded length, since `enddata` is `curdata + decodedLen`.
unfoldable pub deserialize_ack : Option (List ℕ) → ℕ → Result AckFields
deserialize_ack rx_buf rx_buf_len = do
  buf ← require rx_buf
  guard (leb 4 rx_buf_len) mqtt_rx_buffer_too_short_error
  (byte, after_header) ← read_char (reader buf)
  let header = header_bits byte
  decoded ← decode_remaining_length_from_buffer after_header.rest
  let after_len = skip decoded.read_bytes_len after_header
  guard (leb 2 decoded.decoded_len) failure
  (packet_id, _) ← read_uint16_t after_len
  ok (record { packet_type = header.type; dup = header.dup; packet_id = packet_id })

unfoldable pub serialize_zero : Option (List ℕ) → ℕ → MessageType → Result Cursor
serialize_zero tx_buf tx_buf_len packet_type = do
  buf ← require tx_buf
  guard (leb 4 tx_buf_len) mqtt_tx_buffer_too_short_error
  header ← init_header packet_type qos0 0 0
  after_header ← write_char (header_byte header) (start buf)
  write_len_to_buffer 0 after_header
