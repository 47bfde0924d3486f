-- ===== src/Packet/Publish/Serialize.antt =====
-- What serialize_publish writes: the packet in order, inside of the buffer.
use hornbill_examples.Common.{
  ℕ, ◌+◌, ◌^◌, ◌≤◌, ◌<◌, ◌≡◌, arith, List, [], ◌++◌, length, length-append, leb, if◌then◌else◌,
  some, ◌==◌,
}
use hornbill_examples.Errors.{Result, ok, err, ◌>>=◌, mqtt_tx_buffer_too_short_error}
use hornbill_examples.Packet.Frame.{frame, write_frame_lem}
use hornbill_examples.Wire.{Cursor, start, write_utf8_string, memcpy}
use hornbill_examples.Wire.Writing.{
  Writes, Writes-bind, ok-Writes, advance, write_uint_16-Writes, memcpy_whole-Writes,
  write_utf8_string-Writes, uint16_bytes, utf8_bytes,
}
use hornbill_examples.Wire.Header.{QoS, qos0, qos1, qos_code, header_byte, Header, init_header}
use hornbill_examples.Wire.Length.{get_final_packet_length_from_remaining_length}
use hornbill_examples.Packet.Publish.{publish_rem_len, write_packet_id, serialize_publish}

-- The fields of the header byte of a PUBLISH.
abbrev pub publish_header : QoS → ℕ → ℕ → Header
publish_header qos dup retained = record {
  retain = if retained == 1 then 1 else 0;
  qos = qos_code qos;
  dup = if dup == 1 then 1 else 0;
  type = 3;
}

abbrev pub packet_id_bytes : QoS → ℕ → List ℕ
packet_id_bytes qos0 packet_id = []
packet_id_bytes qos1 packet_id = uint16_bytes packet_id

-- The body of a PUBLISH: the topic with its length, the packet id for QoS 1, and the payload.
abbrev pub publish_body : QoS → ℕ → List ℕ → List ℕ → List ℕ
publish_body qos packet_id topic_name payload =
    utf8_bytes topic_name ++ (packet_id_bytes qos packet_id ++ payload)

write_packet_id-Writes :
    (qos : QoS) (packet_id : ℕ)
    → Writes (write_packet_id qos packet_id) (packet_id_bytes qos packet_id)
write_packet_id-Writes qos0 packet_id = ok-Writes
write_packet_id-Writes qos1 packet_id = write_uint_16-Writes packet_id

publish_rem_len-length :
    (qos : QoS) (packet_id : ℕ) (topic_name payload : List ℕ)
    → length topic_name + length payload + 16 < 2 ^ 32
    → publish_rem_len qos (length topic_name) (length payload)
      ≡ length (publish_body qos packet_id topic_name payload)
publish_rem_len-length qos0 packet_id topic_name payload h =
    omega (arith, length-append topic_name payload)
publish_rem_len-length qos1 packet_id topic_name payload h =
    omega (arith, length-append topic_name (uint16_bytes packet_id ++ payload))

pub length-publish_body :
    (qos : QoS) (packet_id : ℕ) (topic_name payload : List ℕ)
    → length topic_name + length payload + 16 < 2 ^ 32
    → length (publish_body qos packet_id topic_name payload) + 8 < 2 ^ 32
length-publish_body qos0 packet_id topic_name payload h =
    omega (arith, length-append topic_name payload)
length-publish_body qos1 packet_id topic_name payload h =
    omega (arith, length-append topic_name (uint16_bytes packet_id ++ payload))

abbrev write_publish_body : QoS → ℕ → List ℕ → List ℕ → Cursor → Result Cursor
write_publish_body qos packet_id topic_name payload c = do
  after_topic ← write_utf8_string topic_name (length topic_name) c
  after_id ← write_packet_id qos packet_id after_topic
  memcpy payload (length payload) after_id

write_publish_body-Writes :
    (qos : QoS) (packet_id : ℕ) (topic_name payload : List ℕ)
    → Writes
        (write_publish_body qos packet_id topic_name payload)
        (publish_body qos packet_id topic_name payload)
write_publish_body-Writes qos packet_id topic_name payload =
    Writes-bind (write_utf8_string-Writes topic_name)
      (Writes-bind (write_packet_id-Writes qos packet_id) (memcpy_whole-Writes payload))

-- For a topic and a payload whose lengths fit the lengths that are passed, and a buffer of at least
-- the stated size: where the packet length function finds that the room suffices, the bytes of the
-- PUBLISH stand at the start of the buffer, the pointer behind them, and the rest of the buffer is
-- as it was; otherwise the error is returned before anything is written. No write is out of bounds.
pub serialize_publish_lem :
    (buf : List ℕ) (tx_buf_len dup : ℕ) (qos : QoS) (retained packet_id : ℕ)
    (topic_name payload : List ℕ)
    → tx_buf_len ≤ length buf
    → tx_buf_len ≤ 2 ^ 28
    → length topic_name + length payload + 16 < 2 ^ 32
    → let body = publish_body qos packet_id topic_name payload in
      serialize_publish
        (some buf)
        tx_buf_len
        dup
        qos
        retained
        packet_id
        topic_name
        (length topic_name)
        (some payload)
        (length payload)
      ≡ (if leb (get_final_packet_length_from_remaining_length (length body)) tx_buf_len
          then ok (advance (start buf) (frame (header_byte (publish_header qos dup retained)) body))
          else err mqtt_tx_buffer_too_short_error)
unfolding serialize_publish init_header
serialize_publish_lem buf tx_buf_len dup qos retained packet_id topic_name payload fits small
      short =
    rw (publish_rem_len-length qos packet_id topic_name payload short) (
      write_frame_lem (header_byte (publish_header qos dup retained)) tx_buf_len buf
        mqtt_tx_buffer_too_short_error (length-publish_body qos packet_id topic_name payload short)
        fits small (write_publish_body-Writes qos packet_id topic_name payload))
