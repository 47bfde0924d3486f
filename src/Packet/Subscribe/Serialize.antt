-- ===== src/Packet/Subscribe/Serialize.antt =====
-- What serialize_subscribe and serialize_unsubscribe write.
use hornbill_examples.Common.{
  ℕ, ◌+◌, ◌%◌, ◌^◌, ◌≤◌, ◌<◌, ◌≡◌, arith, List, [], ◌∷◌, ◌++◌, length, length-append, leb,
  if◌then◌else◌, some, ◌==◌,
}
use hornbill_examples.Errors.{ok, err, mqtt_tx_buffer_too_short_error}
use hornbill_examples.Wire.{start}
use hornbill_examples.Wire.Writing.{
  Writes, Writes-bind, ok-Writes, advance, write_char-Writes, write_uint_16-Writes,
  write_utf8_string-Writes, uint16_bytes, utf8_bytes,
}
use hornbill_examples.Wire.Header.{qos_code, header_byte, Header, init_header}
use hornbill_examples.Wire.Length.{get_final_packet_length_from_remaining_length}
use hornbill_examples.Packet.Frame.{frame, write_frame_lem}
use hornbill_examples.Packet.Subscribe.{
  Request, subscribe_rem_len, write_requests, serialize_subscribe,
}
use hornbill_examples.Packet.Unsubscribe.{unsubscribe_rem_len, write_topics, serialize_unsubscribe}

-- The payload of a SUBSCRIBE: each topic filter with its length, and the requested QoS.
abbrev pub requests_bytes : List Request → List ℕ
requests_bytes [] = []
requests_bytes (r ∷ requests) =
    utf8_bytes r.topic_name ++ ((qos_code r.requested_qos ∷ []) ++ requests_bytes requests)

write_requests-Writes :
    (requests : List Request) → Writes (write_requests requests) (requests_bytes requests)
unfolding write_requests
write_requests-Writes [] = ok-Writes
write_requests-Writes (r ∷ requests) =
    Writes-bind (write_utf8_string-Writes r.topic_name)
      (Writes-bind (write_char-Writes (qos_code r.requested_qos)) (write_requests-Writes requests))

subscribe_rem_len-length :
    (requests : List Request) (rem_len : ℕ)
    → rem_len + length (requests_bytes requests) < 2 ^ 32
    → subscribe_rem_len requests rem_len ≡ rem_len + length (requests_bytes requests)
unfolding subscribe_rem_len
subscribe_rem_len-length [] rem_len h = omega arith
subscribe_rem_len-length (r ∷ requests) rem_len h = omega (
  arith,
  length-append r.topic_name (qos_code r.requested_qos ∷ requests_bytes requests),
  subscribe_rem_len-length requests ((rem_len + (length r.topic_name + 2 + 1)) % 2 ^ 32),
)

abbrev pub subscribe_header : ℕ → ℕ → Header
subscribe_header type dup = record {
  retain = 0;
  qos = 1;
  dup = if dup == 1 then 1 else 0;
  type = type;
}

abbrev pub subscribe_body : ℕ → List Request → List ℕ
subscribe_body packet_id requests = uint16_bytes packet_id ++ requests_bytes requests

-- For any list of requests whose bytes a uint32_t can count, and a buffer of at least the stated
-- size: where the packet length function finds that the room suffices, the buffer starts with the
-- SUBSCRIBE, header, packet id and requests in order, and is otherwise as it was; else the error is
-- returned before anything is written.
pub serialize_subscribe_lem :
    (buf : List ℕ) (tx_buf_len dup packet_id : ℕ) (requests : List Request)
    → tx_buf_len ≤ length buf
    → tx_buf_len ≤ 2 ^ 28
    → length (requests_bytes requests) + 16 < 2 ^ 32
    → let body = subscribe_body packet_id requests in
      serialize_subscribe (some buf) tx_buf_len dup packet_id requests ≡ (
        if leb (get_final_packet_length_from_remaining_length (length body)) tx_buf_len
        then ok (advance (start buf) (frame (header_byte (subscribe_header 8 dup)) body))
        else err mqtt_tx_buffer_too_short_error)
unfolding serialize_subscribe init_header
serialize_subscribe_lem buf tx_buf_len dup packet_id requests fits small short =
    let rem_len : subscribe_rem_len requests 2 ≡ length (subscribe_body packet_id requests) =
      omega (arith, subscribe_rem_len-length requests 2) in
    rw rem_len (
      write_frame_lem (header_byte (subscribe_header 8 dup)) tx_buf_len buf
        mqtt_tx_buffer_too_short_error {body = subscribe_body packet_id requests} (omega arith) fits
        small (Writes-bind (write_uint_16-Writes packet_id) (write_requests-Writes requests)))

-- The payload of an UNSUBSCRIBE: each topic filter with its length.
abbrev pub topics_bytes : List (List ℕ) → List ℕ
topics_bytes [] = []
topics_bytes (topic ∷ topics) = utf8_bytes topic ++ topics_bytes topics

write_topics-Writes : (topics : List (List ℕ)) → Writes (write_topics topics) (topics_bytes topics)
unfolding write_topics
write_topics-Writes [] = ok-Writes
write_topics-Writes (topic ∷ topics) =
    Writes-bind (write_utf8_string-Writes topic) (write_topics-Writes topics)

unsubscribe_rem_len-length :
    (topics : List (List ℕ)) (rem_len : ℕ)
    → rem_len + length (topics_bytes topics) < 2 ^ 32
    → unsubscribe_rem_len topics rem_len ≡ rem_len + length (topics_bytes topics)
unfolding unsubscribe_rem_len
unsubscribe_rem_len-length [] rem_len h = omega arith
unsubscribe_rem_len-length (topic ∷ topics) rem_len h = omega (
  arith,
  length-append topic (topics_bytes topics),
  unsubscribe_rem_len-length topics ((rem_len + (length topic + 2)) % 2 ^ 32),
)

-- For any list of topic filters whose bytes a uint32_t can count, and a buffer of at least the stated
-- size: where the packet length function finds that the room suffices, the buffer starts with the
-- UNSUBSCRIBE, header, packet id and filters in order, and is otherwise as it was; else the error is
-- returned before anything is written.
pub serialize_unsubscribe_lem :
    (buf : List ℕ) (tx_buf_len dup packet_id : ℕ) (topics : List (List ℕ))
    → tx_buf_len ≤ length buf
    → tx_buf_len ≤ 2 ^ 28
    → length (topics_bytes topics) + 16 < 2 ^ 32
    → let body = uint16_bytes packet_id ++ topics_bytes topics in
      serialize_unsubscribe buf tx_buf_len dup packet_id topics ≡ (
        if leb (get_final_packet_length_from_remaining_length (length body)) tx_buf_len
        then ok (advance (start buf) (frame (header_byte (subscribe_header 10 dup)) body))
        else err mqtt_tx_buffer_too_short_error)
unfolding serialize_unsubscribe init_header
serialize_unsubscribe_lem buf tx_buf_len dup packet_id topics fits small short =
    let body = uint16_bytes packet_id ++ topics_bytes topics in
    let rem_len : unsubscribe_rem_len topics 2 ≡ length body =
      omega (arith, unsubscribe_rem_len-length topics 2) in
    rw rem_len (
      write_frame_lem (header_byte (subscribe_header 10 dup)) tx_buf_len buf
        mqtt_tx_buffer_too_short_error {body = body} (omega arith) fits small
        (Writes-bind (write_uint_16-Writes packet_id) (write_topics-Writes topics)))
