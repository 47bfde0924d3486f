-- ===== src/Packet/Publish/RoundTrip.antt =====
-- deserialize_publish on the bytes that serialize_publish writes.
use hornbill_examples.Common.{
  ℕ, ◌+◌, ◌^◌, ◌≤◌, ◌<◌, ◌≡◌, sym, ap, ◌∙◌, arith, List, ◌++◌, length, length-append, leb→le,
  leb_of_le, if◌then◌else◌, Option, none, some, append_assoc, ◌==◌,
}
use hornbill_examples.Errors.{ok, if_ok}
use hornbill_examples.Wire.{Cursor}
use hornbill_examples.Wire.Reading.{read_uint16_t-uint16_bytes}
use hornbill_examples.Wire.Writing.{uint16_bytes}
use hornbill_examples.Wire.Header.{QoS, qos0, qos1, qos_code, header_byte, header_bits, Header}
use hornbill_examples.Wire.Length.Encode.{length-len_bytes}
use hornbill_examples.Packet.Frame.{frame, get_final_packet_length_ge}
use hornbill_examples.Packet.Publish.{
  serialize_publish, PublishFields, size_between, deserialize_publish,
}
use hornbill_examples.Packet.Publish.Serialize.{
  serialize_publish_lem, length-publish_body, publish_header, packet_id_bytes, publish_body,
}
use hornbill_examples.Packet.Publish.Body.{
  read_string_with_len_lem, read_behind_len, body_pos, deserialize_publish-frame,
}

publish_header-header_bits :
    (qos : QoS) (dup retained : ℕ)
    → header_bits (header_byte (publish_header qos dup retained)) ≡ publish_header qos dup retained
publish_header-header_bits qos dup retained = ground arith

abbrev id_field : QoS → ℕ → Option ℕ
id_field qos0 packet_id = none
id_field qos1 packet_id = some packet_id

read_behind_len-publish_body :
    (qos : QoS) (dup retained packet_id pos : ℕ) (topic_name payload rest : List ℕ)
    → packet_id < 65536
    → length topic_name < 65536
    → pos + length (publish_body qos packet_id topic_name payload) < 2 ^ 32
    → read_behind_len
        (publish_header qos dup retained)
        (record { pos = pos; rest = publish_body qos packet_id topic_name payload ++ rest })
        (pos + length (publish_body qos packet_id topic_name payload))
      ≡ ok (record {
        dup = if dup == 1 then 1 else 0;
        qos = qos_code qos;
        retained = if retained == 1 then 1 else 0;
        packet_id = id_field qos packet_id;
        topic_name = record {
          string = topic_name ++ ((packet_id_bytes qos packet_id ++ payload) ++ rest);
          string_len = length topic_name;
        };
        payload = payload ++ rest;
        payload_len = length payload;
      })
read_behind_len-publish_body qos0 dup retained packet_id pos topic_name payload rest hid ht hp =
    let found =
      read_string_with_len_lem topic_name (payload ++ rest) pos
        (pos + length (publish_body qos0 packet_id topic_name payload)) ht
        (omega (arith, length-append topic_name payload)) in
    let size : size_between (pos + 2 + length topic_name)
          (pos + length (publish_body qos0 packet_id topic_name payload))
        ≡ length payload =
      omega (arith, length-append topic_name payload) in
    rw (
      append_assoc topic_name payload rest,
      found,
      leb_of_le (pos + 2 + length topic_name)
          (pos + length (publish_body qos0 packet_id topic_name payload))
          (omega (arith, length-append topic_name payload)),
      size,
    )
read_behind_len-publish_body qos1 dup retained packet_id pos topic_name payload rest hid ht hp =
    let after = uint16_bytes packet_id ++ payload in
    let found =
      read_string_with_len_lem topic_name (after ++ rest) pos
        (pos + length (publish_body qos1 packet_id topic_name payload)) ht
        (omega (arith, length-append topic_name after)) in
    let size : size_between (pos + 2 + length topic_name + 2)
          (pos + length (publish_body qos1 packet_id topic_name payload))
        ≡ length payload =
      omega (arith, length-append topic_name after) in
    rw (
      append_assoc topic_name after rest,
      found,
      leb_of_le (pos + 2 + length topic_name)
          (pos + length (publish_body qos1 packet_id topic_name payload))
          (omega (arith, length-append topic_name after)),
      read_uint16_t-uint16_bytes packet_id (pos + 2 + length topic_name) (payload ++ rest) hid,
      size,
    )

-- What deserialize_publish should find in a buffer that holds a PUBLISH and then `rest`.
abbrev pub publish_fields : QoS → ℕ → ℕ → ℕ → List ℕ → List ℕ → List ℕ → PublishFields
publish_fields qos dup retained packet_id topic_name payload rest = record {
  dup = if dup == 1 then 1 else 0;
  qos = qos_code qos;
  retained = if retained == 1 then 1 else 0;
  packet_id = id_field qos packet_id;
  topic_name = record {
    string = topic_name ++ ((packet_id_bytes qos packet_id ++ payload) ++ rest);
    string_len = length topic_name;
  };
  payload = payload ++ rest;
  payload_len = length payload;
}

deserialize_publish-publish_frame :
    (qos : QoS) (dup retained packet_id rx_buf_len : ℕ) (topic_name payload rest : List ℕ)
    → 4 ≤ rx_buf_len
    → length topic_name < 65536
    → packet_id < 65536
    → length (publish_body qos packet_id topic_name payload) < 2 ^ 28
    → deserialize_publish
        (frame
            (header_byte (publish_header qos dup retained))
            (publish_body qos packet_id topic_name payload)
          ++ rest)
        rx_buf_len
      ≡ ok (publish_fields qos dup retained packet_id topic_name payload rest)
deserialize_publish-publish_frame qos dup retained id rx topic payload rest room ht hid short =
    let body = publish_body qos id topic payload in
    let bits = publish_header-header_bits qos dup retained in
    deserialize_publish-frame (header_byte (publish_header qos dup retained)) rx body rest room
      (ap (λ (h : Header). h.type) bits) short
    ∙ ap
        (λ (h : Header).
          read_behind_len h (record { pos = body_pos body; rest = body ++ rest })
            (body_pos body + length body))
        bits
    ∙ read_behind_len-publish_body qos dup retained id (body_pos body) topic payload rest hid ht
        (ground (arith, length-len_bytes (length body) short))

-- Whenever serialize_publish succeeds, deserialize_publish reads the same fields back from the
-- buffer that it filled: the flags, the packet id if the QoS has one, and the topic and the payload
-- with their lengths, whatever else the buffer holds behind the packet.
pub deserialize-serialize_publish :
    (buf : List ℕ) (tx_buf_len rx_buf_len dup : ℕ) (qos : QoS) (retained packet_id : ℕ)
    (topic_name payload : List ℕ) {c : Cursor}
    → tx_buf_len ≤ length buf
    → tx_buf_len ≤ 2 ^ 28
    → 4 ≤ rx_buf_len
    → length topic_name < 65536
    → packet_id < 65536
    → length topic_name + length payload + 16 < 2 ^ 32
    → serialize_publish
        (some buf)
        tx_buf_len
        dup
        qos
        retained
        packet_id
        topic_name
        (length topic_name)
        (some payload)
        (length payload)
      ≡ ok c
    → deserialize_publish (c.done ++ c.room) rx_buf_len
      ≡ ok (publish_fields qos dup retained packet_id topic_name payload c.room)
deserialize-serialize_publish buf tx rx dup qos retained id topic payload {c} fits small room ht hid
      short e =
    let body = publish_body qos id topic payload in
    let (enough, same) =
      if_ok _ _ (
        sym (serialize_publish_lem buf tx dup qos retained id topic payload fits small short)
        ∙ e) in
    rw (← same) (
      deserialize_publish-publish_frame qos dup retained id rx topic payload _ room ht hid (
        omega (
          arith,
          get_final_packet_length_ge (length body),
          length-publish_body qos id topic payload short,
          leb→le _ _ enough,
        )))
