-- ===== src/Packet/Publish/MissingId.antt =====
-- deserialize_publish on a packet that ends before its packet id.
use hornbill_examples.Common.{
  ℕ, ◌+◌, ◌-◌, ◌^◌, ◌≤◌, ◌<◌, ◌≡◌, ◌≢◌, ◌∙◌, arith, List, ◌++◌, length, leb_of_le, some, false,
  ◌==◌,
}
use hornbill_examples.Errors.{ok}
use hornbill_examples.Wire.Reading.{read_uint16_t-uint16_bytes}
use hornbill_examples.Wire.Writing.{uint16_bytes, utf8_bytes}
use hornbill_examples.Wire.Header.{header_bits}
use hornbill_examples.Wire.Length.Encode.{length-len_bytes}
use hornbill_examples.Packet.Frame.{frame}
use hornbill_examples.Packet.Publish.{size_between, deserialize_publish}
use hornbill_examples.Packet.Publish.Body.{
  read_string_with_len_lem, body_pos, deserialize_publish-frame,
}

-- A PUBLISH with a QoS above 0 whose remaining length ends with the topic, so that it has no packet
-- id, is accepted where two more bytes lie in the buffer: those bytes are taken for the packet id,
-- and the payload length wraps around to 2 ^ 32 - 2.
pub deserialize_publish-no_packet_id :
    (byte rx_buf_len packet_id : ℕ) (topic_name rest : List ℕ)
    → 4 ≤ rx_buf_len
    → (header_bits byte).type ≡ 3
    → (header_bits byte).qos ≢ 0
    → length topic_name < 65536
    → packet_id < 65536
    → deserialize_publish
        (frame byte (utf8_bytes topic_name) ++ (uint16_bytes packet_id ++ rest))
        rx_buf_len
      ≡ ok (record {
        dup = (header_bits byte).dup;
        qos = (header_bits byte).qos;
        retained = (header_bits byte).retain;
        packet_id = some packet_id;
        topic_name = record {
          string = topic_name ++ (uint16_bytes packet_id ++ rest);
          string_len = length topic_name;
        };
        payload = rest;
        payload_len = 2 ^ 32 - 2;
      })
deserialize_publish-no_packet_id byte rx id topic rest room type qos ht hid =
    let tail = uint16_bytes id ++ rest in
    let pos = body_pos (utf8_bytes topic) in
    let end_data = pos + length (utf8_bytes topic) in
    let off : ((header_bits byte).qos == 0) ≡ false = ground arith in
    let size : size_between (pos + 2 + length topic + 2) end_data ≡ 2 ^ 32 - 2 =
      omega (arith, length-len_bytes (length (utf8_bytes topic)) (omega arith)) in
    deserialize_publish-frame byte rx (utf8_bytes topic) tail room type (omega arith)
    ∙ rw (
      read_string_with_len_lem topic tail pos end_data ht (omega arith),
      leb_of_le (pos + 2 + length topic) end_data (omega arith),
      off,
      read_uint16_t-uint16_bytes id (pos + 2 + length topic) rest hid,
      size,
    )
