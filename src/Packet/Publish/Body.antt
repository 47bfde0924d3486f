-- ===== src/Packet/Publish/Body.antt =====
-- deserialize_publish behind the remaining length.
use hornbill_examples.Common.{
  ℕ, ◌+◌, ◌^◌, ◌≤◌, ◌<◌, ◌≡◌, refl, arith, List, ◌++◌, length, leb, leb_of_le, lt→ltb, append_assoc,
  drop-append,
}
use hornbill_examples.Errors.{Result, ok, failure, guard, ◌>>=◌, ◌>>◌}
use hornbill_examples.Wire.{Reader}
use hornbill_examples.Wire.Reading.{read_uint16_t-uint16_bytes, read_char_lem, skip-append}
use hornbill_examples.Wire.Writing.{utf8_bytes}
use hornbill_examples.Wire.Header.{header_bits, Header}
use hornbill_examples.Wire.Length.Encode.{len_bytes}
use hornbill_examples.Wire.Length.Decode.{decode_remaining_length-len_bytes}
use hornbill_examples.Packet.Frame.{frame}
use hornbill_examples.Packet.Publish.{
  read_string_with_len, PublishFields, read_packet_id, size_between, deserialize_publish,
}

-- A string that lies before `enddata` is found, and the pointer moves behind it.
pub read_string_with_len_lem :
    (s rest : List ℕ) (pos enddata : ℕ)
    → length s < 65536
    → pos + 2 + length s ≤ enddata
    → read_string_with_len (record { pos = pos; rest = utf8_bytes s ++ rest }) enddata
      ≡ ok (
        record { string = s ++ rest; string_len = length s },
        record { pos = pos + 2 + length s; rest = rest },
      )
unfolding read_string_with_len
read_string_with_len_lem s rest pos enddata short fits = rw (
  lt→ltb (pos + 1) enddata (omega arith),
  read_uint16_t-uint16_bytes (length s) pos (s ++ rest) short,
  leb_of_le (pos + 2 + length s) enddata fits,
  drop-append s rest,
)

-- What deserialize_publish does behind the remaining length.
abbrev pub read_behind_len : Header → Reader → ℕ → Result PublishFields
read_behind_len header after_len end_data = do
  (topic_name, after_topic) ← read_string_with_len after_len end_data
  guard (leb after_topic.pos end_data) failure
  (packet_id, after_id) ← read_packet_id header.qos after_topic
  ok (record {
    dup = header.dup;
    qos = header.qos;
    retained = header.retain;
    packet_id = packet_id;
    topic_name = topic_name;
    payload = after_id.rest;
    payload_len = size_between after_id.pos end_data;
  })

-- The offset of the body of a frame.
abbrev pub body_pos : List ℕ → ℕ
body_pos body = 1 + length (len_bytes (length body))

pub deserialize_publish-frame :
    (byte rx_buf_len : ℕ) (body rest : List ℕ)
    → 4 ≤ rx_buf_len
    → (header_bits byte).type ≡ 3
    → length body < 2 ^ 28
    → deserialize_publish (frame byte body ++ rest) rx_buf_len
      ≡ read_behind_len
          (header_bits byte)
          (record { pos = body_pos body; rest = body ++ rest })
          (body_pos body + length body)
unfolding deserialize_publish
deserialize_publish-frame byte rx_buf_len body rest room type short =
    rw
      (
        leb_of_le 4 rx_buf_len room,
        append_assoc (len_bytes (length body)) body rest,
        read_char_lem byte 0 (len_bytes (length body) ++ (body ++ rest)),
        type,
        decode_remaining_length-len_bytes (length body) (body ++ rest) short,
        skip-append (len_bytes (length body)) (body ++ rest) 1,
      )
      refl
