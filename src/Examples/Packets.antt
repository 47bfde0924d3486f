-- ===== src/Examples/Packets.antt =====
-- Concrete packets.
use hornbill_examples.Common.{
  ℕ, ◌+◌, leb, if◌then◌else◌, ◌≡◌, refl, arith, List, [], ◌∷◌, ◌++◌, some, length, replicate, codes,
}
use hornbill_examples.Errors.{ok, err, failure, mqtt_tx_buffer_too_short_error}
use hornbill_examples.Wire.{Cursor, start}
use hornbill_examples.Wire.Writing.{advance, uint16_bytes}
use hornbill_examples.Wire.Header.{qos0, qos1, publish, puback, Header, header_byte, init_header}
use hornbill_examples.Wire.Length.{
  decode_remaining_length_from_buffer, get_final_packet_length_from_remaining_length,
}
use hornbill_examples.Wire.Length.Encode.{len_bytes}
use hornbill_examples.Wire.Length.Decode.{
  decoded, decode_remaining_length_from_buffer_lem, decode_remaining_length-len_bytes,
}
use hornbill_examples.Packet.Frame.{frame}
use hornbill_examples.Packet.Publish.{serialize_publish, deserialize_publish}
use hornbill_examples.Packet.Publish.Serialize.{serialize_publish_lem, publish_body, publish_header}
use hornbill_examples.Packet.Publish.RoundTrip.{publish_fields, deserialize-serialize_publish}
use hornbill_examples.Packet.Ack.RoundTrip.{ack_header}
use hornbill_examples.Packet.Subscribe.{Request, deserialize_suback}
use hornbill_examples.Packet.Subscribe.Serialize.{topics_bytes}
use hornbill_examples.Packet.Subscribe.Granted.{deserialize_suback_lem}

abbrev room : List ℕ
room = replicate 32 0

abbrev topic : List ℕ
topic = codes "a/b"

abbrev payload : List ℕ
payload = codes "on"

abbrev publish_bits : Header
publish_bits = record { retain = 0; qos = 1; dup = 1; type = 3 }

publish_header_made : init_header publish qos1 1 0 ≡ ok publish_bits
unfolding init_header
publish_header_made = refl

decode_remaining_length_from_buffer_lem_example :
    decode_remaining_length_from_buffer (193 ∷ 2 ∷ 0 ∷ 0 ∷ []) ≡ decoded 321 2
decode_remaining_length_from_buffer_lem_example =
    decode_remaining_length_from_buffer_lem 193 2 0 0 [] (omega arith) (omega arith) (omega arith)
      (omega arith)

decode_remaining_length-len_bytes_example :
    decode_remaining_length_from_buffer (len_bytes 321 ++ topic)
    ≡ decoded 321 (length (len_bytes 321))
decode_remaining_length-len_bytes_example =
    decode_remaining_length-len_bytes 321 topic (omega arith)

serialize_publish_lem_example :
    serialize_publish (some room) 32 0 qos1 0 7 topic 3 (some payload) 2 ≡ (
      if leb
        (get_final_packet_length_from_remaining_length (length (publish_body qos1 7 topic payload)))
        32
      then ok (
          advance
            (start room)
            (frame (header_byte (publish_header qos1 0 0)) (publish_body qos1 7 topic payload)))
      else err mqtt_tx_buffer_too_short_error)
serialize_publish_lem_example =
    serialize_publish_lem room 32 0 qos1 0 7 topic payload (omega arith) (omega arith) (omega arith)

abbrev published : Cursor
published =
    advance (start room)
      (frame (header_byte (publish_header qos1 0 0)) (publish_body qos1 7 topic payload))

published_run : serialize_publish (some room) 32 0 qos1 0 7 topic 3 (some payload) 2 ≡ ok published
unfolding get_final_packet_length_from_remaining_length
published_run =
    serialize_publish_lem room 32 0 qos1 0 7 topic payload (omega arith) (omega arith) (omega arith)

deserialize-serialize_publish_example :
    deserialize_publish (published.done ++ published.room) 512
    ≡ ok (publish_fields qos1 0 0 7 topic payload published.room)
deserialize-serialize_publish_example =
    deserialize-serialize_publish room 32 512 0 qos1 0 7 topic payload (omega arith) (omega arith)
      (omega arith) (omega arith) (omega arith) (omega arith) published_run

abbrev acked : Cursor
acked = advance (start room) (frame (header_byte (ack_header puback 4 0)) (uint16_bytes 7))

abbrev requests : List Request
requests =
    record { topic_name = topic; requested_qos = qos1 }
    ∷ record { topic_name = codes "a/+"; requested_qos = qos0 }
    ∷ []

abbrev unsubscribe_packet_body : List ℕ
unsubscribe_packet_body = uint16_bytes 7 ++ topics_bytes (topic ∷ [])

abbrev granted_room : List ℕ
granted_room = 0 ∷ 0 ∷ 0 ∷ []

deserialize_suback_lem_example :
    deserialize_suback 1 granted_room (frame 144 (uint16_bytes 7 ++ (1 ∷ 1 ∷ [])) ++ payload) 512
    ≡ (if leb 2 (1 + 1)
        then ok (record {
          packet_id = 7;
          granted_count = 2;
          granted_qoss = advance (start granted_room) (1 ∷ 1 ∷ []);
        })
        else err failure)
deserialize_suback_lem_example =
    deserialize_suback_lem 144 512 7 1 (1 ∷ 1 ∷ []) payload granted_room (omega arith) refl
      (omega arith) (omega arith) (omega arith)
