-- ===== src/Packet/Ack/RoundTrip.antt =====
-- What the two-byte and four-byte packets hold, and that an acknowledgement is read back.
use hornbill_examples.Common.{
  ℕ, ◌≤◌, ◌<◌, ◌≡◌, refl, sym, ap, ◌∙◌, arith, List, [], ◌++◌, length, leb, leb_of_le,
  if◌then◌else◌, some, ◌==◌, Bool-cases, inl, inr, leb→le,
}
use hornbill_examples.Errors.{ok, err, if_ok, mqtt_tx_buffer_too_short_error}
use hornbill_examples.Wire.{Cursor, start}
use hornbill_examples.Wire.Reading.{read_uint16_t-uint16_bytes, read_char_lem}
use hornbill_examples.Wire.Writing.{
  Writes-bind, write_char-Writes, uint16_bytes, advance, write_uint_16-Writes,
}
use hornbill_examples.Wire.Header.{
  MessageType, qos_code, Header, header_byte, header_bits, type_bits, init_header,
}
use hornbill_examples.Wire.Length.Encode.{len_bytes, write_len_to_buffer-Writes}
use hornbill_examples.Wire.Length.Decode.{decode_remaining_length-len_bytes}
use hornbill_examples.Packet.Frame.{frame, frame-Writes}
use hornbill_examples.Packet.Ack.{request_qos, serialize_ack, deserialize_ack, serialize_zero}

-- The header of a packet whose type nibble is `type`.
abbrev pub ack_header : MessageType → ℕ → ℕ → Header
ack_header msg_type type dup = record {
  retain = 0;
  qos = qos_code (request_qos msg_type);
  dup = if dup == 1 then 1 else 0;
  type = type;
}

-- For every message type but UNKNOWN: four bytes of room suffice, the packet is a header byte, the
-- length 2 and the packet id, and the rest of the buffer is as it was; with less room nothing is
-- written.
pub serialize_ack_lem :
    (buf : List ℕ) (tx_buf_len : ℕ) (msg_type : MessageType) (type dup packet_id : ℕ)
    → tx_buf_len ≤ length buf
    → type_bits msg_type ≡ ok type
    → serialize_ack (some buf) tx_buf_len msg_type dup packet_id ≡ (
        if leb 4 tx_buf_len
        then ok (
            advance
              (start buf)
              (frame (header_byte (ack_header msg_type type dup)) (uint16_bytes packet_id)))
        else err mqtt_tx_buffer_too_short_error)
unfolding serialize_ack init_header
serialize_ack_lem buf tx_buf_len msg_type type dup packet_id fits known =
    elim (Bool-cases (leb 4 tx_buf_len)) [
      | inl enough ↦
          rw (enough, known)
            ((frame-Writes (header_byte (ack_header msg_type type dup))
                {body = uint16_bytes packet_id} (omega arith) (write_uint_16-Writes packet_id)).runs
              (start buf) (omega (arith, leb→le)))
      | inr short ↦ rw short
    ]

ack_header-header_bits :
    (msg_type : MessageType) (type dup : ℕ)
    → header_bits (header_byte (ack_header msg_type type dup)) ≡ ack_header msg_type type dup
ack_header-header_bits msg_type type dup = ground arith

deserialize_ack-frame :
    (byte rx_buf_len packet_id : ℕ) (rest : List ℕ)
    → 4 ≤ rx_buf_len
    → packet_id < 65536
    → deserialize_ack (some (frame byte (uint16_bytes packet_id) ++ rest)) rx_buf_len
      ≡ ok (record {
        packet_type = (header_bits byte).type;
        dup = (header_bits byte).dup;
        packet_id = packet_id;
      })
unfolding deserialize_ack
deserialize_ack-frame byte rx_buf_len packet_id rest room hid =
    rw
      (
        leb_of_le 4 rx_buf_len room,
        read_char_lem byte 0 (len_bytes 2 ++ (uint16_bytes packet_id ++ rest)),
        decode_remaining_length-len_bytes 2 (uint16_bytes packet_id ++ rest) (omega arith),
        read_uint16_t-uint16_bytes packet_id 2 rest hid,
      )
      refl

-- Whenever serialize_ack succeeds, deserialize_ack reads the message type, the dup flag and the
-- packet id back from the buffer that it filled.
pub deserialize-serialize_ack :
    (buf : List ℕ) (tx_buf_len rx_buf_len : ℕ) (msg_type : MessageType) (type dup packet_id : ℕ)
    {c : Cursor}
    → tx_buf_len ≤ length buf
    → 4 ≤ rx_buf_len
    → packet_id < 65536
    → type_bits msg_type ≡ ok type
    → serialize_ack (some buf) tx_buf_len msg_type dup packet_id ≡ ok c
    → deserialize_ack (some (c.done ++ c.room)) rx_buf_len
      ≡ ok (record { packet_type = type; dup = if dup == 1 then 1 else 0; packet_id = packet_id })
deserialize-serialize_ack buf tx rx msg_type type dup id {c} fits room hid known e =
    let (_, same) =
      if_ok _ _ (sym (serialize_ack_lem buf tx msg_type type dup id fits known) ∙ e) in
    let bits = ack_header-header_bits msg_type type dup in
    rw (← same) (
      deserialize_ack-frame (header_byte (ack_header msg_type type dup)) rx id _ room hid
      ∙ ap (λ (h : Header). ok (record { packet_type = h.type; dup = h.dup; packet_id = id })) bits)

abbrev pub zero_header : ℕ → Header
zero_header type = record { retain = 0; qos = 0; dup = 0; type = type }

-- A packet with no body, for every message type but UNKNOWN: two bytes, written only where the
-- buffer has room for four.
pub serialize_zero_lem :
    (buf : List ℕ) (tx_buf_len : ℕ) (packet_type : MessageType) (type : ℕ)
    → tx_buf_len ≤ length buf
    → type_bits packet_type ≡ ok type
    → serialize_zero (some buf) tx_buf_len packet_type ≡ (
        if leb 4 tx_buf_len
        then ok (advance (start buf) (frame (header_byte (zero_header type)) []))
        else err mqtt_tx_buffer_too_short_error)
unfolding serialize_zero init_header
serialize_zero_lem buf tx_buf_len packet_type type fits known =
    elim (Bool-cases (leb 4 tx_buf_len)) [
      | inl enough ↦
          rw (enough, known)
            ((Writes-bind (write_char-Writes (header_byte (zero_header type)))
                (write_len_to_buffer-Writes 0 (omega arith))).runs
              (start buf) (omega (arith, leb→le)))
      | inr short ↦ rw short
    ]
