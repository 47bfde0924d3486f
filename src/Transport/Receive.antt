-- ===== src/Transport/Receive.antt =====
-- _aws_iot_mqtt_internal_decode_packet_remaining_len and _aws_iot_mqtt_internal_read_packet:
-- arduino-esp32/AWS_IOT/src/aws_iot_mqtt_client_common_internal.c.
pub mod Remaining
pub mod Frames
pub mod Overflow
use hornbill_examples.Common.{
  ℕ, zero, suc, ◌+◌, ◌-◌, ◌*◌, ◌%◌, ◌^◌, ltb, leb, ◌==◌, if◌then◌else◌, Bool, true, false, List, [],
  ◌∷◌, ◌++◌, length, bit_and,
}
use hornbill_examples.Errors.{
  Result, ok, err, fault, IotError, failure, network_ssl_nothing_to_read, mqtt_nothing_to_read,
  mqtt_decode_remaining_length_error, mqtt_rx_buffer_too_short_error, ◌>>=◌,
}
use hornbill_examples.Timer.{Timer, countdown_ms}
use hornbill_examples.Wire.{Cursor, start, write_char, memcpy, deref}
use hornbill_examples.Wire.Header.{header_bits}
use hornbill_examples.Wire.Length.{max_no_of_remaining_length_bytes, write_len_to_buffer}
use hornbill_examples.Client.{Client}
use hornbill_examples.Transport.{Network}

module _ {ℓ} {W : Type ℓ} (net : Network W) where
  -- What follows the read of a byte in the loop. `rest` goes on with the multiplier, with `len`,
  -- which the read has overwritten with the number of bytes that it stored, and with the length.
  -- Where it stored none, encodedByte is not initialised.
  abbrev pub after_len_byte :
      (ℕ → ℕ → ℕ → W → Result ℕ × W) → ℕ → ℕ → Result (List ℕ) × W → Result ℕ × W
  after_len_byte rest multiplier rem_len (ok [], w) = (fault, w)
  after_len_byte rest multiplier rem_len (ok (b ∷ bs), w) =
      let rem_len' = (rem_len + bit_and b 127 * multiplier) % 2 ^ 32 in
      let more = rest (multiplier * 128 % 2 ^ 32) (length (b ∷ bs)) rem_len' w in
      if bit_and b 128 == 0 then (ok rem_len', w) else more
  after_len_byte rest multiplier rem_len (err e, w) = (err e, w)
  after_len_byte rest multiplier rem_len (fault, w) = (fault, w)

  -- The `do` loop on fuel; a fault stands for fuel that ran out.
  unfoldable pub packet_len_loop : Timer → ℕ → ℕ → ℕ → ℕ → W → Result ℕ × W
  packet_len_loop timer zero multiplier len rem_len w = (fault, w)
  packet_len_loop timer (suc fuel) multiplier len rem_len w =
      let rest = λ (m l r : ℕ) (v : W). packet_len_loop timer fuel m l r v in
      if ltb max_no_of_remaining_length_bytes (len + 1)
      then (err mqtt_decode_remaining_length_error, w)
      else after_len_byte rest multiplier rem_len (net.read 1 timer w)

  -- A fault also stands for a loop that needs more than `fuel` bytes.
  unfoldable pub decode_packet_remaining_len : ℕ → Timer → W → Result ℕ × W
  decode_packet_remaining_len fuel timer w = packet_len_loop timer fuel 1 0 0 w

  -- Bytes that a read stores from a pointer on.
  abbrev pub store : List ℕ → Cursor → Result Cursor
  store bytes c = memcpy bytes (length bytes) c

  abbrev pub whole_buffer : Cursor → List ℕ
  whole_buffer c = c.done ++ c.room

  -- What is asked for next while a packet is dropped.
  abbrev pub bytes_to_be_read : ℕ → ℕ → ℕ
  bytes_to_be_read buf_size left = if leb buf_size left then buf_size else left

  -- The end of a round that drops `n` of the `left` bytes that were left of a packet.
  abbrev pub after_store :
      (ℕ → List ℕ → W → Result (List ℕ) × W) → ℕ → ℕ → Result Cursor → W → Result (List ℕ) × W
  after_store rest left n (ok c) w =
      let more = rest (left - n) (whole_buffer c) w in
      if ltb n left then more else (ok (whole_buffer c), w)
  after_store rest left n (err e) w = (err e, w)
  after_store rest left n fault w = (fault, w)

  -- What follows a read while a packet is dropped. A failed read leaves the loop.
  abbrev pub after_dropped :
      (ℕ → List ℕ → W → Result (List ℕ) × W)
      → ℕ
      → List ℕ
      → Result (List ℕ) × W
      → Result (List ℕ) × W
  after_dropped rest left buf (ok bytes, w) =
      after_store rest left (length bytes) (store bytes (start buf)) w
  after_dropped rest left buf (err e, w) = (ok buf, w)
  after_dropped rest left buf (fault, w) = (fault, w)

  -- The loop that drops a packet which is too long, on fuel: the receive buffer that it leaves. A
  -- fault also stands for fuel that ran out.
  unfoldable pub drop_loop : Timer → ℕ → ℕ → ℕ → List ℕ → W → Result (List ℕ) × W
  drop_loop timer buf_size zero left buf w = (fault, w)
  drop_loop timer buf_size (suc fuel) left buf w =
      let rest = λ (l : ℕ) (b : List ℕ) (v : W). drop_loop timer buf_size fuel l b v in
      after_dropped rest left buf (net.read (bytes_to_be_read buf_size left) timer w)

  -- A packet type, the receive buffer, and the world.
  abbrev pub Received : Type ℓ
  Received = Result ℕ × (List ℕ × W)

  abbrev pub after_drop : List ℕ → Result (List ℕ) × W → Received
  after_drop buf (ok buf', w) = (err mqtt_rx_buffer_too_short_error, (buf', w))
  after_drop buf (err e, w) = (err e, (buf, w))
  after_drop buf (fault, w) = (fault, (buf, w))

  -- The body is stored, where a short read is a failure.
  abbrev pub stored_body : ℕ → ℕ → ℕ → Cursor → Result Cursor → W → Received
  stored_body byte rem_len n c (ok c') w =
      (if n == rem_len then ok (header_bits byte).type else err failure, (whole_buffer c', w))
  stored_body byte rem_len n c (err e) w = (err e, (whole_buffer c, w))
  stored_body byte rem_len n c fault w = (fault, (whole_buffer c, w))

  abbrev pub after_body : ℕ → ℕ → Cursor → Result (List ℕ) × W → Received
  after_body byte rem_len c (ok bytes, w) =
      stored_body byte rem_len (length bytes) c (store bytes c) w
  after_body byte rem_len c (err e, w) = (err failure, (whole_buffer c, w))
  after_body byte rem_len c (fault, w) = (fault, (whole_buffer c, w))

  abbrev pub read_body : Timer → ℕ → ℕ → List ℕ → Result Cursor → W → Received
  read_body timer byte rem_len buf (ok c) w =
      if ltb 0 rem_len
      then after_body byte rem_len c (net.read rem_len timer w)
      else (ok (header_bits byte).type, (whole_buffer c, w))
  read_body timer byte rem_len buf (err e) w = (err e, (buf, w))
  read_body timer byte rem_len buf fault w = (fault, (buf, w))

  -- What follows the remaining length.
  abbrev pub after_len : Client → Timer → ℕ → List ℕ → Cursor → Result ℕ × W → Received
  after_len c timer byte buf after_header (ok rem_len, w) =
      if leb c.read_buf_size rem_len
      then after_drop buf (drop_loop timer c.read_buf_size (suc rem_len) rem_len buf w)
      else read_body timer byte rem_len buf (write_len_to_buffer rem_len after_header) w
  after_len c timer byte buf after_header (err e, w) = (err e, (buf, w))
  after_len c timer byte buf after_header (fault, w) = (fault, (buf, w))

  -- The time for the rest of a packet is that of packetTimeoutMs from the start on.
  abbrev pub packet_timer : Client → W → Timer
  packet_timer c w = countdown_ms net.tick_ms (net.tick_count w) c.packet_timeout_ms

  -- The header byte is stored in the receive buffer.
  abbrev pub after_header_byte : ℕ → Client → Timer → Result Cursor → ℕ → W → Received
  after_header_byte fuel c timer (ok after_header) byte w =
      after_len c timer byte (whole_buffer after_header) after_header
        (decode_packet_remaining_len fuel timer w)
  after_header_byte fuel c timer (err e) byte w = (err e, (c.read_buf, w))
  after_header_byte fuel c timer fault byte w = (fault, (c.read_buf, w))

  -- `NETWORK_SSL_NOTHING_TO_READ == rc`
  abbrev pub header_error : IotError → IotError
  header_error network_ssl_nothing_to_read = mqtt_nothing_to_read
  header_error e = e

  abbrev pub after_header : ℕ → Client → Timer → Result (List ℕ) × W → Received
  after_header fuel c timer (ok [], w) = (fault, (c.read_buf, w))
  after_header fuel c timer (ok (byte ∷ _), w) =
      after_header_byte fuel c timer (write_char byte (start c.read_buf)) byte w
  after_header fuel c timer (err e, w) = (err (header_error e), (c.read_buf, w))
  after_header fuel c timer (fault, w) = (fault, (c.read_buf, w))

-- The packet type, the receive buffer and the world behind it. The fuel bounds the bytes of the
-- remaining length. A read that succeeds without the header byte is a fault.
unfoldable pub read_packet {ℓ} :
    {W : Type ℓ} → Network W → ℕ → Client → Timer → W → Result ℕ × (List ℕ × W)
read_packet net fuel c timer w = after_header net fuel c (packet_timer net c w) (net.read 1 timer w)
