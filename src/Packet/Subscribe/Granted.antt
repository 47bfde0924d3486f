-- ===== src/Packet/Subscribe/Granted.antt =====
-- What deserialize_suback makes of a SUBACK, and that it stays inside of the caller's array.
use hornbill_examples.Common.{
  ℕ, ◌+◌, ◌-◌, ◌^◌, ◌≤◌, ◌<◌, ◌≡◌, refl, ◌∙◌, arith, List, [], ◌∷◌, ◌++◌, length, leb, ltb,
  leb_of_le, leb-false, ltb→lt, append-nil, length-drop, if◌then◌else◌, append_assoc, true,
  Bool-cases, inl, inr, ltb→le,
}
use hornbill_examples.Errors.{ok, err, failure, if_bind}
use hornbill_examples.Wire.{Cursor, start}
use hornbill_examples.Wire.Reading.{read_uint16_t-uint16_bytes, read_char_lem, skip-append}
use hornbill_examples.Wire.Writing.{uint16_bytes, advance, write_char-Writes, advance-advance}
use hornbill_examples.Wire.Header.{header_bits}
use hornbill_examples.Wire.Length.Encode.{len_bytes}
use hornbill_examples.Wire.Length.Decode.{decode_remaining_length-len_bytes}
use hornbill_examples.Packet.Frame.{frame}
use hornbill_examples.Packet.Subscribe.{read_granted, deserialize_suback}

-- With room in the array for the codes, all of them are stored if at most one more than expected
-- came; otherwise the loop ends with FAILURE. It reads no byte behind them in either case.
read_granted_lem :
    (codes rest : List ℕ) (max_expected count pos : ℕ) (granted : Cursor)
    → max_expected + 1 ≤ count + length granted.room
    → count ≤ max_expected + 1
    → read_granted
        (length codes)
        max_expected
        count
        (record { pos = pos; rest = codes ++ rest })
        granted
      ≡ (if leb (count + length codes) (max_expected + 1)
          then ok (count + length codes, advance granted codes)
          else err failure)
unfolding read_granted
read_granted_lem [] rest max_expected count pos granted room low =
    let none_left : count + 0 ≡ count = omega arith in
    rw (none_left, leb_of_le count (max_expected + 1) low, append-nil)
read_granted_lem (code ∷ codes) rest max_expected count pos granted room low =
    elim (Bool-cases (ltb max_expected count)) [
      | inl full ↦ rw (
        full,
        leb-false (count + length (code ∷ codes)) (max_expected + 1) (omega (arith, ltb→lt)),
      )
      | inr free ↦
          let granted' = advance granted (code ∷ []) in
          let later =
            read_granted_lem codes rest max_expected (count + 1) (pos + 1) granted'
              (omega (arith, length-drop 1 granted.room)) (omega (arith, ltb→le)) in
          let total : count + 1 + length codes ≡ count + length (code ∷ codes) = omega arith in
          rw
            (
              free,
              read_char_lem code pos (codes ++ rest),
              (write_char-Writes code).runs granted (omega (arith, ltb→le)),
            )
            (later ∙ rw (total, advance-advance granted (code ∷ []) codes))
    ]

-- On a SUBACK, whatever follows it in the receive buffer, and with an array that has room for one
-- code more than expected: if at most that many codes came, all of them are stored in order and the
-- rest of the array is as it was; if more came the result is FAILURE. No access leaves the array.
pub deserialize_suback_lem :
    (byte rx_buf_len packet_id max_expected : ℕ) (codes rest granted_qoss : List ℕ)
    → 5 ≤ rx_buf_len
    → (header_bits byte).type ≡ 9
    → packet_id < 65536
    → length codes + 2 < 2 ^ 28
    → max_expected + 1 ≤ length granted_qoss
    → deserialize_suback max_expected granted_qoss
        (frame byte (uint16_bytes packet_id ++ codes) ++ rest)
        rx_buf_len
      ≡ (if leb (length codes) (max_expected + 1)
          then ok (record {
            packet_id = packet_id;
            granted_count = length codes;
            granted_qoss = advance (start granted_qoss) codes;
          })
          else err failure)
unfolding deserialize_suback
deserialize_suback_lem byte rx id max_expected codes rest granted room type hid short fits =
    let body = uint16_bytes id ++ codes in
    let pos = 1 + length (len_bytes (length body)) in
    let two : leb 2 (length body) ≡ true = leb_of_le 2 (length body) (omega arith) in
    let from_zero : 0 + length codes ≡ length codes = omega arith in
    let left : length body - 2 ≡ length codes = omega arith in
    rw
      (
        leb_of_le 5 rx room,
        append_assoc (len_bytes (length body)) body rest,
        read_char_lem byte 0 (len_bytes (length body) ++ (body ++ rest)),
        type,
        decode_remaining_length-len_bytes (length body) (body ++ rest) (omega arith),
        skip-append (len_bytes (length body)) (body ++ rest) 1,
        two,
        read_uint16_t-uint16_bytes id pos (codes ++ rest) hid,
        left,
        read_granted_lem codes rest max_expected 0 (pos + 2) (start granted) (omega arith)
            (omega arith),
        from_zero,
        if_bind,
      )
      refl
