-- ===== src/Packet/Connect/Connack.antt =====
-- What deserialize_connack makes of a CONNACK.
use hornbill_examples.Common.{ℕ, ◌/◌, ◌≤◌, ◌≡◌, refl, arith, List, [], ◌∷◌, ◌++◌, leb_of_le, some}
use hornbill_examples.Errors.{ok}
use hornbill_examples.Wire.Reading.{read_char_lem}
use hornbill_examples.Wire.Header.{header_bits}
use hornbill_examples.Wire.Length.Encode.{len_bytes}
use hornbill_examples.Wire.Length.Decode.{decode_remaining_length-len_bytes}
use hornbill_examples.Packet.Frame.{frame}
use hornbill_examples.Packet.Connect.{connack_code, deserialize_connack}

-- On a CONNACK, whatever follows it in the receive buffer, the return code is translated, and the
-- session-present flag is the top bit of the first byte of the body.
pub deserialize_connack_lem :
    (byte rx_buf_len flags code : ℕ) (rest : List ℕ)
    → 4 ≤ rx_buf_len
    → (header_bits byte).type ≡ 2
    → deserialize_connack (some (frame byte (flags ∷ code ∷ []) ++ rest)) rx_buf_len
      ≡ ok (record { session_present = flags / 128; connack_rc = connack_code code })
unfolding deserialize_connack
deserialize_connack_lem byte rx flags code rest room type =
    rw
      (
        leb_of_le 4 rx room,
        read_char_lem byte 0 (len_bytes 2 ++ (flags ∷ code ∷ rest)),
        type,
        decode_remaining_length-len_bytes 2 (flags ∷ code ∷ rest) (omega arith),
        read_char_lem flags 2 (code ∷ rest),
        read_char_lem code 3 rest,
      )
      refl
