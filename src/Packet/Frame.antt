-- ===== src/Packet/Frame.antt =====
-- What the serializers have in common: they check the room, and then write a header byte, the
-- remaining length and a body of that length.
use hornbill_examples.Common.{
  ℕ, ◌+◌, ◌^◌, ◌≤◌, ◌<◌, ◌≡◌, arith, List, [], ◌∷◌, ◌++◌, length, length-append, leb, if◌then◌else◌,
  Bool-cases, inl, inr, leb→le,
}
use hornbill_examples.Errors.{Result, ok, err, IotError, guard, ◌>>=◌, ◌>>◌}
use hornbill_examples.Wire.{Cursor, start, write_char}
use hornbill_examples.Wire.Writing.{Writes, Writes-bind, advance, write_char-Writes}
use hornbill_examples.Wire.Length.{
  write_len_to_buffer, get_final_packet_length_from_remaining_length,
}
use hornbill_examples.Wire.Length.Encode.{
  len_bytes, write_len_to_buffer-Writes, get_final_packet_length_lem,
}

-- An MQTT packet: its header byte, the length of its body, and the body.
abbrev pub frame : ℕ → List ℕ → List ℕ
frame byte body = (byte ∷ []) ++ (len_bytes (length body) ++ body)

abbrev pub write_frame : ℕ → ℕ → (Cursor → Result Cursor) → Cursor → Result Cursor
write_frame byte rem_len write_body c = do
  after_header ← write_char byte c
  after_len ← write_len_to_buffer rem_len after_header
  write_body after_len

pub frame-Writes :
    (byte : ℕ) {body : List ℕ} {write_body : Cursor → Result Cursor}
    → length body < 2 ^ 28
    → Writes write_body body
    → Writes (write_frame byte (length body) write_body) (frame byte body)
frame-Writes byte {body} h w =
    Writes-bind (write_char-Writes byte)
      (Writes-bind (write_len_to_buffer-Writes (length body) (omega arith)) w)

pub get_final_packet_length_ge :
    (n : ℕ) → n + 8 < 2 ^ 32 → n < get_final_packet_length_from_remaining_length n
unfolding get_final_packet_length_from_remaining_length
get_final_packet_length_ge n h = ground arith

pub length-frame :
    (byte : ℕ) (body : List ℕ)
    → length body < 2 ^ 28
    → length (frame byte body) ≤ get_final_packet_length_from_remaining_length (length body)
length-frame byte body h = omega (arith, length-append (len_bytes (length body)) body, long_enough)
  where
    long_enough :
        1 + length (len_bytes (length body)) + length body
        ≤ get_final_packet_length_from_remaining_length (length body)
    long_enough = rw (get_final_packet_length_lem (length body) h) (omega arith)

-- A serializer of this form answers with the frame where the room suffices, and else with the error
-- of its check, before it has written anything.
pub write_frame_lem :
    (byte tx_buf_len : ℕ) (buf : List ℕ) (e : IotError) {body : List ℕ}
    {write_body : Cursor → Result Cursor}
    → length body + 8 < 2 ^ 32
    → tx_buf_len ≤ length buf
    → tx_buf_len ≤ 2 ^ 28
    → Writes write_body body
    → (guard (leb (get_final_packet_length_from_remaining_length (length body)) tx_buf_len) e
        >> write_frame byte (length body) write_body (start buf))
      ≡ (if leb (get_final_packet_length_from_remaining_length (length body)) tx_buf_len
          then ok (advance (start buf) (frame byte body))
          else err e)
write_frame_lem byte tx_buf_len buf e {body} h fits small w =
    elim (Bool-cases
      (leb (get_final_packet_length_from_remaining_length (length body)) tx_buf_len)) [
        | inl enough ↦ rw enough (
            (frame-Writes byte (omega (arith, get_final_packet_length_ge, leb→le)) w).runs
              (start buf)
              (omega (arith, length-frame byte body, get_final_packet_length_ge, leb→le)))
        | inr short ↦ rw short
      ]
