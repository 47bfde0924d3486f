-- ===== src/Wire.antt =====
-- The byte level of arduino-esp32/AWS_IOT/src/aws_iot_mqtt_client_common_internal.c: the pointers
-- into the transmit and receive buffers, and the primitives that write and read through them.
pub mod Writing
pub mod Reading
pub mod Length
pub mod Header
use hornbill_examples.Common.{
  ℕ, zero, suc, ◌+◌, ◌*◌, ◌/◌, ◌%◌, List, [], ◌∷◌, ◌++◌, ltb, if◌then◌else◌, drop, length,
}
use hornbill_examples.Errors.{Result, ok, err, fault, ◌>>=◌}

-- A buffer with a pointer into it: the bytes before the pointer, and the cells from it on.
pub record Cursor : Type 0 where
  pub done : List ℕ
  pub room : List ℕ

-- A pointer to the start of a buffer.
abbrev pub start : List ℕ → Cursor
start buf = record { done = []; room = buf }

put_byte : List ℕ → ℕ → List ℕ → Result Cursor
put_byte done b [] = fault
put_byte done b (_ ∷ room) = ok (record { done = done ++ b ∷ []; room = room })

-- `**pptr = c; (*pptr)++;`: outside of the buffer the write is undefined.
unfoldable pub write_char : ℕ → Cursor → Result Cursor
unfolding put_byte
write_char b c = put_byte c.done b c.room

unfoldable pub write_uint_16 : ℕ → Cursor → Result Cursor
write_uint_16 n c = do c' ← write_char (n / 256 % 256) c; write_char (n % 256) c'

-- `memcpy(*pptr, src, n); *pptr += n;`
unfoldable pub memcpy : List ℕ → ℕ → Cursor → Result Cursor
memcpy src zero c = ok c
memcpy [] (suc n) c = fault
memcpy (b ∷ src) (suc n) c = write_char b c >>= memcpy src n

unfoldable pub write_utf8_string : List ℕ → ℕ → Cursor → Result Cursor
write_utf8_string s n c = do c' ← write_uint_16 n c; if ltb 0 n then memcpy s n c' else ok c'

-- A pointer that reads a buffer: its offset in the buffer, and the bytes from it on.
pub record Reader : Type 0 where
  pub pos : ℕ
  pub rest : List ℕ

-- A pointer to the start of a buffer.
abbrev pub reader : List ℕ → Reader
reader buf = record { pos = 0; rest = buf }

-- `ptr += n`
abbrev pub skip : ℕ → Reader → Reader
skip n r = record { pos = r.pos + n; rest = drop n r.rest }

-- `*ptr`: a read behind the buffer is undefined.
abbrev pub deref : List ℕ → Result ℕ
deref [] = fault
deref (b ∷ _) = ok b

unfoldable pub read_char : Reader → Result (ℕ × Reader)
read_char r = do b ← deref r.rest; ok (b, skip 1 r)

unfoldable pub read_uint16_t : Reader → Result (ℕ × Reader)
read_uint16_t r = do
  first_byte ← deref r.rest
  second_byte ← deref (skip 1 r).rest
  ok ((second_byte + 256 * first_byte) % 65536, skip 2 r)
