-- ===== src/Wire/Reading.antt =====
-- The reading primitives on the bytes that the writing primitives put.
use hornbill_examples.Common.{ℕ, ◌+◌, ◌<◌, ◌≡◌, refl, arith, List, ◌∷◌, ◌++◌, length, drop-append}
use hornbill_examples.Errors.{ok}
use hornbill_examples.Wire.{skip, read_char, read_uint16_t}
use hornbill_examples.Wire.Writing.{uint16_bytes}

-- A uint16_t is read back from the two bytes that were written for it.
pub read_uint16_t-uint16_bytes :
    (n pos : ℕ) (rest : List ℕ)
    → n < 65536
    → read_uint16_t (record { pos = pos; rest = uint16_bytes n ++ rest })
      ≡ ok (n, record { pos = pos + 2; rest = rest })
unfolding read_uint16_t
read_uint16_t-uint16_bytes n pos rest h = ground arith

pub read_char_lem :
    (b pos : ℕ) (rest : List ℕ)
    → read_char (record { pos = pos; rest = b ∷ rest })
      ≡ ok (b, record { pos = pos + 1; rest = rest })
unfolding read_char
read_char_lem b pos rest = refl

-- A pointer moves over a front part of what it reads.
pub skip-append :
    (bs rest : List ℕ) (pos : ℕ)
    → skip (length bs) (record { pos = pos; rest = bs ++ rest })
      ≡ record { pos = pos + length bs; rest = rest }
skip-append bs rest pos = λ i. record { pos = pos + length bs; rest = drop-append bs rest i }
