-- ===== src/Shadow/Json/Overflow.antt =====
-- Where the building of a document stays inside its buffer.
use hornbill_examples.Common.{
  ℕ, ◌+◌, ◌-◌, ◌≤◌, ◌<◌, ltb-false, ◌==◌, false, List, ◌++◌, length, length-append, take_all, some,
  codes, ◌≡◌, refl, ap, arith,
}
use hornbill_examples.Errors.{fault}
use hornbill_examples.Shadow.Json.{
  Formats, JsonData, print_at, print_end, quoted, value_text, convert_data_to_string, add_field,
}
use hornbill_examples.Shadow.Json.Built.{print_end-fits}

print_end-overflows :
    (max room : ℕ) (text document : List ℕ)
    → length text < room
    → max ≤ length document + length text
    → print_end max room text document ≡ (fault, document)
unfolding print_at
print_end-overflows max room text document lt over =
    let whole = take_all (room - 1) text (omega arith) in
    let nonzero : (room == 0) ≡ false = ground (arith, lt) in
    let outside = ltb-false (length document + length text) max over in
    rw (nonzero, whole, outside) refl

module _ (formats : Formats) where
  -- A value is printed with the room that was there before its key, so that a value whose text fits
  -- into that room and not behind the key is written past the end of the buffer.
  pub add_field-overflows :
      (max : ℕ) (key text : List ℕ) (value : JsonData) (document : List ℕ)
      → let room = max - length document in
        value_text formats value ≡ some text
        → length (quoted key) + 1 < room
        → length text + 1 < room
        → room ≤ length (quoted key) + 1 + (length text + 1)
        → (add_field formats max
            (some record { key = some key; data_ = some value })
            room
            document).0
          ≡ fault
  unfolding convert_data_to_string
  add_field-overflows max key text value document v lt fits over =
      let room = max - length document in
      let nonzero : (room == 0) ≡ false = ground (arith, lt) in
      let k = length-append (quoted key) (codes ":") in
      let t = length-append text (codes ",") in
      let d = length-append document (quoted key ++ codes ":") in
      let keyed =
        print_end-fits max room (quoted key ++ codes ":") document (omega (arith, lt, k))
          (omega (arith, lt, k)) in
      rw (keyed, nonzero, v)
        (ap (λ p. p.0)
          (print_end-overflows max room (text ++ codes ",") (document ++ (quoted key ++ codes ":"))
            (omega (arith, fits, t)) (omega (arith, over, k, t, d))))
