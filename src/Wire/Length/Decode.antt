-- ===== src/Wire/Length/Decode.antt =====
-- The decoder of the length field against the encoder, and on any bytes.
use hornbill_examples.Common.{
  ℕ, zero, suc, ◌+◌, ◌*◌, ◌/◌, ◌%◌, ◌^◌, ◌≤◌, ◌<◌, ◌≡◌, arith, List, [], ◌∷◌, ◌++◌, length, ltb,
  if◌then◌else◌, bit_and_low, bit_and_top, ap, ◌∙◌, ltb-false, Bool-cases, inl, inr,
}
use native.Mathlib.Nat.{mod-eq_of_lt, pow-succ', mul-le-mul_left, div-add-mod}
use hornbill_examples.Errors.{Result, ok, err, mqtt_decode_remaining_length_error}
use hornbill_examples.Wire.Length.{
  RemainingLength, decode_len_loop, decode_remaining_length_from_buffer,
}
use hornbill_examples.Wire.Length.Encode.{len_groups, len_bytes, len_bytes_four}

-- A byte below 128 ends the field, and any other adds its low seven bits.
last_byte :
    (b : ℕ) (buf : List ℕ) (multiplier len decoded_len : ℕ)
    → b < 128
    → len < 4
    → decode_len_loop (b ∷ buf) multiplier len decoded_len
      ≡ ok (record {
        decoded_len = (decoded_len + b * multiplier) % 2 ^ 32;
        read_bytes_len = len + 1;
      })
unfolding decode_len_loop
last_byte b buf multiplier len decoded_len h l = ground (arith, bit_and_low b, bit_and_top b)

inner_byte :
    (b : ℕ) (buf : List ℕ) (multiplier len decoded_len : ℕ)
    → 128 ≤ b
    → b < 256
    → len < 4
    → decode_len_loop (b ∷ buf) multiplier len decoded_len
      ≡ decode_len_loop buf
          (multiplier * 128 % 2 ^ 32)
          (len + 1)
          ((decoded_len + b % 128 * multiplier) % 2 ^ 32)
unfolding decode_len_loop
inner_byte b buf multiplier len decoded_len lo hi l = ground (arith, bit_and_low b, bit_and_top b)

too_long :
    (buf : List ℕ) (multiplier len decoded_len : ℕ)
    → 4 ≤ len
    → decode_len_loop buf multiplier len decoded_len ≡ err mqtt_decode_remaining_length_error
unfolding decode_len_loop
too_long [] multiplier len decoded_len h = ground arith
too_long (b ∷ buf) multiplier len decoded_len h = ground arith

abbrev pub decoded : ℕ → ℕ → Result RemainingLength
decoded n k = ok (record { decoded_len = n; read_bytes_len = k })

-- On any four bytes, whatever follows them, the decoder takes the bytes up to the first one below
-- 128 as groups of seven bits, the lowest first; if none of the four is below 128, it is an error.
pub decode_remaining_length_from_buffer_lem :
    (a b c d : ℕ) (buf : List ℕ)
    → a < 256
    → b < 256
    → c < 256
    → d < 256
    → decode_remaining_length_from_buffer (a ∷ b ∷ c ∷ d ∷ buf) ≡ (
        if ltb a 128
        then decoded a 1
        else (if ltb b 128
            then decoded (a % 128 + b * 128) 2
            else (if ltb c 128
                then decoded (a % 128 + b % 128 * 128 + c * 16384) 3
                else (if ltb d 128
                    then decoded (a % 128 + b % 128 * 128 + c % 128 * 16384 + d * 2097152) 4
                    else err mqtt_decode_remaining_length_error))))
unfolding decode_remaining_length_from_buffer
decode_remaining_length_from_buffer_lem a b c d buf ha hb hc hd = ground (
  arith,
  last_byte a (b ∷ c ∷ d ∷ buf) 1 0 0,
  inner_byte a (b ∷ c ∷ d ∷ buf) 1 0 0,
  last_byte b (c ∷ d ∷ buf) 128 1 (a % 128),
  inner_byte b (c ∷ d ∷ buf) 128 1 (a % 128),
  last_byte c (d ∷ buf) 16384 2 (a % 128 + b % 128 * 128),
  inner_byte c (d ∷ buf) 16384 2 (a % 128 + b % 128 * 128),
  last_byte d buf 2097152 3 (a % 128 + b % 128 * 128 + c % 128 * 16384),
  inner_byte d buf 2097152 3 (a % 128 + b % 128 * 128 + c % 128 * 16384),
  too_long buf 268435456 4 (a % 128 + b % 128 * 128 + c % 128 * 16384 + d % 128 * 2097152),
)

decoded-eq : {n m j k : ℕ} → n ≡ m → j ≡ k → decoded n j ≡ decoded m k
decoded-eq p q = λ i. decoded (p i) (q i)

pub pow_pos : (k : ℕ) → 1 ≤ 128 ^ k
pow_pos zero = omega arith
pow_pos (suc k) = omega (arith, pow_pos k)

pub pow_split : (m k : ℕ) → m * 128 ^ suc k ≡ m * 128 * 128 ^ k
pow_split m k = omega (arith, ap (λ (t : ℕ). m * t) (pow-succ' 128 k))

pub pow_room : (m k : ℕ) → m * 128 ^ suc k < 2 ^ 32 → m * 128 < 2 ^ 32
pow_room m k h = omega (arith, pow_split m k, mul-le-mul_left (m * 128) (pow_pos k))

-- One group that others follow, where nothing wraps.
inner_group :
    (n multiplier len decoded_len : ℕ) (buf : List ℕ)
    → multiplier * 128 < 2 ^ 32
    → len < 4
    → decoded_len + n % 128 * multiplier < 2 ^ 32
    → decode_len_loop ((n % 128 + 128) ∷ buf) multiplier len decoded_len
      ≡ decode_len_loop buf (multiplier * 128) (len + 1) (decoded_len + n % 128 * multiplier)
inner_group n multiplier len decoded_len buf hm hl hd =
    let group : (n % 128 + 128) % 128 ≡ n % 128 = omega arith in
    let fits : (decoded_len + n % 128 * multiplier) % 2 ^ 32 ≡ decoded_len + n % 128 * multiplier =
      mod-eq_of_lt hd in
    inner_byte (n % 128 + 128) buf multiplier len decoded_len (omega arith) (omega arith) hl
    ∙ rw (group, fits, mod-eq_of_lt hm)

pub split_group :
    (n multiplier : ℕ) → n % 128 * multiplier + n / 128 * (multiplier * 128) ≡ n * multiplier
split_group n multiplier = omega (arith, ap (λ (t : ℕ). t * multiplier) (div-add-mod n 128))

last_group :
    (n multiplier len decoded_len : ℕ) (buf : List ℕ)
    → n < 128
    → len < 4
    → decoded_len + n * multiplier < 2 ^ 32
    → decode_len_loop ((n % 128) ∷ buf) multiplier len decoded_len
      ≡ decoded (decoded_len + n * multiplier) (len + 1)
last_group n multiplier len decoded_len buf hn hl hd =
    let group : n % 128 ≡ n = omega arith in
    rw group (last_byte n buf multiplier len decoded_len hn hl ∙ rw (mod-eq_of_lt hd))

-- `n` is what is still to be read, and it counts from `multiplier` on.
decode_len_loop-len_groups :
    (k n multiplier len decoded_len : ℕ) (buf : List ℕ)
    → n < 128 ^ suc k
    → len + suc k ≤ 4
    → multiplier * 128 ^ k < 2 ^ 32
    → decoded_len + n * multiplier < 2 ^ 32
    → decode_len_loop (len_groups (suc k) n ++ buf) multiplier len decoded_len
      ≡ decoded (decoded_len + n * multiplier) (len + length (len_groups (suc k) n))
decode_len_loop-len_groups zero n multiplier len decoded_len buf hn hl hm hd =
    rw (ltb-false 0 (n / 128) (omega arith))
      (last_group n multiplier len decoded_len buf (omega arith) (omega arith) hd)
decode_len_loop-len_groups (suc k) n multiplier len decoded_len buf hn hl hm hd =
    elim (Bool-cases (ltb 0 (n / 128))) [
      | inl more ↦ rw more (
          inner_group n multiplier len decoded_len (len_groups (suc k) (n / 128) ++ buf)
            (pow_room multiplier k hm) (omega arith) (omega (arith, split_group n multiplier))
          ∙ decode_len_loop-len_groups k (n / 128) (multiplier * 128) (len + 1)
              (decoded_len + n % 128 * multiplier) buf (omega arith) (omega arith)
              (omega (arith, pow_split multiplier k)) (omega (arith, split_group n multiplier))
          ∙ decoded-eq (omega (arith, split_group n multiplier)) (omega arith))
      | inr last ↦
          rw last (last_group n multiplier len decoded_len buf (ground arith) (omega arith) hd)
    ]

-- A length below 2 ^ 28 is read back as it was written, and the decoder stops where the field ends.
pub decode_remaining_length-len_bytes :
    (n : ℕ) (buf : List ℕ)
    → n < 2 ^ 28
    → decode_remaining_length_from_buffer (len_bytes n ++ buf) ≡ decoded n (length (len_bytes n))
unfolding decode_remaining_length_from_buffer
decode_remaining_length-len_bytes n buf h =
    rw (len_bytes_four n h) (ground (arith, decode_len_loop-len_groups 3 n 1 0 0 buf))
