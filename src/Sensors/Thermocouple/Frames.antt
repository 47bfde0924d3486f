-- ===== src/Sensors/Thermocouple/Frames.antt =====
-- The words that the converter sends are read as the temperatures that they stand for.
use hornbill_examples.Common.{
  ℕ, zero, suc, ◌+◌, ◌*◌, ◌/◌, ◌%◌, ◌^◌, ◌<◌, ◌==◌, ◌!=◌, ==_iff, ◌&&◌, if◌then◌else◌, Bool, true,
  false, bit_and, bit_or, List, [], ◌∷◌, ◌++◌, length, ◌≡◌, refl, ◌∙◌, ap, arith,
}
use hornbill_examples.Sensors.Thermocouple.{
  Gpio, Pins, lowered, raised, is_high, spiread_loop, max6675_spiread, quarter_degrees, selected,
  max6675_read_celsius,
}

-- The bits of a byte, the most significant one first.
abbrev pub byte_bits : ℕ → List Bool
byte_bits n =
    (n / 128 % 2 == 1)
    ∷ (n / 64 % 2 == 1)
    ∷ (n / 32 % 2 == 1)
    ∷ (n / 16 % 2 == 1)
    ∷ (n / 8 % 2 == 1)
    ∷ (n / 4 % 2 == 1)
    ∷ (n / 2 % 2 == 1)
    ∷ (n % 2 == 1)
    ∷ []

abbrev pub bit : Bool → ℕ
bit true = 1
bit false = 0

-- A word of the MAX6675: a sign bit that is 0, the temperature in twelve bits, whether the input is
-- open, the identity of the device, and the bit of the third state.
abbrev pub device_word : ℕ → Bool → Bool → Bool → ℕ
device_word temperature is_open id state =
    temperature * 8 + bit is_open * 4 + bit id * 2 + bit state

abbrev pub word_bits : ℕ → List Bool
word_bits word = byte_bits (word / 256) ++ byte_bits (word % 256)

-- What the loop makes of bits that are read.
bits_value : ℕ → ℕ → List Bool → ℕ
bits_value zero d bits = d
bits_value (suc i) d [] = d
bits_value (suc i) d (b ∷ bits) = bits_value i (if b then bit_or d (2 ^ i) % 2 ^ 8 else d) bits

all_below : ℕ → (ℕ → Bool) → Bool
all_below zero holds = true
all_below (suc n) holds = holds n && all_below n holds

all_below-holds :
    (n : ℕ) (holds : ℕ → Bool) (x : ℕ) → x < n → all_below n holds ≡ true → holds x ≡ true
unfolding all_below
all_below-holds zero holds x below all = absurd (omega arith)
all_below-holds (suc n) holds x below all = ground (arith, all_below-holds n holds x)

bytes_read : all_below 256 (λ n. bits_value 8 0 (byte_bits n) == n) ≡ true
unfolding all_below bits_value
bytes_read = refl

bits_value-byte_bits : (n : ℕ) → n < 256 → bits_value 8 0 (byte_bits n) ≡ n
bits_value-byte_bits n h = (==_iff _ n).0 (all_below-holds 256 _ n h bytes_read)

-- The masks of max6675_readCelsius as arithmetic, on two bytes.
pair_agrees : ℕ → ℕ → Bool
pair_agrees first second =
    let v = bit_or (first * 256 % 65536) second in
    v == first * 256 + second && bit_and (first * 256 + second) 4 == second / 4 % 2 * 4

pairs_agree : all_below 256 (λ first. all_below 256 (pair_agrees first)) ≡ true
unfolding all_below pair_agrees
pairs_agree = refl

pair_agrees_at : (first second : ℕ) → first < 256 → second < 256 → pair_agrees first second ≡ true
pair_agrees_at first second h k =
    all_below-holds 256 (pair_agrees first) second k (all_below-holds 256 _ first h pairs_agree)

joined_and_masked :
    (first second : ℕ)
    → first < 256
    → second < 256
    → (bit_or (first * 256 % 65536) second ≡ first * 256 + second)
      × (bit_and (first * 256 + second) 4 ≡ second / 4 % 2 * 4)
unfolding pair_agrees
joined_and_masked first second h k = (
  ground (arith, pair_agrees_at first second h k),
  ground (arith, pair_agrees_at first second h k),
)

quarter_degrees-arithmetic :
    (first second : ℕ)
    → first < 256
    → second < 256
    → quarter_degrees first second
      ≡ (if second / 4 % 2 * 4 != 0 then 0 else (first * 256 + second) / 8)
unfolding quarter_degrees
quarter_degrees-arithmetic first second h k =
    let (joined, masked) = joined_and_masked first second h k in rw joined (rw masked refl)

-- The temperature of a word, or 0 where the input is open.
quarter_degrees-word :
    (t : ℕ) (is_open id state : Bool)
    → t < 4096
    → let word = device_word t is_open id state in
      quarter_degrees (word / 256) (word % 256) ≡ (if is_open then 0 else t)
quarter_degrees-word t is_open id state h = ground (
  arith,
  quarter_degrees-arithmetic (device_word t is_open id state / 256)
      (device_word t is_open id state % 256),
)

module _ {ℓ} {W : Type ℓ} (gpio : Gpio W) (pins : Pins) where
  -- The bits that the converter puts on its line, one with each cycle of the clock.
  abbrev pub Shifts : List Bool → W → Type 0
  Shifts [] w = Unit
  Shifts (b ∷ bits) w =
      (is_high gpio pins (lowered gpio pins w) ≡ b)
      × Shifts bits (raised gpio pins (lowered gpio pins w))

  -- The world after a number of cycles of the clock.
  clocked : ℕ → W → W
  clocked zero w = w
  clocked (suc n) w = clocked n (raised gpio pins (lowered gpio pins w))

  Shifts-clocked :
      (bits rest : List Bool) (w : W)
      → Shifts (bits ++ rest) w
      → Shifts rest (clocked (length bits) w)
  unfolding clocked
  Shifts-clocked [] rest w h = h
  Shifts-clocked (b ∷ bits) rest w h =
      Shifts-clocked bits rest (raised gpio pins (lowered gpio pins w)) h.1

  spiread_loop-bits :
      (bits rest : List Bool) (d : ℕ) (w : W)
      → Shifts (bits ++ rest) w
      → spiread_loop gpio pins (length bits) d w
        ≡ (bits_value (length bits) d bits, clocked (length bits) w)
  unfolding spiread_loop bits_value clocked
  spiread_loop-bits [] rest d w h = refl
  spiread_loop-bits (b ∷ bits) rest d w h =
      rw (h.0, spiread_loop)
        (spiread_loop-bits bits rest _ (raised gpio pins (lowered gpio pins w)) h.1)

  spiread-byte :
      (n : ℕ) (rest : List Bool) (w : W)
      → n < 256
      → Shifts (byte_bits n ++ rest) w
      → max6675_spiread gpio pins w ≡ (n, clocked 8 w)
  unfolding max6675_spiread
  spiread-byte n rest w h shifts =
      spiread_loop-bits (byte_bits n) rest 0 w shifts
      ∙ ap (λ (v : ℕ). (v, clocked 8 w)) (bits_value-byte_bits n h)

  -- Where the converter, once it is selected, puts the bits of a word on its line, one with each cycle
  -- of the clock and the most significant one first, the temperature of the word is what is read, in
  -- quarters of a degree, or 0 where the word says that no thermocouple is attached. The identity and
  -- the third state of the word do not matter.
  pub read_celsius-word :
      (t : ℕ) (is_open id state : Bool) (w : W)
      → t < 4096
      → Shifts (word_bits (device_word t is_open id state)) (selected gpio pins w)
      → (max6675_read_celsius gpio pins w).0 ≡ (if is_open then 0 else t)
  unfolding max6675_read_celsius
  read_celsius-word t is_open id state w h shifts =
      let word = device_word t is_open id state in
      let s = selected gpio pins w in
      let high : word / 256 < 256 = ground arith in
      let low : word % 256 < 256 = omega arith in
      let second = Shifts-clocked (byte_bits (word / 256)) (byte_bits (word % 256)) s shifts in
      rw (spiread-byte (word / 256) (byte_bits (word % 256)) s high shifts) (
        rw (spiread-byte (word % 256) [] (clocked 8 s) low second)
          (quarter_degrees-word t is_open id state h))
