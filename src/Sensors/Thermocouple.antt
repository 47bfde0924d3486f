-- ===== src/Sensors/Thermocouple.antt =====
-- The thermocouple converter MAX6675, read bit by bit:
-- esp-idf/Hornbill-Industrial-Data-Logger/main/max6675.c. A temperature is a number of quarters of a
-- degree, which a double holds exactly.
pub mod Frames
use hornbill_examples.Common.{
  ℕ, zero, suc, ◌+◌, ◌*◌, ◌/◌, ◌%◌, ◌^◌, ◌!=◌, if◌then◌else◌, Bool, true, false, bit_and, bit_or,
}

-- gpio_pad_select_gpio, gpio_set_direction (true for an output), gpio_set_level, gpio_get_level and
-- ets_delay_us of ESP-IDF.
pub record Gpio {ℓ} (W : Type ℓ) : Type ℓ where
  pub select : ℕ → W → W
  pub set_direction : ℕ → Bool → W → W
  pub set_level : ℕ → ℕ → W → W
  pub get_level : ℕ → W → ℕ
  pub delay_us : ℕ → W → W

-- sclk_pin, cs_pin and miso_pin, which are uint8_t.
pub record Pins : Type 0 where
  pub sclk_pin : ℕ
  pub cs_pin : ℕ
  pub miso_pin : ℕ

-- What max6675_readCelsius makes of the two bytes.
unfoldable pub quarter_degrees : ℕ → ℕ → ℕ
quarter_degrees first second =
    let v = bit_or (first * 2 ^ 8 % 2 ^ 16) second in if bit_and v 4 != 0 then 0 else v / 2 ^ 3

module _ {ℓ} {W : Type ℓ} (gpio : Gpio W) where
  -- max6675_init
  unfoldable pub max6675_init : ℕ → ℕ → ℕ → W → Pins × W
  max6675_init sclk cs miso w =
      let pins : Pins = record {
        sclk_pin = sclk % 2 ^ 8;
        cs_pin = cs % 2 ^ 8;
        miso_pin = miso % 2 ^ 8;
      } in
      let selected =
        gpio.select pins.miso_pin (gpio.select pins.cs_pin (gpio.select pins.sclk_pin w)) in
      let outputs =
        gpio.set_direction pins.cs_pin true (gpio.set_direction pins.sclk_pin true selected) in
      let directed = gpio.set_direction pins.miso_pin false outputs in
      (pins, gpio.set_level pins.cs_pin 1 (gpio.delay_us 100 directed))

  module _ (pins : Pins) where
    -- The two halves of a round: the clock goes low, and high again after the bit was read.
    abbrev pub lowered : W → W
    lowered w = gpio.delay_us 100 (gpio.set_level pins.sclk_pin 0 w)

    abbrev pub raised : W → W
    raised w = gpio.delay_us 100 (gpio.set_level pins.sclk_pin 1 w)

    abbrev pub is_high : W → Bool
    is_high w = gpio.get_level pins.miso_pin w != 0

    -- The loop of max6675_spiread; `i` is one less than the rounds that are left.
    unfoldable pub spiread_loop : ℕ → ℕ → W → ℕ × W
    spiread_loop zero d w = (d, w)
    spiread_loop (suc i) d w =
        spiread_loop i (if is_high (lowered w) then bit_or d (2 ^ i) % 2 ^ 8 else d)
          (raised (lowered w))

    -- max6675_spiread
    unfoldable pub max6675_spiread : W → ℕ × W
    max6675_spiread w = spiread_loop 8 0 w

    abbrev pub selected : W → W
    selected w = gpio.delay_us 10 (gpio.set_level pins.cs_pin 0 w)

    -- max6675_readCelsius
    unfoldable pub max6675_read_celsius : W → ℕ × W
    max6675_read_celsius w =
        let (first, w1) = max6675_spiread (selected w) in
        let (second, w2) = max6675_spiread w1 in
        (quarter_degrees first second, gpio.set_level pins.cs_pin 1 w2)
