-- ===== src/Sensors/Current.antt =====
-- The current sensor: currentSensor_currentPin and currentSensor_calcIrms of
-- esp-idf/Hornbill-Industrial-Data-Logger/main/currentSensor.c. The numbers of type double and their
-- operations, which round, are a parameter, and so is the converter.
pub mod Mean
use hornbill_examples.Common.{ℕ, zero, suc, ◌/◌}

-- The operations on doubles that the sensor uses; `of_int` converts an int or an unsigned int.
pub record Double (D : Type 0) : Type 0 where
  pub of_int : ℕ → D
  pub add : D → D → D
  pub sub : D → D → D
  pub mul : D → D → D
  pub div : D → D → D
  pub sqrt : D → D

-- adc1_config_width and adc1_config_channel_atten, and adc1_get_voltage, which reads a sample of a
-- channel.
pub record Converter {ℓ} (W : Type ℓ) : Type ℓ where
  pub configure : ℕ → W → W
  pub get_voltage : ℕ → W → ℕ × W

-- ADC_COUNTS and SupplyVoltage.
abbrev pub adc_counts : ℕ
adc_counts = 4096

abbrev pub supply_voltage : ℕ
supply_voltage = 3300

-- The variables of the file that these functions use, and cs_values.Irms.
pub record Meter (D : Type 0) : Type 0 where
  pub in_pin_i : ℕ
  pub ical : D
  pub sample_i : ℕ
  pub offset_i : D
  pub filtered_i : D
  pub sq_i : D
  pub sum_i : D
  pub irms : D

module _ {D : Type 0} (double : Double D) where
  -- What a sample makes of the variables: the low-pass filter, the square and the sum.
  abbrev pub take_in : ℕ → Meter D → Meter D
  take_in sample m =
      let offset =
        double.add m.offset_i
          (double.div (double.sub (double.of_int sample) m.offset_i) (double.of_int 4096)) in
      let filtered = double.sub (double.of_int sample) offset in
      let sq = double.mul filtered filtered in
      record m {
        sample_i = sample;
        offset_i = offset;
        filtered_i = filtered;
        sq_i = sq;
        sum_i = double.add m.sum_i sq;
      }

  -- I_RATIO
  abbrev pub i_ratio : D → D
  i_ratio ical = double.mul ical (
      double.div (double.div (double.of_int supply_voltage) (double.of_int 1000))
        (double.of_int adc_counts))

  abbrev pub finish : ℕ → Meter D → Meter D
  finish number_of_samples m = record m {
    irms =
        double.mul (i_ratio m.ical)
          (double.sqrt (double.div m.sum_i (double.of_int number_of_samples)));
    sum_i = double.of_int 0;
  }

module _ {ℓ} {W : Type ℓ} {D : Type 0} (double : Double D) (adc : Converter W) where
  -- currentSensor_currentPin; the offset starts at half of the counts.
  unfoldable pub current_sensor_current_pin : ℕ → D → Meter D → W → Meter D × W
  current_sensor_current_pin pin ical m w = (
    record m { in_pin_i = pin; ical = ical; offset_i = double.of_int (adc_counts / 2) },
    adc.configure pin w,
  )

  -- The loop of currentSensor_calcIrms, with the samples that are left.
  unfoldable pub sample_loop : ℕ → Meter D → W → Meter D × W
  sample_loop zero m w = (m, w)
  sample_loop (suc left) m w =
      let (sample, w') = adc.get_voltage m.in_pin_i w in
      sample_loop left (take_in double sample m) w'

  -- currentSensor_calcIrms; the result is the field irms.
  unfoldable pub current_sensor_calc_irms : ℕ → Meter D → W → Meter D × W
  current_sensor_calc_irms number_of_samples m w =
      let (m', w') = sample_loop number_of_samples m w in (finish double number_of_samples m', w')
