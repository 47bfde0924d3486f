-- ===== src/Sensors/Current/Mean.antt =====
-- What a measurement computes of its samples.
use hornbill_examples.Common.{ℕ, zero, suc, List, [], ◌∷◌, ◌≡◌, refl, ◌∙◌, ap}
use hornbill_examples.Sensors.Current.{
  Double, Converter, Meter, take_in, sample_loop, i_ratio, current_sensor_calc_irms,
}

module _ {ℓ} {W : Type ℓ} (adc : Converter W) (pin : ℕ) where
  -- The samples that the converter gives one after the other, and the world after them.
  pub samples : ℕ → W → List ℕ
  samples zero w = []
  samples (suc n) w = let (sample, w') = adc.get_voltage pin w in sample ∷ samples n w'

  pub sampled : ℕ → W → W
  sampled zero w = w
  sampled (suc n) w = sampled n (adc.get_voltage pin w).1

module _ {D : Type 0} (double : Double D) where
  -- The offset of the low-pass filter after a sample.
  abbrev pub filter_offset : D → ℕ → D
  filter_offset offset sample =
      double.add offset (double.div (double.sub (double.of_int sample) offset) (double.of_int 4096))

  -- The samples without the offset, and the offset after all of them.
  pub centred : D → List ℕ → List D
  centred offset [] = []
  centred offset (x ∷ xs) =
      double.sub (double.of_int x) (filter_offset offset x) ∷ centred (filter_offset offset x) xs

  pub last_offset : D → List ℕ → D
  last_offset offset [] = offset
  last_offset offset (x ∷ xs) = last_offset (filter_offset offset x) xs

  -- The sum of the squares, from the first one on.
  pub sum_squares : D → List D → D
  sum_squares total [] = total
  sum_squares total (y ∷ ys) = sum_squares (double.add total (double.mul y y)) ys

  -- The calibrated root of the mean of the squares.
  pub root_mean_square : D → ℕ → List D → D
  root_mean_square ical n ys =
      double.mul (i_ratio double ical)
        (double.sqrt (double.div (sum_squares (double.of_int 0) ys) (double.of_int n)))

module _ {ℓ} {W : Type ℓ} {D : Type 0} (double : Double D) (adc : Converter W) where
  -- What the loop leaves of the variables that the result and the next measurement depend on.
  abbrev Leaves : ℕ → Meter D → W → Meter D × W → Type ℓ
  Leaves n m w (m', w') =
      (w' ≡ sampled adc m.in_pin_i n w)
      × (m'.sum_i
          ≡ sum_squares double m.sum_i (centred double m.offset_i (samples adc m.in_pin_i n w)))
      × (m'.offset_i ≡ last_offset double m.offset_i (samples adc m.in_pin_i n w))
      × (m'.ical ≡ m.ical)
      × (m'.in_pin_i ≡ m.in_pin_i)

  sample_loop-Leaves : (n : ℕ) (m : Meter D) (w : W) → Leaves n m w (sample_loop double adc n m w)
  unfolding sample_loop samples sampled centred last_offset sum_squares
  sample_loop-Leaves zero m w = (refl, refl, refl, refl, refl)
  sample_loop-Leaves (suc n) m w =
      let (sample, w') = adc.get_voltage m.in_pin_i w in
      sample_loop-Leaves n (take_in double sample m) w'

  -- A measurement of n samples, where the sum of the squares is 0, which every measurement leaves: the
  -- current is the calibrated root of the mean of the squares of the samples that the converter gives
  -- next, each without the offset that the low-pass filter has come to with it. The offset goes on to
  -- the next measurement, and the sum is 0 again.
  pub calc_irms-root_mean_square :
      (n : ℕ) (m : Meter D) (w : W)
      → m.sum_i ≡ double.of_int 0
      → let (m', w') = current_sensor_calc_irms double adc n m w in
        let xs = samples adc m.in_pin_i n w in
        (m'.irms ≡ root_mean_square double m.ical n (centred double m.offset_i xs))
        × (m'.offset_i ≡ last_offset double m.offset_i xs)
        × (m'.sum_i ≡ double.of_int 0)
        × (w' ≡ sampled adc m.in_pin_i n w)
  unfolding current_sensor_calc_irms root_mean_square
  calc_irms-root_mean_square n m w none_left =
      let (world, sum, offset, ical, pin) = sample_loop-Leaves n m w in
      let total : (sample_loop double adc n m w).0.sum_i
          ≡ sum_squares double (double.of_int 0)
              (centred double m.offset_i (samples adc m.in_pin_i n w)) =
        sum
        ∙ ap (λ z. sum_squares double z (centred double m.offset_i (samples adc m.in_pin_i n w)))
            none_left in
      (rw (total, ical) refl, offset, refl, world)
