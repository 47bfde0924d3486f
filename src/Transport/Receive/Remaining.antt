-- ===== src/Transport/Receive/Remaining.antt =====
-- The remaining length over a network that feeds the bytes of a stream.
use hornbill_examples.Common.{
  ℕ, zero, suc, ◌+◌, ◌*◌, ◌/◌, ◌%◌, ◌^◌, ◌≤◌, ◌<◌, ◌≡◌, refl, arith, List, [], ◌∷◌, ◌++◌, length,
  take, drop, ltb, ◌==◌, true, false, if◌then◌else◌, bit_and, bit_and_low, bit_and_top, ap, ◌∙◌,
  ltb-false, Bool-cases, inl, inr,
}
use native.Mathlib.Nat.{mod-eq_of_lt}
use hornbill_examples.Errors.{Result, ok, err, mqtt_decode_remaining_length_error}
use hornbill_examples.Timer.{Timer}
use hornbill_examples.Wire.Length.Encode.{len_groups, len_bytes, len_bytes_four}
use hornbill_examples.Wire.Length.Decode.{pow_split, pow_room, split_group}
use hornbill_examples.Transport.{Network}
use hornbill_examples.Transport.Receive.{
  after_len_byte, packet_len_loop, decode_packet_remaining_len,
}

module _ {ℓ} {W : Type ℓ} (net : Network W) (source : W → List ℕ) where
  -- One read that gets all the bytes it asked for.
  pub record Fed (n : ℕ) (timer : Timer) (w : W) : Type ℓ where
    pub world : W
    pub result : net.read n timer w ≡ (ok (take n (source w)), world)
    pub left : source world ≡ drop n (source w)

  -- A network that answers each read from the stream of bytes `source`, if it has enough of them.
  pub record Feeds : Type ℓ where
    pub reads : (n : ℕ) (timer : Timer) (w : W) → n ≤ length (source w) → Fed n timer w

module _ {ℓ} {W : Type ℓ} (net : Network W) (source : W → List ℕ) (feeds : Feeds net source)
    (timer : Timer) where
  -- What reading a length comes to: the length, and a stream behind it.
  pub record LenRead (result : Result ℕ × W) (n : ℕ) (rest : List ℕ) : Type ℓ where
    pub world : W
    pub succeeds : result ≡ (ok n, world)
    pub left : source world ≡ rest

  -- What is behind a round of the loop: `after` is what it comes to in the world behind the byte.
  record Round (loop : Result ℕ × W) (after : W → Result ℕ × W) (rest : List ℕ) : Type ℓ where
    world : W
    goes_on : loop ≡ after world
    left : source world ≡ rest

  last_byte :
      (loop : ℕ → ℕ → ℕ → W → Result ℕ × W) (b multiplier rem_len : ℕ) (w : W)
      → b < 128
      → after_len_byte net loop multiplier rem_len (ok (b ∷ []), w)
        ≡ (ok ((rem_len + b * multiplier) % 2 ^ 32), w)
  last_byte loop b multiplier rem_len w h =
      let ends : (bit_and b 128 == 0) ≡ true = ground (arith, bit_and_top b) in
      let low : bit_and b 127 ≡ b = omega (arith, bit_and_low b (omega arith)) in rw (ends, low)

  inner_byte :
      (loop : ℕ → ℕ → ℕ → W → Result ℕ × W) (b multiplier rem_len : ℕ) (w : W)
      → 128 ≤ b
      → b < 256
      → after_len_byte net loop multiplier rem_len (ok (b ∷ []), w)
        ≡ loop (multiplier * 128 % 2 ^ 32) 1 ((rem_len + b % 128 * multiplier) % 2 ^ 32) w
  inner_byte loop b multiplier rem_len w lo hi =
      let goes : (bit_and b 128 == 0) ≡ false = ground (arith, bit_and_top b) in
      let low : bit_and b 127 ≡ b % 128 = bit_and_low b hi in rw (goes, low)

  round :
      (b fuel multiplier len rem_len : ℕ) (rest : List ℕ) (w : W)
      → len < 4
      → source w ≡ b ∷ rest
      → Round
          (packet_len_loop net timer (suc fuel) multiplier len rem_len w)
          (λ v.
            after_len_byte net
              (λ (m l r : ℕ) (u : W). packet_len_loop net timer fuel m l r u)
              multiplier
              rem_len
              (ok (b ∷ []), v))
          rest
  unfolding packet_len_loop
  round b fuel multiplier len rem_len rest w h e =
      let loop = λ (m l r : ℕ) (u : W). packet_len_loop net timer fuel m l r u in
      let fed = feeds.reads 1 timer w (omega (arith, ap length e)) in
      let in_bound : ltb 4 (len + 1) ≡ false = ground arith in
      record {
        world = fed.world;
        goes_on =
            ap
              (λ c.
                if c
                then (err mqtt_decode_remaining_length_error, w)
                else after_len_byte net loop multiplier rem_len (net.read 1 timer w))
              in_bound
            ∙ ap (after_len_byte net loop multiplier rem_len) fed.result
            ∙ ap (λ s. after_len_byte net loop multiplier rem_len (ok (take 1 s), fed.world)) e;
        left = fed.left ∙ ap (drop 1) e;
      }

  -- The last group, and one that others follow, where nothing wraps.
  last_group :
      (n fuel multiplier len rem_len : ℕ) (rest : List ℕ) (w : W)
      → n < 128
      → len < 4
      → rem_len + n * multiplier < 2 ^ 32
      → source w ≡ (n % 128) ∷ rest
      → LenRead
          (packet_len_loop net timer (suc fuel) multiplier len rem_len w)
          (rem_len + n * multiplier)
          rest
  last_group n fuel multiplier len rem_len rest w hn hl hr e =
      let group : n % 128 ≡ n = omega arith in
      let r = round (n % 128) fuel multiplier len rem_len rest w hl e in
      let fits : (rem_len + n % 128 * multiplier) % 2 ^ 32 ≡ rem_len + n * multiplier =
        ap (λ g. (rem_len + g * multiplier) % 2 ^ 32) group ∙ mod-eq_of_lt hr in
      record {
        world = r.world;
        succeeds =
            r.goes_on
            ∙ last_byte (packet_len_loop net timer fuel) (n % 128) multiplier rem_len r.world
                (omega arith)
            ∙ ap (λ m. (ok m, r.world)) fits;
        left = r.left;
      }

  inner_group :
      (n fuel multiplier len rem_len : ℕ) (rest : List ℕ) (w : W)
      → multiplier * 128 < 2 ^ 32
      → len < 4
      → rem_len + n % 128 * multiplier < 2 ^ 32
      → source w ≡ (n % 128 + 128) ∷ rest
      → Round
          (packet_len_loop net timer (suc fuel) multiplier len rem_len w)
          (packet_len_loop net timer fuel (multiplier * 128) 1 (rem_len + n % 128 * multiplier))
          rest
  inner_group n fuel multiplier len rem_len rest w hm hl hr e =
      let group : (n % 128 + 128) % 128 ≡ n % 128 = omega arith in
      let r = round (n % 128 + 128) fuel multiplier len rem_len rest w hl e in
      let fits : (rem_len + (n % 128 + 128) % 128 * multiplier) % 2 ^ 32
          ≡ rem_len + n % 128 * multiplier =
        ap (λ g. (rem_len + g * multiplier) % 2 ^ 32) group ∙ mod-eq_of_lt hr in
      record {
        world = r.world;
        goes_on =
            r.goes_on
            ∙ inner_byte (packet_len_loop net timer fuel) (n % 128 + 128) multiplier rem_len r.world
                (omega arith) (omega arith)
            ∙ ap
                (λ m.
                  packet_len_loop net timer fuel m 1
                    ((rem_len + (n % 128 + 128) % 128 * multiplier) % 2 ^ 32) r.world)
                (mod-eq_of_lt hm)
            ∙ ap (λ m. packet_len_loop net timer fuel (multiplier * 128) 1 m r.world) fits;
        left = r.left;
      }

  -- From a result on, to one that it equals.
  LenRead-from :
      {a b : Result ℕ × W} {n m : ℕ} {rest : List ℕ}
      → a ≡ b
      → n ≡ m
      → LenRead b n rest
      → LenRead a m rest
  LenRead-from e d r = record {
    world = r.world;
    succeeds = e ∙ r.succeeds ∙ ap (λ k. (ok k, r.world)) d;
    left = r.left;
  }

  packet_len_loop-len_groups :
      (k fuel n multiplier len rem_len : ℕ) (rest : List ℕ) (w : W)
      → n < 128 ^ suc k
      → k < fuel
      → len < 4
      → multiplier * 128 ^ k < 2 ^ 32
      → rem_len + n * multiplier < 2 ^ 32
      → source w ≡ len_groups (suc k) n ++ rest
      → LenRead
          (packet_len_loop net timer fuel multiplier len rem_len w)
          (rem_len + n * multiplier)
          rest
  packet_len_loop-len_groups k zero n multiplier len rem_len rest w hn hf hl hm hr e =
      absurd (omega arith)
  packet_len_loop-len_groups zero (suc fuel) n multiplier len rem_len rest w hn hf hl hm hr e =
      last_group n fuel multiplier len rem_len rest w (omega arith) hl hr
        (rw (ltb-false 0 (n / 128) (omega arith)) at e)
  packet_len_loop-len_groups (suc k) (suc fuel) n multiplier len rem_len rest w hn hf hl hm hr e =
      elim (Bool-cases (ltb 0 (n / 128))) [
        | inl more ↦
            let r =
              inner_group n fuel multiplier len rem_len (len_groups (suc k) (n / 128) ++ rest) w
                (pow_room multiplier k hm) hl (omega (arith, split_group n multiplier))
                (rw more at e) in
            LenRead-from r.goes_on (omega (arith, split_group n multiplier)) (
              packet_len_loop-len_groups k fuel (n / 128) (multiplier * 128) 1
                (rem_len + n % 128 * multiplier) rest r.world (omega arith) (omega arith)
                (omega arith) (omega (arith, pow_split multiplier k))
                (omega (arith, split_group n multiplier)) r.left)
        | inr last ↦
            last_group n fuel multiplier len rem_len rest w (ground arith) hl hr (rw last at e)
      ]

  -- With fuel for four bytes, a length below 2 ^ 28 is read from the stream that starts with its
  -- bytes, and nothing behind them is taken.
  pub decode_packet_remaining_len-len_bytes :
      (n fuel : ℕ) (rest : List ℕ) (w : W)
      → n < 2 ^ 28
      → 4 ≤ fuel
      → source w ≡ len_bytes n ++ rest
      → LenRead (decode_packet_remaining_len net fuel timer w) n rest
  unfolding decode_packet_remaining_len
  decode_packet_remaining_len-len_bytes n fuel rest w h hf e =
      let four : len_bytes n ≡ len_groups 4 n = len_bytes_four n h in
      LenRead-from refl (omega arith) (
        packet_len_loop-len_groups 3 fuel n 1 0 0 rest w (omega arith) (omega arith) (omega arith)
          (omega arith) (omega arith) (e ∙ ap (λ b. b ++ rest) four))
