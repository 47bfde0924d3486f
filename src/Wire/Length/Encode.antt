-- ===== src/Wire/Length/Encode.antt =====
-- What write_len_to_buffer writes, and how much room the packet length function asks for.
use hornbill_examples.Common.{
  ℕ, zero, suc, ◌+◌, ◌/◌, ◌%◌, ◌^◌, ◌<◌, ◌≡◌, arith, List, [], ◌∷◌, length, ltb, if◌then◌else◌,
  Bool-cases, ◌==◌, ◌||◌, true, false, inl, inr, bit_or_top, ltb-false,
}
use hornbill_examples.Wire.Writing.{Writes, Writes-bind, write_char-Writes, ok-Writes}
use hornbill_examples.Wire.Length.{
  write_len_loop, write_len_to_buffer, get_final_packet_length_from_remaining_length,
}

-- The MQTT encoding of a length: groups of seven bits, the lowest first, with the top bit set on
-- every byte but the last.
abbrev pub len_groups : ℕ → ℕ → List ℕ
len_groups zero n = []
len_groups (suc k) n =
    if ltb 0 (n / 128) then (n % 128 + 128) ∷ len_groups k (n / 128) else (n % 128) ∷ []

abbrev pub len_bytes : ℕ → List ℕ
len_bytes n = len_groups 5 n

-- One round on the last group, and on a group that others follow.
last_group-Writes :
    (k n : ℕ) → ltb 0 (n / 128) ≡ false → Writes (write_len_loop (suc k) n) (n % 128 ∷ [])
unfolding write_len_loop
last_group-Writes k n last = record {
  runs = λ c h. rw last ((Writes-bind (write_char-Writes (n % 128)) ok-Writes).runs c h);
}

inner_group-Writes :
    (k n : ℕ) {bs : List ℕ}
    → ltb 0 (n / 128) ≡ true
    → Writes (write_len_loop k (n / 128)) bs
    → Writes (write_len_loop (suc k) n) ((n % 128 + 128) ∷ bs)
unfolding write_len_loop
inner_group-Writes k n more w = record {
  runs = λ c h.
      rw (more, bit_or_top (n % 128) (omega arith))
        ((Writes-bind (write_char-Writes (n % 128 + 128)) w).runs c h);
}

write_len_loop-Writes :
    (k n : ℕ) → n < 128 ^ suc k → Writes (write_len_loop (suc k) n) (len_groups (suc k) n)
write_len_loop-Writes zero n h =
    let last : ltb 0 (n / 128) ≡ false = ltb-false 0 (n / 128) (omega arith) in
    rw last (last_group-Writes 0 n last)
write_len_loop-Writes (suc k) n h = elim (Bool-cases (ltb 0 (n / 128))) [
  | inl more ↦
      rw more (inner_group-Writes (suc k) n more (write_len_loop-Writes k (n / 128) (omega arith)))
  | inr last ↦ rw last (last_group-Writes (suc k) n last)
]

-- Every uint32_t is written in at most five groups, so the loop ends within its fuel.
pub write_len_to_buffer-Writes : (n : ℕ) → n < 2 ^ 32 → Writes (write_len_to_buffer n) (len_bytes n)
unfolding write_len_to_buffer
write_len_to_buffer-Writes n h = write_len_loop-Writes 4 n (omega arith)

-- The number of bytes in the field.
pub length-len_bytes :
    (n : ℕ)
    → n < 2 ^ 28
    → length (len_bytes n)
      ≡ (if ltb n 128 then 1 else (if ltb n 16384 then 2 else (if ltb n 2097152 then 3 else 4)))
length-len_bytes n h = ground arith

-- For a remaining length below 2 ^ 28 the function asks for the header byte, the length field and
-- the rest, and for one byte more at the three lengths where adding the header byte first crosses
-- a bound of the field.
pub get_final_packet_length_lem :
    (n : ℕ)
    → n < 2 ^ 28
    → get_final_packet_length_from_remaining_length n
      ≡ 1 + length (len_bytes n) + n + (if n == 127 || (n == 16383 || n == 2097151) then 1 else 0)
unfolding get_final_packet_length_from_remaining_length
get_final_packet_length_lem n h = ground arith

len_groups_enough : (k n : ℕ) → n < 128 ^ suc k → len_groups (suc (suc k)) n ≡ len_groups (suc k) n
len_groups_enough zero n h = rw (ltb-false 0 (n / 128) (omega arith))
len_groups_enough (suc k) n h = rw (len_groups_enough k (n / 128) (omega arith))

-- Below 2 ^ 28 four groups are enough.
pub len_bytes_four : (n : ℕ) → n < 2 ^ 28 → len_bytes n ≡ len_groups 4 n
len_bytes_four n h = len_groups_enough 3 n (omega arith)
