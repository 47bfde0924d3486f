-- ===== src/Wire/Writing.antt =====
-- What the writing primitives put into a buffer, and how such writes are chained.
use hornbill_examples.Common.{
  ℕ, zero, suc, ◌/◌, ◌%◌, ◌≤◌, ◌≡◌, refl, ap, ◌∙◌, arith, List, [], ◌∷◌, ◌++◌, append_assoc,
  append-nil, take-length, length, length-append, take, drop, lt→ltb,
}
use hornbill_examples.Errors.{Result, ok, ◌>>=◌}
use hornbill_examples.Wire.{Cursor, write_char, write_uint_16, memcpy, write_utf8_string}

-- The pointer moved over `bs`, which now stand before it.
abbrev pub advance : Cursor → List ℕ → Cursor
advance c bs = record { done = c.done ++ bs; room = drop (length bs) c.room }

-- `f` writes exactly the bytes `bs` wherever they fit, and moves the pointer behind them.
pub record Writes (f : Cursor → Result Cursor) (bs : List ℕ) : Type 0 where
  pub runs : (c : Cursor) → length bs ≤ length c.room → f c ≡ ok (advance c bs)

drop-nil : (n : ℕ) → drop {A = ℕ} n [] ≡ []
drop-nil zero = refl
drop-nil (suc n) = refl

drop-append_two :
    (bs cs room : List ℕ) → drop (length cs) (drop (length bs) room) ≡ drop (length (bs ++ cs)) room
drop-append_two [] cs room = refl
drop-append_two (b ∷ bs) cs [] = drop-nil (length cs)
drop-append_two (b ∷ bs) cs (x ∷ room) = drop-append_two bs cs room

pub advance-advance :
    (c : Cursor) (bs cs : List ℕ) → advance (advance c bs) cs ≡ advance c (bs ++ cs)
advance-advance c bs cs =
    λ i. record { done = append_assoc c.done bs cs i; room = drop-append_two bs cs c.room i }

pub length-drop_le :
    (bs cs room : List ℕ)
    → length (bs ++ cs) ≤ length room
    → length cs ≤ length (drop (length bs) room)
length-drop_le [] cs room h = h
length-drop_le (b ∷ bs) cs [] h = omega arith
length-drop_le (b ∷ bs) cs (x ∷ room) h = length-drop_le bs cs room (omega arith)

-- One write and then another put the bytes of both.
pub Writes-bind :
    {f g : Cursor → Result Cursor} {bs cs : List ℕ}
    → Writes f bs
    → Writes g cs
    → Writes (λ c. f c >>= g) (bs ++ cs)
Writes-bind {f} {g} {bs} {cs} wf wg = record {
  runs = λ c h.
      rw (wf.runs c (omega (arith, length-append bs cs)))
        (wg.runs (advance c bs) (length-drop_le bs cs c.room h) ∙ ap ok (advance-advance c bs cs));
}

pub write_char-Writes : (b : ℕ) → Writes (write_char b) (b ∷ [])
unfolding write_char
write_char-Writes b = record { runs = λ c h. ground arith }

pub ok-Writes : Writes ok []
ok-Writes = record { runs = λ c h. rw append-nil }

-- The two bytes of a number below 65536, the high one first.
abbrev pub uint16_bytes : ℕ → List ℕ
uint16_bytes n = (n / 256 % 256) ∷ (n % 256) ∷ []

pub write_uint_16-Writes : (n : ℕ) → Writes (write_uint_16 n) (uint16_bytes n)
unfolding write_uint_16
write_uint_16-Writes n = Writes-bind (write_char-Writes _) (write_char-Writes _)

pub memcpy-Writes : (s : List ℕ) (n : ℕ) → n ≤ length s → Writes (memcpy s n) (take n s)
unfolding memcpy
memcpy-Writes s zero h = ok-Writes
memcpy-Writes [] (suc n) h = absurd (omega arith)
memcpy-Writes (b ∷ s) (suc n) h =
    Writes-bind (write_char-Writes b) (memcpy-Writes s n (omega arith))

-- A whole string behind its length, and a whole list copied.
abbrev pub utf8_bytes : List ℕ → List ℕ
utf8_bytes s = uint16_bytes (length s) ++ s

pub memcpy_whole-Writes : (s : List ℕ) → Writes (memcpy s (length s)) s
memcpy_whole-Writes s = rw take-length at (memcpy-Writes s (length s) (omega arith))

pub write_utf8_string-Writes : (s : List ℕ) → Writes (write_utf8_string s (length s)) (utf8_bytes s)
unfolding write_utf8_string
write_utf8_string-Writes [] = Writes-bind (write_uint_16-Writes 0) ok-Writes
write_utf8_string-Writes (b ∷ s) = Writes-bind (write_uint_16-Writes (length (b ∷ s))) (record {
  runs =
      λ c k. rw (lt→ltb 0 (length (b ∷ s)) (omega arith)) ((memcpy_whole-Writes (b ∷ s)).runs c k);
})
