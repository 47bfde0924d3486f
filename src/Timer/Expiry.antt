-- ===== src/Timer/Expiry.antt =====
-- When a countdown ends, also across a wrap-around of the tick counter.
use hornbill_examples.Common.{
  ℕ, zero, suc, ◌+◌, ◌-◌, ◌*◌, ◌/◌, ◌%◌, ◌^◌, ◌≤◌, ◌<◌, ◌≡◌, ◌↔◌, refl, arith, leb, ltb, Bool-cases,
  inl, inr, ltb-false, ltb→lt, ltb→le, lt→ltb, true, false, if◌then◌else◌,
}
use native.Mathlib.Nat.{mod-eq_of_lt, mul-le-mul_right}
use hornbill_examples.Timer.{
  Timer, elapsed_ticks, has_timer_expired, countdown_ms, left_ms, countdown_sec,
}

-- A poll `elapsed` ticks after the start of a countdown, fewer than 2 ^ 32, answers by comparing
-- these ticks with the timeout's, also where the tick counter has wrapped around in between.
pub has_timer_expired-countdown_ms :
    (tick_ms now timeout elapsed : ℕ)
    → now < 2 ^ 32
    → elapsed < 2 ^ 32
    → (has_timer_expired ((now + elapsed) % 2 ^ 32) (countdown_ms tick_ms now timeout)).expired
      ≡ leb (timeout / tick_ms) elapsed
unfolding has_timer_expired countdown_ms
has_timer_expired-countdown_ms tick_ms now timeout elapsed hn he =
    let same : elapsed_ticks ((now + elapsed) % 2 ^ 32) now ≡ elapsed = omega arith in rw same

-- Polling changes nothing that a later poll depends on but the tick of the last poll: two polls in
-- a row answer as the second alone would.
pub has_timer_expired-poll :
    (now later : ℕ) (timer : Timer)
    → (has_timer_expired later (has_timer_expired now timer).timer).expired
      ≡ (has_timer_expired later timer).expired
unfolding has_timer_expired
has_timer_expired-poll now later timer = refl

product_pos : (a b : ℕ) → 0 < a → 0 < b → 0 < a * b
product_pos zero b ha hb = elim ha [ ]
product_pos (suc a) zero ha hb = elim hb [ ]
product_pos (suc a) (suc b) ha hb = omega arith

some_left :
    (t e tick_ms : ℕ) → e < t → 0 < tick_ms → t * tick_ms < 2 ^ 32 → 0 < (t - e) * tick_ms % 2 ^ 32
some_left t e tick_ms h pos fits =
    let less : (t - e) * tick_ms ≤ t * tick_ms = mul-le-mul_right tick_ms (omega arith) in
    let whole : (t - e) * tick_ms % 2 ^ 32 ≡ (t - e) * tick_ms = mod-eq_of_lt (omega arith) in
    rw whole (product_pos (t - e) tick_ms (omega arith) pos)

-- Where the timeout in milliseconds fits a uint32_t and a tick has a length, there are no
-- milliseconds left exactly when the timer has expired.
pub left_ms-zero_iff :
    (tick_ms now : ℕ) (timer : Timer)
    → 0 < tick_ms
    → timer.timeout_ticks * tick_ms < 2 ^ 32
    → (left_ms tick_ms now timer ≡ 0) ↔ ((has_timer_expired now timer).expired ≡ true)
unfolding left_ms has_timer_expired
left_ms-zero_iff tick_ms now timer pos fits =
    ground (arith, some_left timer.timeout_ticks (elapsed_ticks now timer.start_ticks) tick_ms)

-- A countdown of seconds is one of a thousand times as many milliseconds, and no message is logged,
-- as long as these fit a uint32_t; beyond that the message is logged and the timer is set to the
-- wrapped product.
pub countdown_sec_lem :
    (tick_ms now timeout : ℕ)
    → countdown_sec tick_ms now timeout ≡ (
        if ltb (timeout * 1000) (2 ^ 32)
        then (countdown_ms tick_ms now (timeout * 1000), false)
        else (countdown_ms tick_ms now (timeout * 1000 % 2 ^ 32), true))
unfolding countdown_sec
countdown_sec_lem tick_ms now timeout = elim (Bool-cases (ltb (timeout * 1000) (2 ^ 32))) [
  | inl fits ↦
      let quiet : ltb ((2 ^ 32 - 1) / 1000) timeout ≡ false =
        ltb-false _ timeout (omega (arith, ltb→lt)) in
      let whole : timeout * 1000 % 2 ^ 32 ≡ timeout * 1000 = omega (arith, ltb→lt) in
      rw (fits, quiet, whole)
  | inr large ↦ rw (large, lt→ltb ((2 ^ 32 - 1) / 1000) timeout (omega (arith, ltb→le)))
]
