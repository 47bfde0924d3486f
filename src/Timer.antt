-- ===== src/Timer.antt =====
-- The countdown timer over the FreeRTOS tick counter: arduino-esp32/AWS_IOT/src/timer.c.
-- xTaskGetTickCount and portTICK_PERIOD_MS belong to FreeRTOS: the count is the argument `now`, a
-- uint32_t, and the milliseconds of a tick are the argument `tick_ms`.
pub mod Expiry
use hornbill_examples.Common.{
  ℕ, ◌+◌, ◌-◌, ◌*◌, ◌/◌, ◌%◌, ◌^◌, ltb, leb, ◌==◌, if◌then◌else◌, Bool, false,
}

pub record Timer : Type 0 where
  pub start_ticks : ℕ
  pub timeout_ticks : ℕ
  pub last_polled_ticks : ℕ

-- `now - timer->start_ticks` of two uint32_t.
abbrev pub elapsed_ticks : ℕ → ℕ → ℕ
elapsed_ticks now start_ticks = (now + 2 ^ 32 - start_ticks) % 2 ^ 32

-- The answer, the polled timer, and whether the caller is made to sleep for a tick.
pub record Poll : Type 0 where
  pub expired : Bool
  pub delayed : Bool
  pub timer : Timer

unfoldable pub has_timer_expired : ℕ → Timer → Poll
has_timer_expired now timer =
    let expired = leb timer.timeout_ticks (elapsed_ticks now timer.start_ticks) in
    record {
      expired = expired;
      delayed = if expired then false else now == timer.last_polled_ticks;
      timer = record timer { last_polled_ticks = now };
    }

unfoldable pub countdown_ms : ℕ → ℕ → ℕ → Timer
countdown_ms tick_ms now timeout = record {
  start_ticks = now;
  timeout_ticks = timeout / tick_ms;
  last_polled_ticks = 0;
}

unfoldable pub left_ms : ℕ → ℕ → Timer → ℕ
left_ms tick_ms now timer =
    let elapsed = elapsed_ticks now timer.start_ticks in
    if ltb elapsed timer.timeout_ticks
    then (timer.timeout_ticks - elapsed) * tick_ms % 2 ^ 32
    else 0

-- The timer, and whether the out-of-range message is logged.
unfoldable pub countdown_sec : ℕ → ℕ → ℕ → Timer × Bool
unfolding countdown_ms
countdown_sec tick_ms now timeout =
    (countdown_ms tick_ms now (timeout * 1000 % 2 ^ 32), ltb ((2 ^ 32 - 1) / 1000) timeout)

unfoldable pub init_timer : Timer
init_timer = record { start_ticks = 0; timeout_ticks = 0; last_polled_ticks = 0 }
