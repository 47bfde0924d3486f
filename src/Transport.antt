-- ===== src/Transport.antt =====
-- The network and the clock under the packets. pClient->networkStack is a structure of function
-- pointers that the TLS wrapper fills, so they are parameters, over a type of states of the world
-- outside.
pub mod Send
pub mod Receive
use hornbill_examples.Common.{ℕ, Bool, List, if◌then◌else◌}
use hornbill_examples.Errors.{Result}
use hornbill_examples.Timer.{Timer, has_timer_expired}

-- networkStack.write gets the bytes from a pointer on and their number, and answers with the number
-- that it sent; networkStack.read gets the number of bytes that are wanted, and answers with the
-- bytes that it stored. The tick counter, the sleep of a tick and its milliseconds are FreeRTOS's.
pub record Network {ℓ} (W : Type ℓ) : Type ℓ where
  pub write : List ℕ → ℕ → Timer → W → Result ℕ × W
  pub read : ℕ → Timer → W → Result (List ℕ) × W
  pub tick_count : W → ℕ
  pub delay : W → W
  pub tick_ms : ℕ

-- The timer behind pTimer, and the world.
pub record Io {ℓ} (W : Type ℓ) : Type ℓ where
  pub timer : Timer
  pub world : W

-- has_timer_expired(pTimer), which may sleep.
unfoldable pub poll {ℓ} : {W : Type ℓ} → Network W → Io W → Bool × Io W
poll net io =
    let p = has_timer_expired (net.tick_count io.world) io.timer in
    (
      p.expired,
      record { timer = p.timer; world = if p.delayed then net.delay io.world else io.world },
    )
