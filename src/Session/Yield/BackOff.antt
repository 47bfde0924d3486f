-- ===== src/Session/Yield/BackOff.antt =====
-- The waits between the attempts to reconnect.
use hornbill_examples.Common.{ℕ, zero, suc, ◌*◌}
use hornbill_examples.Errors.{Result}
use hornbill_examples.Exec.{Running}
use hornbill_examples.Session.{System}
use hornbill_examples.Session.Yield.{min_reconnect_wait_interval, back_off}

-- The interval after `n` attempts that failed.
abbrev pub doubled : ℕ → ℕ
doubled zero = min_reconnect_wait_interval
doubled (suc n) = doubled n * 2

module _ {ℓ} {W : Type ℓ} (sys : System W) where
  -- The client after `n` attempts that failed with the code `rc`.
  abbrev pub failures : Result (Unit {0}) → ℕ → Running W → Running W
  failures rc zero s = s
  failures rc (suc n) s = (back_off sys rc (failures rc n s)).1
