-- ===== src/Transport/Send.antt =====
-- aws_iot_mqtt_internal_send_packet:
-- arduino-esp32/AWS_IOT/src/aws_iot_mqtt_client_common_internal.c.
pub mod Delivery
use hornbill_examples.Common.{
  ℕ, zero, suc, ◌+◌, ◌-◌, ◌%◌, ◌^◌, ltb, ◌==◌, if◌then◌else◌, Bool, true, false, List, drop,
}
use hornbill_examples.Errors.{Result, ok, err, fault, failure, mqtt_tx_buffer_too_short_error}
use hornbill_examples.Threads.{Semaphore}
use hornbill_examples.Client.{Client}
use hornbill_examples.Client.State.{lock_mutex, unlock_mutex}
use hornbill_examples.Transport.{Network, Io, poll}

module _ {ℓ} {W : Type ℓ} (net : Network W) (buf : List ℕ) (len : ℕ) where
  -- What follows a write: the loop goes on with what was sent, and a failed write leaves it.
  abbrev pub after_write : (ℕ → Io W → Result ℕ × Io W) → ℕ → Io W → Result ℕ × W → Result ℕ × Io W
  after_write rest sent io (ok sent_len, world) =
      rest ((sent + sent_len) % 2 ^ 32) (record io { world = world })
  after_write rest sent io (err e, world) = (ok sent, record io { world = world })
  after_write rest sent io (fault, world) = (fault, record io { world = world })

  -- The body of the loop, behind the poll of the timer.
  abbrev pub after_poll : (ℕ → Io W → Result ℕ × Io W) → ℕ → Bool × Io W → Result ℕ × Io W
  after_poll rest sent (true, io) = (ok sent, io)
  after_poll rest sent (false, io) =
      after_write rest sent io (net.write (drop sent buf) (len - sent) io.timer io.world)

  -- The `while` loop on fuel: the number of bytes that are sent when it is left. A fault stands for
  -- fuel that ran out.
  unfoldable pub send_loop : ℕ → ℕ → Io W → Result ℕ × Io W
  send_loop zero sent io = (fault, io)
  send_loop (suc fuel) sent io =
      let rest = λ (n : ℕ) (i : Io W). send_loop fuel n i in
      if ltb sent len then after_poll rest sent (poll net io) else (ok sent, io)

  -- What follows the loop: the unlock, and the test that all is sent.
  abbrev pub after_loop : Result (Unit {0}) → Result ℕ × Io W → Result (Unit {0}) × Io W
  after_loop (err e) (r, io) = (err e, io)
  after_loop fault (r, io) = (fault, io)
  after_loop (ok _) (ok sent, io) = (if sent == len then ok tt else err failure, io)
  after_loop (ok _) (err e, io) = (err e, io)
  after_loop (ok _) (fault, io) = (fault, io)

  abbrev pub after_lock : Result (Unit {0}) → Semaphore → Io W → Result (Unit {0}) × Io W
  after_lock (ok _) s io = after_loop (unlock_mutex s) (send_loop (suc len) 0 io)
  after_lock (err e) s io = (err e, io)
  after_lock fault s io = (fault, io)

-- `length` is len, and the timer is io's. The fuel allows for one byte in each round.
unfoldable pub send_packet {ℓ} :
    {W : Type ℓ} → Network W → Semaphore → Client → ℕ → Io W → Result (Unit {0}) × Io W
send_packet net s c len io =
    if ltb len c.write_buf_size
    then after_lock net c.write_buf len (lock_mutex s c) s io
    else (err mqtt_tx_buffer_too_short_error, io)
