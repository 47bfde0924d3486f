-- ===== src/Session.antt =====
-- The operations of the client over the network: what the functions of
-- arduino-esp32/AWS_IOT/src/aws_iot_mqtt_client_common_internal.c,
-- aws_iot_mqtt_client_publish.c, aws_iot_mqtt_client_subscribe.c,
-- aws_iot_mqtt_client_unsubscribe.c, aws_iot_mqtt_client_connect.c and
-- aws_iot_mqtt_client_yield.c have in common.
pub mod Read
pub mod Publish
pub mod Subscribe
pub mod Unsubscribe
pub mod Connect
pub mod Yield
pub mod Steady
pub mod Restore
use hornbill_examples.Common.{
  ℕ, ◌+◌, ◌%◌, ◌^◌, leb, if◌then◌else◌, Bool, List, Option, length, take, ◌++◌,
}
use hornbill_examples.Errors.{Result, ok, err, fault}
use hornbill_examples.Threads.{Semaphore}
use hornbill_examples.Timer.{Timer, countdown_ms, countdown_sec}
use hornbill_examples.Wire.{Cursor}
use hornbill_examples.Client.{Client, ClientState}
use hornbill_examples.Client.State.{Outcome, set_client_state, first_error}
use hornbill_examples.Client.PacketId.{get_next_packet_id}
use hornbill_examples.Client.Deliver.{Application}
use hornbill_examples.Transport.{Network, Io, poll}
use hornbill_examples.Transport.Send.{send_packet}
use hornbill_examples.Transport.Receive.{read_packet}
use hornbill_examples.Exec.{
  Running, Exec, pure, lift, gets, attempt, modify, set_timer, ◌>>=◌, ◌>>◌,
}

-- What the client calls and is not part of it: the network stack, the semaphores, with the answers
-- to the next take and give, the handlers of the application, and the one for a lost connection.
-- `rounds` bounds the loops that the code does not bound.
pub record System {ℓ} (W : Type ℓ) : Type ℓ where
  pub network : Network W
  pub stack_connect : W → Result (Unit {0}) × W
  pub stack_disconnect : W → W
  pub stack_destroy : W → Result (Unit {0}) × W
  pub is_connected : Option (W → Result (Unit {0}) × W)
  pub semaphore : W → Semaphore × W
  pub application : Application
  pub on_disconnect : ℕ → ℕ → Client → Client
  pub rounds : ℕ

module _ {ℓ} {W : Type ℓ} (sys : System W) where
  -- A call that works on the world alone.
  unfoldable pub outside : {A : Type 0} → (W → Result A × W) → Exec W A
  outside f s = let (r, w) = f s.world in (r, record s { world = w })

  -- The answers that the semaphore of the next lock gives.
  unfoldable pub next_semaphore : Exec W Semaphore
  next_semaphore s =
      let (answers, w) = sys.semaphore s.world in (ok answers, record s { world = w })

  unfoldable pub change_state_with : Semaphore → ClientState → ClientState → Exec W (Unit {0})
  change_state_with answers expected new_state s =
      let (r, c) = set_client_state answers expected new_state s.client in
      (r, record s { client = c })

  -- aws_iot_mqtt_set_client_state
  unfoldable pub change_state : ClientState → ClientState → Exec W (Unit {0})
  change_state expected new_state = do
    answers ← next_semaphore
    change_state_with answers expected new_state

  -- has_timer_expired(pTimer)
  unfoldable pub expired : Exec W Bool
  expired s =
      let (b, io) = poll sys.network (record { timer = s.timer; world = s.world }) in
      (ok b, record s { timer = io.timer; world = io.world })

  unfoldable pub send_with : Semaphore → ℕ → Exec W (Unit {0})
  send_with answers len s =
      let (r, io) =
        send_packet sys.network answers s.client len
          (record { timer = s.timer; world = s.world }) in
      (r, record s { timer = io.timer; world = io.world })

  -- aws_iot_mqtt_internal_send_packet
  unfoldable pub send : ℕ → Exec W (Unit {0})
  send len = do answers ← next_semaphore; send_with answers len

  -- _aws_iot_mqtt_internal_read_packet
  unfoldable pub receive : Exec W ℕ
  receive s =
      let (r, (buf, w)) = read_packet sys.network sys.rounds s.client s.timer s.world in
      (r, record s { client = record s.client { read_buf = buf }; world = w })

  -- A timer that counts down `ms` from now.
  unfoldable pub timer_ms : ℕ → Running W → Timer
  timer_ms ms s = countdown_ms sys.network.tick_ms (sys.network.tick_count s.world) ms

  unfoldable pub timer_sec : ℕ → Running W → Timer
  timer_sec sec s = (countdown_sec sys.network.tick_ms (sys.network.tick_count s.world) sec).0

  -- An operation with a timer of its own, `Timer timer; … countdown_ms(&timer, ms);`.
  abbrev pub with_old : {A : Type 0} → Timer → Result A × Running W → Result A × Running W
  with_old t (r, s) = (r, record s { timer = t })

  unfoldable pub with_timer : {A : Type 0} → ℕ → Exec W A → Exec W A
  with_timer ms m s = with_old s.timer (m (record s { timer = timer_ms ms s }))

  -- The transmit buffer with a packet, whose length is the result.
  abbrev pub written : Result Cursor → Exec W ℕ
  written (ok c) s =
      (ok (length c.done), record s { client = record s.client { write_buf = c.done ++ c.room } })
  written (err e) s = (err e, s)
  written fault s = (fault, s)

  unfoldable pub serialize : (Client → Result Cursor) → Exec W ℕ
  serialize f s = written (f s.client) s

  -- aws_iot_mqtt_get_next_packet_id
  unfoldable pub next_id : Exec W ℕ
  next_id s = let (id, c) = get_next_packet_id s.client in (ok id, record s { client = c })

  -- An operation in a state of its own: the client is taken from `idle` to `busy` and back, and an
  -- error of the operation goes before one of the way back.
  unfoldable pub in_state : ClientState → ClientState → Exec W (Unit {0}) → Exec W (Unit {0})
  in_state idle busy m = do
    change_state idle busy
    r ← attempt m
    back ← attempt (change_state busy idle)
    lift (first_error r back)

-- The first characters of a string; to read behind its end is undefined.
unfoldable pub chars : ℕ → List ℕ → Result (List ℕ)
chars len name = if leb len (length name) then ok (take len name) else fault
