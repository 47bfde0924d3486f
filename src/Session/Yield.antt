-- ===== src/Session/Yield.antt =====
-- Keeping the connection: arduino-esp32/AWS_IOT/src/aws_iot_mqtt_client_yield.c. pClient is taken to
-- be there.
pub mod BackOff
pub mod States
pub mod Rounds
pub mod Loop
pub mod Outcome
use hornbill_examples.Common.{
  ℕ, zero, suc, ◌+◌, ◌*◌, ◌%◌, ◌^◌, ◌==◌, ◌||◌, ltb, if◌then◌else◌, not, Bool, true, false, Option,
  none, some,
}
use hornbill_examples.Errors.{
  IotError, Result, ok, err, fault, null_value_error, network_disconnected_error,
  network_attempting_reconnect, network_reconnected, network_reconnect_timed_out_error,
  network_physical_layer_connected, network_physical_layer_disconnected,
  network_manually_disconnected, network_ssl_read_error, network_ssl_read_timeout_error,
  network_ssl_write_error, network_ssl_write_timeout_error, mqtt_client_not_idle_error,
}
use hornbill_examples.Timer.{Timer}
use hornbill_examples.Wire.Header.{pingreq}
use hornbill_examples.Client.{
  Client, ClientState, connected_idle, connected_yield_in_progress, disconnected_error,
  disconnected_manually, pending_reconnect, is_client_connected,
}
use hornbill_examples.Client.State.{state_code, first_error}
use hornbill_examples.Transport.{poll}
use hornbill_examples.Exec.{Running, Exec, pure, raise, lift, gets, attempt, modify, ◌>>=◌, ◌>>◌}
use hornbill_examples.Session.{
  System, outside, change_state, expired, send, serialize, with_timer, timer_ms, timer_sec,
}
use hornbill_examples.Session.Read.{cycle_read, is_error, is_disconnected, Typed}
use hornbill_examples.Session.Connect.{
  write_zero, set_state, close_stack, disconnect, attempt_reconnect,
}

-- AWS_IOT_MQTT_MIN_RECONNECT_WAIT_INTERVAL and AWS_IOT_MQTT_MAX_RECONNECT_WAIT_INTERVAL.
abbrev pub min_reconnect_wait_interval : ℕ
min_reconnect_wait_interval = 1000

abbrev pub max_reconnect_wait_interval : ℕ
max_reconnect_wait_interval = 128000

abbrev pub is_any : IotError → Bool
is_any e = true

abbrev pub is_physically_connected : IotError → Bool
is_physically_connected network_physical_layer_connected = true
is_physically_connected _ = false

abbrev pub is_reconnected : IotError → Bool
is_reconnected network_reconnected = true
is_reconnected _ = false

abbrev pub is_ssl_error : IotError → Bool
is_ssl_error network_ssl_read_error = true
is_ssl_error network_ssl_read_timeout_error = true
is_ssl_error network_ssl_write_error = true
is_ssl_error network_ssl_write_timeout_error = true
is_ssl_error _ = false

-- NETWORK_DISCONNECTED_ERROR and NETWORK_ATTEMPTING_RECONNECT.
abbrev pub is_not_connected : IotError → Bool
is_not_connected network_disconnected_error = true
is_not_connected network_attempting_reconnect = true
is_not_connected _ = false

-- The interval that is waited next.
unfoldable pub next_wait_interval : Client → ℕ
next_wait_interval c = c.current_reconnect_wait_interval * 2 % 2 ^ 32

abbrev pub count_disconnect : Client → Client
count_disconnect c = record c {
  counter_network_disconnected = (c.counter_network_disconnected + 1) % 2 ^ 32;
}

-- What a round of the loop leaves in yieldRc, and whether the loop goes on to its test.
abbrev pub Round : Type 0
Round = Result (Unit {0}) × Bool

abbrev pub timed_out : Round
timed_out = (err network_reconnect_timed_out_error, false)

module _ {ℓ} {W : Type ℓ} (sys : System W) where
  unfoldable pub force_client_disconnect : Exec W (Unit {0})
  force_client_disconnect = do set_state disconnected_error; attempt (close_stack sys); pure tt

  -- `if(NULL != disconnectHandler) disconnectHandler(pClient, disconnectHandlerData);`
  abbrev pub tell : Option ℕ → ℕ → Exec W (Unit {0})
  tell none handler_data = pure tt
  tell (some h) handler_data = modify (sys.on_disconnect h handler_data)

  unfoldable pub tell_application : Exec W (Unit {0})
  tell_application = do
    handler ← gets (λ c. c.disconnect_handler)
    handler_data ← gets (λ c. c.disconnect_handler_data)
    tell handler handler_data

  unfoldable pub handle_disconnect : Exec W (Unit {0})
  handle_disconnect = do
    r ← attempt (disconnect sys)
    if is_error is_any r then force_client_disconnect else pure tt
    tell_application
    set_state disconnected_error
    raise network_disconnected_error

  -- has_timer_expired on the timers of the client.
  unfoldable pub ping_expired : Exec W Bool
  ping_expired s =
      let (b, io) = poll sys.network (record { timer = s.client.ping_timer; world = s.world }) in
      (ok b, record s { client = record s.client { ping_timer = io.timer }; world = io.world })

  unfoldable pub reconnect_expired : Exec W Bool
  reconnect_expired s =
      let (b, io) =
        poll sys.network (record { timer = s.client.reconnect_delay_timer; world = s.world }) in
      (
        ok b,
        record s {
          client = record s.client { reconnect_delay_timer = io.timer };
          world = io.world;
        },
      )

  -- A new interval, which is waited from now on.
  unfoldable pub wait_for : ℕ → Exec W (Unit {0})
  wait_for ms s = (
    ok tt,
    record s {
      client = record s.client {
        current_reconnect_wait_interval = ms;
        reconnect_delay_timer = timer_ms sys ms s;
      };
    },
  )

  -- The interval is doubled before it is compared, and kept where it is too long.
  unfoldable pub back_off : Result (Unit {0}) → Exec W (Unit {0})
  back_off rc = do
    ms ← gets next_wait_interval
    modify (λ c. record c { current_reconnect_wait_interval = ms })
    if ltb max_reconnect_wait_interval ms
        then raise network_reconnect_timed_out_error
        else do wait_for ms; lift rc

  abbrev pub physical_layer : Option (W → Result (Unit {0}) × W) → Exec W (Unit {0})
  physical_layer none = raise network_physical_layer_disconnected
  physical_layer (some is_connected) = outside sys is_connected

  unfoldable pub resume_yield : Exec W (Unit {0})
  resume_yield = do
    change_state sys connected_idle connected_yield_in_progress
    raise network_reconnected

  unfoldable pub try_reconnect : Exec W (Unit {0})
  try_reconnect = do
    r ← attempt (attempt_reconnect sys)
    if is_error is_reconnected r then resume_yield else back_off r

  unfoldable pub handle_reconnect : Exec W (Unit {0})
  handle_reconnect = do
    due ← reconnect_expired
    if not due then raise network_attempting_reconnect else do
      rc ← attempt (physical_layer sys.is_connected)
      if is_error is_physically_connected rc then try_reconnect else back_off rc

  unfoldable pub start_ping : Exec W (Unit {0})
  start_ping s = (
    ok tt,
    record s {
      client = record s.client {
        is_ping_outstanding = true;
        ping_timer = timer_sec sys s.client.keep_alive_interval s;
      };
    },
  )

  unfoldable pub send_ping : Exec W (Unit {0})
  send_ping = do
    ms ← gets (λ c. c.command_timeout_ms)
    with_timer sys ms (do
      n ← serialize sys (write_zero pingreq)
      sent ← attempt (send sys n)
      if is_error is_any sent then handle_disconnect else start_ping)

  unfoldable pub keep_alive : Exec W (Unit {0})
  keep_alive = do
    interval ← gets (λ c. c.keep_alive_interval)
    if interval == 0 then pure tt else do
      due ← ping_expired
      if not due then pure tt else do
        outstanding ← gets (λ c. c.is_ping_outstanding)
        if outstanding then handle_disconnect else send_ping

  abbrev pub after_read : Result (Unit {0}) → Exec W (Unit {0})
  after_read (ok _) = keep_alive
  after_read (err e) = if is_ssl_error e then handle_disconnect else raise e
  after_read fault = lift fault

  abbrev pub reconnect_started : Result (Unit {0}) → Exec W Round
  reconnect_started rc =
      if is_error is_any rc
      then pure (rc, false)
      else (wait_for min_reconnect_wait_interval >>= λ _.
          pure (err network_attempting_reconnect, true))

  unfoldable pub lost_round : Exec W Round
  lost_round = do
    modify count_disconnect
    enabled ← gets (λ c. c.is_auto_reconnect_enabled)
    if not enabled then pure (err network_disconnected_error, false) else do
      rc ← attempt (change_state sys disconnected_error pending_reconnect)
      reconnect_started rc

  unfoldable pub connected_round : Exec W Round
  connected_round = do
    read ← cycle_read sys 0
    rc ← attempt (after_read read.0)
    if is_error is_disconnected rc then lost_round else pure (rc, not (is_error is_any rc))

  unfoldable pub pending_round : Exec W Round
  pending_round = do
    ms ← gets (λ c. c.current_reconnect_wait_interval)
    if ltb max_reconnect_wait_interval ms
        then pure timed_out
        else do rc ← attempt handle_reconnect; pure (rc, true)

  unfoldable pub yield_round : Exec W Round
  yield_round = do
    st ← gets (λ c. c.client_state)
    if state_code pending_reconnect == state_code st then pending_round else connected_round

  abbrev pub after_test : Exec W (Unit {0}) → Result (Unit {0}) → Bool → Exec W (Unit {0})
  after_test rest rc true = lift rc
  after_test rest rc false = rest

  abbrev pub after_round : Exec W (Unit {0}) → Round → Exec W (Unit {0})
  after_round rest (rc, false) = lift rc
  after_round rest (rc, true) = expired sys >>= after_test rest rc

  -- A fault stands for rounds that ran out.
  unfoldable pub yield_loop : ℕ → Exec W (Unit {0})
  yield_loop zero = lift fault
  yield_loop (suc rounds) = let rest = yield_loop rounds in yield_round >>= after_round rest

  unfoldable pub internal_yield : ℕ → Exec W (Unit {0})
  internal_yield timeout_ms = with_timer sys timeout_ms (yield_loop sys.rounds)

  abbrev pub start_yield : ClientState → Exec W (Unit {0})
  start_yield st = if state_code pending_reconnect == state_code st then pure tt else do
    connected ← gets (λ c. is_client_connected (some c))
    if not connected
        then raise network_disconnected_error
        else (if not (state_code connected_idle == state_code st)
            then raise mqtt_client_not_idle_error
            else change_state sys connected_idle connected_yield_in_progress)

  abbrev pub end_yield : Result (Unit {0}) → Exec W (Unit {0})
  end_yield rc = if is_error is_not_connected rc then lift rc else do
    back ← attempt (change_state sys connected_yield_in_progress connected_idle)
    lift (first_error rc back)

  unfoldable pub yield : ℕ → Exec W (Unit {0})
  yield timeout_ms = if timeout_ms == 0 then raise null_value_error else do
    st ← gets (λ c. c.client_state)
    let manually = state_code disconnected_manually == state_code st in
        if manually
        then raise network_manually_disconnected
        else do start_yield st; rc ← attempt (internal_yield timeout_ms); end_yield rc
