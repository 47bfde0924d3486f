-- ===== src/Session/Connect.antt =====
-- _aws_iot_mqtt_internal_connect, aws_iot_mqtt_connect, _aws_iot_mqtt_internal_disconnect,
-- aws_iot_mqtt_disconnect and aws_iot_mqtt_attempt_reconnect:
-- arduino-esp32/AWS_IOT/src/aws_iot_mqtt_client_connect.c. pClient is taken to be there.
pub mod Outcome
pub mod Lifecycle
pub mod Reconnect
use hornbill_examples.Common.{
  ℕ, ◌==◌, if◌then◌else◌, not, Bool, true, false, List, Option, none, some,
}
use hornbill_examples.Errors.{
  IotError, Result, ok, err, fault, failure, mqtt_connection_error, network_already_connected_error,
  network_disconnected_error, network_attempting_reconnect, network_reconnected,
  mqtt_connack_connection_accepted,
}
use hornbill_examples.Wire.{Cursor}
use hornbill_examples.Wire.Header.{MessageType, disconnect as disconnect_packet}
use hornbill_examples.Packet.Ack.{serialize_zero}
use hornbill_examples.Packet.Connect.{
  ConnectParams, ConnackFields, serialize_connect, deserialize_connack,
}
use hornbill_examples.Client.{
  Client, ClientState, connecting, connected_idle, disconnecting, disconnected_error,
  disconnected_manually, pending_reconnect, is_client_connected, is_client_state_valid_for_connect,
  set_connect_params,
}
use hornbill_examples.Client.State.{state_code}
use hornbill_examples.Exec.{Running, Exec, pure, raise, lift, gets, attempt, modify, ◌>>=◌, ◌>>◌}
use hornbill_examples.Session.{System, outside, change_state, send, serialize, with_timer}
use hornbill_examples.Session.Read.{wait_for_read, connack_type, restart_ping}
use hornbill_examples.Session.Subscribe.{resubscribe}

abbrev pub is_accepted : IotError → Bool
is_accepted mqtt_connack_connection_accepted = true
is_accepted _ = false

abbrev pub write_connect : Client → Result Cursor
write_connect c = serialize_connect (some c.write_buf) c.write_buf_size (some c.options)

abbrev pub write_zero : MessageType → Client → Result Cursor
write_zero packet_type c = serialize_zero (some c.write_buf) c.write_buf_size packet_type

abbrev pub read_connack : Client → Result ConnackFields
read_connack c = deserialize_connack (some c.read_buf) c.read_buf_size

abbrev pub set_keep_alive : Client → Client
set_keep_alive c = record c { keep_alive_interval = c.options.keep_alive_interval_in_sec }

-- `pClient->clientStatus.clientState = …;`
unfoldable pub set_state {ℓ} : {W : Type ℓ} → ClientState → Exec W (Unit {0})
set_state st = modify (λ c. record c { client_state = st })

abbrev pub with_params {ℓ} : {W : Type ℓ} → Result Client → Exec W (Unit {0})
with_params (ok c) s = (ok tt, record s { client = c })
with_params (err e) s = (err mqtt_connection_error, s)
with_params fault s = (fault, s)

-- New options are taken over.
unfoldable pub use_params {ℓ} : {W : Type ℓ} → Option ConnectParams → Exec W (Unit {0})
use_params none s = (ok tt, s)
use_params (some p) s = with_params (set_connect_params (some s.client) (some p)) s

-- The state that a disconnect leaves, with the state before it and what it came to.
abbrev pub disconnected_state : ClientState → Result (Unit {0}) → ClientState
disconnected_state st (ok _) = disconnected_manually
disconnected_state st (err e) = st
disconnected_state st fault = st

-- `if(0 != rc) return FAILURE;`
abbrev pub destroyed : Result (Unit {0}) → Result (Unit {0})
destroyed (ok _) = ok tt
destroyed (err e) = err failure
destroyed fault = fault

module _ {ℓ} {W : Type ℓ} (sys : System W) where
  -- What follows the CONNECT packet in the buffer.
  unfoldable pub exchange_connect : ℕ → Exec W (Unit {0})
  exchange_connect n = do
    send sys n
    wait_for_read sys connack_type
    found ← gets read_connack
    ack ← lift found
    if is_accepted ack.connack_rc then restart_ping sys else raise ack.connack_rc

  unfoldable pub internal_connect : Option ConnectParams → Exec W (Unit {0})
  internal_connect params = do
    use_params params
    outside sys sys.stack_connect
    ms ← gets (λ c. c.command_timeout_ms)
    with_timer sys ms (do
      modify set_keep_alive
      n ← serialize sys write_connect
      if n == 0 then pure tt else exchange_connect n)

  -- `disconnect` of the stack, then `destroy`, whose code is the result.
  unfoldable pub close_stack : Exec W (Unit {0})
  close_stack = do outside sys (λ w. (ok tt, sys.stack_disconnect w)); outside sys sys.stack_destroy

  abbrev pub after_connect : Result (Unit {0}) → Exec W (Unit {0})
  after_connect (ok _) = do attempt (change_state sys connecting connected_idle); pure tt
  after_connect (err e) = do
    attempt close_stack
    attempt (change_state sys connecting disconnected_error)
    raise e
  after_connect fault = lift fault

  unfoldable pub connect : Option ConnectParams → Exec W (Unit {0})
  connect params = do
    st ← gets (λ c. c.client_state)
    if not (is_client_state_valid_for_connect st) then raise network_already_connected_error else do
      attempt (change_state sys st connecting)
      r ← attempt (internal_connect params)
      after_connect r

  unfoldable pub internal_disconnect : Exec W (Unit {0})
  internal_disconnect = do
    n ← serialize sys (write_zero disconnect_packet)
    ms ← gets (λ c. c.command_timeout_ms)
    with_timer sys ms (if n == 0 then pure tt else send sys n)
    r ← attempt close_stack
    lift (destroyed r)

  unfoldable pub disconnect : Exec W (Unit {0})
  disconnect = do
    connected ← gets (λ c. is_client_connected (some c))
    if not connected then raise network_disconnected_error else do
      st ← gets (λ c. c.client_state)
      change_state sys st disconnecting
      r ← attempt internal_disconnect
      set_state (disconnected_state st r)
      lift r

  -- The end of an attempt that left the client without a connection.
  unfoldable pub keep_trying : Exec W (Unit {0})
  keep_trying = do
    attempt (change_state sys disconnected_error pending_reconnect)
    raise network_attempting_reconnect

  unfoldable pub reconnected : Exec W (Unit {0})
  reconnected = do resubscribe sys; raise network_reconnected

  unfoldable pub attempt_reconnect : Exec W (Unit {0})
  attempt_reconnect = do
    connected ← gets (λ c. is_client_connected (some c))
    if connected then raise network_already_connected_error else do
      attempt (connect none)
      st ← gets (λ c. c.client_state)
      if state_code connected_idle == state_code st then reconnected else keep_trying
