-- ===== src/Session/Publish.antt =====
-- _aws_iot_mqtt_internal_publish and aws_iot_mqtt_publish:
-- arduino-esp32/AWS_IOT/src/aws_iot_mqtt_client_publish.c. pClient is taken to be there.
pub mod Arrival
use hornbill_examples.Common.{
  ℕ, ◌==◌, ◌||◌, ◌&&◌, if◌then◌else◌, not, Bool, true, false, List, Option, none, some,
}
use hornbill_examples.Errors.{
  Result, ok, err, null_value_error, network_disconnected_error, mqtt_client_not_idle_error,
  require,
}
use hornbill_examples.Wire.{Cursor}
use hornbill_examples.Wire.Header.{QoS, qos0, qos1}
use hornbill_examples.Packet.Ack.{AckFields, deserialize_ack}
use hornbill_examples.Packet.Publish.{serialize_publish}
use hornbill_examples.Client.{
  Client, ClientState, connected_idle, connected_wait_for_cb_return, connected_publish_in_progress,
  is_client_connected,
}
use hornbill_examples.Client.State.{state_code}
use hornbill_examples.Exec.{Exec, pure, raise, lift, gets, ◌>>=◌, ◌>>◌}
use hornbill_examples.Session.{System, send, serialize, next_id, with_timer, in_state}
use hornbill_examples.Session.Read.{wait_for_read, puback_type}

-- IoT_Publish_Message_Params for a message that is sent. The payload's pointer may be NULL.
pub record Outgoing : Type 0 where
  pub qos : QoS
  pub is_retained : ℕ
  pub id : ℕ
  pub payload : Option (List ℕ)
  pub payload_len : ℕ

abbrev pub is_idle : ClientState → Bool
is_idle st =
    state_code st == state_code connected_idle
    || state_code st == state_code connected_wait_for_cb_return

abbrev pub read_ack : Client → Result AckFields
read_ack c = deserialize_ack (some c.read_buf) c.read_buf_size

abbrev pub write_publish : List ℕ → ℕ → Outgoing → ℕ → Client → Result Cursor
write_publish topic_name len p id c =
    serialize_publish (some c.write_buf) c.write_buf_size 0 p.qos p.is_retained id topic_name len
      p.payload p.payload_len

module _ {ℓ} {W : Type ℓ} (sys : System W) where
  -- `if(QOS1 == pParams->qos) pParams->id = aws_iot_mqtt_get_next_packet_id(pClient);`: the id.
  abbrev pub message_packet_id : QoS → ℕ → Exec W ℕ
  message_packet_id qos0 id = pure id
  message_packet_id qos1 id = next_id sys

  -- The acknowledgement of a message with QoS 1.
  abbrev pub await_ack : QoS → Exec W (Unit {0})
  await_ack qos0 = pure tt
  await_ack qos1 = do wait_for_read sys puback_type; ack ← gets read_ack; lift ack; pure tt

  unfoldable pub internal_publish : List ℕ → ℕ → Outgoing → Exec W (Unit {0})
  internal_publish topic_name len p = do
    ms ← gets (λ c. c.command_timeout_ms)
    with_timer sys ms (do
      id ← message_packet_id p.qos p.id
      n ← serialize sys (write_publish topic_name len p id)
      send sys n
      await_ack p.qos)

-- The checks that publish, subscribe and unsubscribe share: the client is connected, and idle or
-- waiting for a callback. The state is the result.
unfoldable pub require_idle {ℓ} : {W : Type ℓ} → Exec W ClientState
require_idle = do
  connected ← gets (λ c. is_client_connected (some c))
  if not connected then raise network_disconnected_error else do
    st ← gets (λ c. c.client_state)
    if is_idle st then pure st else raise mqtt_client_not_idle_error

unfoldable pub publish {ℓ} :
    {W : Type ℓ} → System W → Option (List ℕ) → ℕ → Option Outgoing → Exec W (Unit {0})
publish sys topic_name len params = do
  name ← lift (require topic_name)
  if len == 0 then raise null_value_error else do
    p ← lift (require params)
    st ← require_idle
    in_state sys st connected_publish_in_progress (internal_publish sys name len p)
