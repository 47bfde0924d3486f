-- ===== src/Session/Subscribe.antt =====
-- _aws_iot_mqtt_internal_subscribe, aws_iot_mqtt_subscribe, _aws_iot_mqtt_internal_resubscribe and
-- aws_iot_mqtt_resubscribe: arduino-esp32/AWS_IOT/src/aws_iot_mqtt_client_subscribe.c. pClient is
-- taken to be there.
use hornbill_examples.Common.{
  ℕ, zero, suc, ◌==◌, ltb, if◌then◌else◌, not, List, [], ◌∷◌, Option, none, some, get_elem?,
}
use hornbill_examples.Errors.{
  Result, ok, fault, network_disconnected_error, mqtt_client_not_idle_error,
  mqtt_max_subscriptions_reached_error, require,
}
use hornbill_examples.Wire.{Cursor}
use hornbill_examples.Wire.Header.{QoS}
use hornbill_examples.Packet.Subscribe.{serialize_subscribe, SubackFields, deserialize_suback}
use hornbill_examples.Client.{
  Client, MessageHandler, connected_idle, connected_subscribe_in_progress,
  connected_resubscribe_in_progress, is_client_connected,
}
use hornbill_examples.Client.State.{state_code}
use hornbill_examples.Client.Handlers.{
  num_subscribe_handlers, get_free_message_handler_index, store_handler,
}
use hornbill_examples.Exec.{Exec, pure, raise, lift, gets, modify, ◌>>=◌, ◌>>◌}
use hornbill_examples.Session.{System, send, serialize, next_id, with_timer, in_state, chars}
use hornbill_examples.Session.Read.{wait_for_read, suback_type}
use hornbill_examples.Session.Publish.{require_idle}

-- `QoS grantedQoS[3] = {QOS0, QOS0, QOS0};`
abbrev pub granted_room : List ℕ
granted_room = 0 ∷ 0 ∷ 0 ∷ []

abbrev pub write_subscribe : ℕ → List ℕ → QoS → Client → Result Cursor
write_subscribe id name qos c =
    serialize_subscribe (some c.write_buf) c.write_buf_size 0 id
      (record { topic_name = name; requested_qos = qos } ∷ [])

abbrev pub read_suback : Client → Result SubackFields
read_suback c = deserialize_suback 1 granted_room c.read_buf c.read_buf_size

-- The string behind a pointer, which is read without a test.
abbrev pub pointed : Option (List ℕ) → Result (List ℕ)
pointed none = fault
pointed (some s) = ok s

abbrev pub new_handler : List ℕ → ℕ → QoS → ℕ → ℕ → MessageHandler
new_handler topic_name len qos handler handler_data = record {
  topic_name = some topic_name;
  topic_name_len = len;
  qos = qos;
  application_handler = some handler;
  application_handler_data = handler_data;
}

module _ {ℓ} {W : Type ℓ} (sys : System W) where
  -- The packet is sent, and its SUBACK is read.
  unfoldable pub exchange_subscribe : ℕ → Exec W (Unit {0})
  exchange_subscribe n = do
    send sys n
    wait_for_read sys suback_type
    ack ← gets read_suback
    lift ack
    pure tt

  -- The handler holds the topic's pointer, its length, the QoS and the application's pointers.
  unfoldable pub internal_subscribe : List ℕ → ℕ → QoS → ℕ → ℕ → Exec W (Unit {0})
  internal_subscribe topic_name len qos handler handler_data = do
    ms ← gets (λ c. c.command_timeout_ms)
    with_timer sys ms (do
      id ← next_id sys
      name ← lift (chars len topic_name)
      n ← serialize sys (write_subscribe id name qos)
      index ← gets get_free_message_handler_index
      if not (ltb index num_subscribe_handlers)
          then raise mqtt_max_subscriptions_reached_error
          else do
            exchange_subscribe n
            modify (store_handler index (new_handler topic_name len qos handler handler_data)))

  -- One round of the loop over the table: the entry's topic is subscribed again.
  abbrev pub resubscribe_entry : Option MessageHandler → Exec W (Unit {0})
  resubscribe_entry none = lift fault
  resubscribe_entry (some h) = do
    ms ← gets (λ c. c.command_timeout_ms)
    with_timer sys ms (do
      id ← next_id sys
      topic_name ← lift (pointed h.topic_name)
      name ← lift (chars h.topic_name_len topic_name)
      n ← serialize sys (write_subscribe id name h.qos)
      exchange_subscribe n)

  -- The loop, with the number of entries that are left.
  unfoldable pub resubscribe_loop : ℕ → ℕ → Exec W (Unit {0})
  resubscribe_loop zero itr = pure tt
  resubscribe_loop (suc left) itr = do
    entry ← gets (λ c. get_elem? c.message_handlers itr)
    resubscribe_entry entry
    resubscribe_loop left (suc itr)

  unfoldable pub internal_resubscribe : Exec W (Unit {0})
  internal_resubscribe = do
    existing ← gets get_free_message_handler_index
    resubscribe_loop existing 0

  unfoldable pub subscribe : Option (List ℕ) → ℕ → QoS → Option ℕ → ℕ → Exec W (Unit {0})
  subscribe topic_name len qos handler handler_data = do
    name ← lift (require topic_name)
    h ← lift (require handler)
    st ← require_idle
    in_state sys st connected_subscribe_in_progress (internal_subscribe name len qos h handler_data)

  -- Only an idle client may resubscribe.
  unfoldable pub resubscribe : Exec W (Unit {0})
  resubscribe = do
    connected ← gets (λ c. is_client_connected (some c))
    if not connected then raise network_disconnected_error else do
      st ← gets (λ c. c.client_state)
      if not (state_code connected_idle == state_code st)
          then raise mqtt_client_not_idle_error
          else in_state sys connected_idle connected_resubscribe_in_progress internal_resubscribe
