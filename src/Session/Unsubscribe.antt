-- ===== src/Session/Unsubscribe.antt =====
-- _aws_iot_mqtt_internal_unsubscribe and aws_iot_mqtt_unsubscribe:
-- arduino-esp32/AWS_IOT/src/aws_iot_mqtt_client_unsubscribe.c. pClient is taken to be there.
pub mod Forgets
use hornbill_examples.Common.{ℕ, if◌then◌else◌, not, Bool, List, [], ◌∷◌, Option, none, some}
use hornbill_examples.Errors.{Result, ok, err, fault, failure, require}
use hornbill_examples.Wire.{Cursor}
use hornbill_examples.Packet.Unsubscribe.{serialize_unsubscribe, deserialize_unsuback}
use hornbill_examples.Client.{Client, ClientState, connected_unsubscribe_in_progress}
use hornbill_examples.Client.Handlers.{subscription_exists, remove_handlers}
use hornbill_examples.Client.State.{first_error}
use hornbill_examples.Exec.{Exec, pure, raise, lift, gets, attempt, modify, ◌>>=◌, ◌>>◌}
use hornbill_examples.Session.{System, change_state, send, serialize, next_id, with_timer, chars}
use hornbill_examples.Session.Read.{wait_for_read, unsuback_type}
use hornbill_examples.Session.Publish.{require_idle}

abbrev pub write_unsubscribe : ℕ → List ℕ → Client → Result Cursor
write_unsubscribe id name c = serialize_unsubscribe c.write_buf c.write_buf_size 0 id (name ∷ [])

abbrev pub read_unsuback : Client → Result ℕ
read_unsuback c = deserialize_unsuback (some c.read_buf) c.read_buf_size

module _ {ℓ} {W : Type ℓ} (sys : System W) where
  unfoldable pub internal_unsubscribe : List ℕ → ℕ → Exec W (Unit {0})
  internal_unsubscribe topic_filter len = do
    exists ← gets (λ c. subscription_exists topic_filter c.message_handlers)
    if not exists then raise failure else do
      ms ← gets (λ c. c.command_timeout_ms)
      with_timer sys ms (do
        id ← next_id sys
        name ← lift (chars len topic_filter)
        n ← serialize sys (write_unsubscribe id name)
        send sys n
        wait_for_read sys unsuback_type
        ack ← gets read_unsuback
        lift ack
        modify
            (λ c. record c { message_handlers = remove_handlers topic_filter c.message_handlers }))

  -- Where the change of state fails, the function tries to change it back and returns that code.
  abbrev pub after_change : ClientState → Result (Unit {0}) → Exec W (Unit {0}) → Exec W (Unit {0})
  after_change st (ok _) m = do
    r ← attempt m
    back ← attempt (change_state sys connected_unsubscribe_in_progress st)
    lift (first_error r back)
  after_change st (err e) m = change_state sys connected_unsubscribe_in_progress st
  after_change st fault m = lift fault

  unfoldable pub unsubscribe : Option (List ℕ) → ℕ → Exec W (Unit {0})
  unsubscribe topic_filter len = do
    name ← lift (require topic_filter)
    st ← require_idle
    changed ← attempt (change_state sys st connected_unsubscribe_in_progress)
    after_change st changed (internal_unsubscribe name len)
