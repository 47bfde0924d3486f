-- ===== src/Session/Read.antt =====
-- Reading packets while an operation runs: _aws_iot_mqtt_internal_handle_publish,
-- aws_iot_mqtt_internal_cycle_read and aws_iot_mqtt_internal_wait_for_read of
-- arduino-esp32/AWS_IOT/src/aws_iot_mqtt_client_common_internal.c.
use hornbill_examples.Common.{
  ℕ, zero, suc, ◌==◌, ◌||◌, if◌then◌else◌, Bool, true, false, Option, none, some,
}
use hornbill_examples.Errors.{
  IotError, Result, ok, err, fault, failure, mqtt_nothing_to_read, network_disconnected_error,
  mqtt_request_timeout_error, mqtt_rx_message_packet_type_invalid_error,
}
use hornbill_examples.Threads.{Semaphore}
use hornbill_examples.Wire.Header.{puback}
use hornbill_examples.Wire.{Cursor}
use hornbill_examples.Packet.Ack.{serialize_ack}
use hornbill_examples.Packet.Publish.{PublishFields, deserialize_publish}
use hornbill_examples.Client.{Client}
use hornbill_examples.Client.State.{lock_mutex, unlock_mutex}
use hornbill_examples.Client.Deliver.{PublishMessageParams, deliver_message}
use hornbill_examples.Exec.{Exec, pure, raise, lift, gets, attempt, ◌>>=◌, ◌>>◌}
use hornbill_examples.Session.{System, next_semaphore, expired, send, receive, timer_sec, serialize}

-- The id of a message with QoS 0 is not initialised; 0 stands for it.
abbrev pub message_id : Option ℕ → ℕ
message_id none = 0
message_id (some id) = id

abbrev pub message_params : PublishFields → PublishMessageParams
message_params f = record {
  qos = f.qos;
  is_retained = f.retained;
  is_dup = f.dup;
  id = message_id f.packet_id;
  payload = f.payload;
  payload_len = f.payload_len;
}

-- The numbers of the enum for the packets that the client may get.
abbrev pub connack_type : ℕ
connack_type = 2

abbrev pub publish_type : ℕ
publish_type = 3

abbrev pub puback_type : ℕ
puback_type = 4

abbrev pub suback_type : ℕ
suback_type = 9

abbrev pub unsuback_type : ℕ
unsuback_type = 11

abbrev pub pingresp_type : ℕ
pingresp_type = 13

-- CONNACK, PUBACK, SUBACK and UNSUBACK, which are left to the caller, and PUBREC and PUBCOMP.
abbrev pub is_left_to_caller : ℕ → Bool
is_left_to_caller t =
    t == connack_type
    || (t == puback_type || (t == suback_type || (t == unsuback_type || (t == 5 || t == 7))))

-- The code, if it is an error.
abbrev pub is_error : (IotError → Bool) → Result (Unit {0}) → Bool
is_error p (ok _) = false
is_error p (err e) = p e
is_error p fault = false

abbrev pub is_disconnected : IotError → Bool
is_disconnected network_disconnected_error = true
is_disconnected _ = false

abbrev pub is_timeout : IotError → Bool
is_timeout mqtt_request_timeout_error = true
is_timeout _ = false

abbrev pub is_nothing : IotError → Bool
is_nothing mqtt_nothing_to_read = true
is_nothing _ = false

-- What an operation returns, and the packet type behind its pPacketType.
abbrev pub Typed : Type 0
Typed = Result (Unit {0}) × ℕ

module _ {ℓ} {W : Type ℓ} (sys : System W) where
  unfoldable pub deliver_with : Semaphore → Semaphore → PublishFields → Exec W (Unit {0})
  deliver_with s1 s2 f s =
      let (r, c) =
        deliver_message sys.application s1 s2 (some f.topic_name.string) f.topic_name.string_len
          (message_params f) s.client in
      (r, record s { client = c })

  unfoldable pub deliver : PublishFields → Exec W (Unit {0})
  deliver f = do s1 ← next_semaphore sys; s2 ← next_semaphore sys; deliver_with s1 s2 f

  abbrev pub read_publish : Client → Result PublishFields
  read_publish c = deserialize_publish c.read_buf c.read_buf_size

  abbrev pub write_puback : ℕ → Client → Result Cursor
  write_puback id c = serialize_ack (some c.write_buf) c.write_buf_size puback 0 id

  unfoldable pub handle_publish : Exec W (Unit {0})
  handle_publish = do
    found ← gets read_publish
    f ← lift found
    deliver f
    if f.qos == 0
        then pure tt
        else do len ← serialize sys (write_puback (message_id f.packet_id)); send sys len

  -- The answer to a ping restarts the ping timer.
  unfoldable pub restart_ping : Exec W (Unit {0})
  restart_ping s = (
    ok tt,
    record s {
      client = record s.client {
        is_ping_outstanding = false;
        ping_timer = timer_sec sys s.client.keep_alive_interval s;
      };
    },
  )

  -- The `switch` over the packet type.
  unfoldable pub dispatch : ℕ → Exec W (Unit {0})
  dispatch t =
      if is_left_to_caller t
      then pure tt
      else (if t == publish_type
          then handle_publish
          else (if t == pingresp_type
              then restart_ping
              else raise mqtt_rx_message_packet_type_invalid_error))

  -- What follows the unlock, whose code comes first, with the type that was there before and what
  -- reading came to.
  abbrev pub after_unlock : Result (Unit {0}) → ℕ → Result ℕ → Exec W Typed
  after_unlock unlocked old (ok t) =
      if is_error (λ e. true) unlocked
      then pure (unlocked, t)
      else (attempt (dispatch t) >>= λ r. pure (r, t))
  after_unlock unlocked old (err e) =
      if is_nothing e then pure (unlocked, old) else pure (err e, old)
  after_unlock unlocked old fault = lift fault

  abbrev pub read_locked : Semaphore → Result (Unit {0}) → ℕ → Exec W Typed
  read_locked answers (ok _) old = do
    r ← attempt (receive sys)
    after_unlock (unlock_mutex answers) old r
  read_locked answers (err e) old = pure (err e, old)
  read_locked answers fault old = lift fault

  -- The packet type that is there before is the argument.
  unfoldable pub cycle_read : ℕ → Exec W Typed
  cycle_read old = do
    answers ← next_semaphore sys
    locked ← gets (lock_mutex answers)
    read_locked answers locked old

  -- The `do` loop: what it leaves in rc and in read_packet_type. A fault stands for rounds that ran
  -- out.
  abbrev pub after_cycle : (ℕ → Exec W Typed) → ℕ → Typed → Exec W Typed
  after_cycle rest packet_type (rc, t) =
      if is_error is_disconnected rc || t == packet_type then pure (rc, t) else rest t

  abbrev pub after_expired : (ℕ → Exec W Typed) → ℕ → ℕ → Bool → Exec W Typed
  after_expired rest packet_type old true = pure (err mqtt_request_timeout_error, old)
  after_expired rest packet_type old false = cycle_read old >>= after_cycle rest packet_type

  unfoldable pub wait_loop : ℕ → ℕ → ℕ → Exec W Typed
  wait_loop zero packet_type old = lift fault
  wait_loop (suc rounds) packet_type old =
      let rest = λ (t : ℕ). wait_loop rounds packet_type t in
      expired sys >>= after_expired rest packet_type old

  -- The test behind the loop.
  abbrev pub wait_result : ℕ → Typed → Result (Unit {0})
  wait_result packet_type (rc, t) =
      if is_error is_timeout rc || (is_error is_disconnected rc || t == packet_type)
      then rc
      else err failure

  unfoldable pub wait_for_read : ℕ → Exec W (Unit {0})
  wait_for_read packet_type = do
    read ← wait_loop sys.rounds packet_type 0
    lift (wait_result packet_type read)
