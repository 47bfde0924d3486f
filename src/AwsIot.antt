-- ===== src/AwsIot.antt =====
-- The class of the Arduino library and the task that it starts: arduino-esp32/AWS_IOT/src/AWS_IOT.cpp.
-- The global client stands in the state that the functions work on. Strings that the sketch gives are
-- taken to be there.
pub mod Connecting
pub mod Lost
use hornbill_examples.Common.{
  ℕ, zero, suc, ◌/◌, ◌%◌, ◌^◌, ltb, if◌then◌else◌, Bool, true, false, List, [], ◌∷◌, Option, none,
  some, length,
}
use hornbill_examples.Errors.{IotError, Result, ok, err, fault, network_attempting_reconnect}
use hornbill_examples.Wire.Header.{qos0}
use hornbill_examples.Packet.Connect.{ConnectParams}
use hornbill_examples.Client.{Client}
use hornbill_examples.Client.State.{Outcome}
use hornbill_examples.Client.Init.{InitParams, InitAnswers, init, default_options}
use hornbill_examples.Exec.{Running, Exec, pure, lift, attempt, ◌>>=◌, ◌>>◌}
use hornbill_examples.Session.{System}
use hornbill_examples.Session.Publish.{Outgoing, publish}
use hornbill_examples.Session.Subscribe.{subscribe}
use hornbill_examples.Session.Connect.{connect}
use hornbill_examples.Session.Yield.{yield}

-- What the class is linked with: the system below the client, the certificates, the addresses of
-- disconnectCallbackHandler and iot_subscribe_callback_handler, what starts aws_iot_task, and
-- vTaskDelay for a number of ticks.
pub record Platform {ℓ} (W : Type ℓ) : Type ℓ where
  pub system : System W
  pub root_ca : List ℕ
  pub certificate : List ℕ
  pub private_key : List ℕ
  pub disconnect_callback_handler : ℕ
  pub iot_subscribe_callback_handler : ℕ
  pub start_task : W → W
  pub task_delay : ℕ → W → W

-- CONFIG_AWS_IOT_MQTT_PORT, and the size of AWS_IOT_HOST_ADDRESS.
abbrev pub config_aws_iot_mqtt_port : ℕ
config_aws_iot_mqtt_port = 8883

abbrev pub host_address_size : ℕ
host_address_size = 128

abbrev pub qos0_message : List ℕ → Outgoing
qos0_message payload = record {
  qos = qos0;
  is_retained = 0;
  id = 0;
  payload = some payload;
  payload_len = length payload % 2 ^ 32;
}

-- connectParams: the default options with the client ID and the assignments of AWS_IOT::connect.
abbrev pub connect_params : List ℕ → ConnectParams
connect_params client_id = record default_options {
  keep_alive_interval_in_sec = 10;
  is_clean_session = true;
  mqtt_version = 4;
  client_id = some client_id;
  client_id_len = length client_id % 2 ^ 16;
  is_will_msg_present = false;
}

-- `return rc;` where the initialisation failed.
abbrev pub set_up {ℓ} : {W : Type ℓ} → Outcome → Running W → Result (Unit {0}) × Running W
set_up (r, c) s = (r, record s { client = c })

module _ {ℓ} {W : Type ℓ} (board : Platform W) where
  -- mqttInitParams
  abbrev pub init_params : List ℕ → InitParams
  init_params host_address = record {
    enable_auto_reconnect = false;
    host_url = some host_address;
    port = config_aws_iot_mqtt_port;
    root_ca_location = some board.root_ca;
    device_cert_location = some board.certificate;
    device_private_key_location = some board.private_key;
    mqtt_packet_timeout_ms = 2000;
    mqtt_command_timeout_ms = 20000;
    tls_handshake_timeout_ms = 5000;
    is_ssl_hostname_verify = true;
    disconnect_handler = some board.disconnect_callback_handler;
    disconnect_handler_data = 0;
    is_block_on_thread_lock_enabled = false;
  }

  -- `strcpy(AWS_IOT_HOST_ADDRESS,hostAddress);` has no bound.
  abbrev pub copy_host_address : List ℕ → Result (Unit {0})
  copy_host_address host_address =
      if ltb (length host_address) host_address_size then ok tt else fault

  unfoldable pub init_client : List ℕ → InitAnswers → Exec W (Unit {0})
  init_client host_address answers s = set_up (init (init_params host_address) answers s.client) s

  abbrev pub retry : Exec W (Unit {0}) → Result (Unit {0}) → Exec W (Unit {0})
  retry rest (ok _) = pure tt
  retry rest (err e) = rest
  retry rest fault = lift fault

  -- `do { … } while(SUCCESS != rc);`, for a number of attempts at most, after which it is a fault.
  unfoldable pub connect_loop : ℕ → ConnectParams → Exec W (Unit {0})
  connect_loop zero params = lift fault
  connect_loop (suc attempts) params =
      let rest = connect_loop attempts params in
      attempt (connect board.system (some params)) >>= retry rest

  unfoldable pub create_task : Exec W (Unit {0})
  create_task s = (ok tt, record s { world = board.start_task s.world })

-- AWS_IOT::connect, with what the mutexes and iot_tls_init answer.
unfoldable pub class_connect {ℓ} :
    {W : Type ℓ} → Platform W → ℕ → List ℕ → List ℕ → InitAnswers → Exec W (Unit {0})
class_connect board attempts host_address client_id answers = do
  lift (copy_host_address board host_address)
  init_client board host_address answers
  connect_loop board attempts (connect_params client_id)
  create_task board

-- The client, and subApplCallBackHandler.
pub record Sketch {ℓ} (W : Type ℓ) : Type ℓ where
  pub running : Running W
  pub sub_appl_call_back_handler : Option ℕ

module _ {ℓ} {W : Type ℓ} (board : Platform W) where
  abbrev pub kept_handler : Option ℕ → Result (Unit {0}) × Running W → Result (Unit {0}) × Sketch W
  kept_handler handler (r, s) = (r, record { running = s; sub_appl_call_back_handler = handler })

  -- AWS_IOT::publish
  unfoldable pub class_publish : List ℕ → List ℕ → Sketch W → Result (Unit {0}) × Sketch W
  class_publish topic payload s = kept_handler s.sub_appl_call_back_handler (
      publish board.system (some topic) (length topic % 2 ^ 16) (some (qos0_message payload))
        s.running)

  -- AWS_IOT::subscribe: the handler of the sketch is replaced before anything is sent.
  unfoldable pub class_subscribe : List ℕ → Option ℕ → Sketch W → Result (Unit {0}) × Sketch W
  class_subscribe topic handler s = kept_handler handler (
      subscribe board.system (some topic) (length topic % 2 ^ 16) qos0
        (some board.iot_subscribe_callback_handler) 0 s.running)

  -- `if(NETWORK_ATTEMPTING_RECONNECT == rc) continue;`
  abbrev pub after_yield : Result (Unit {0}) × Running W → Result (Unit {0}) × Running W
  after_yield (err network_attempting_reconnect, s) = (err network_attempting_reconnect, s)
  after_yield (r, s) =
      (r, record s { world = board.task_delay (1000 / board.system.network.tick_ms) s.world })

  -- One round of aws_iot_task.
  unfoldable pub task_round : Sketch W → Result (Unit {0}) × Sketch W
  task_round s =
      kept_handler s.sub_appl_call_back_handler (after_yield (yield board.system 200 s.running))

-- iot_subscribe_callback_handler: the handler of the sketch that is called, if there is one.
unfoldable pub handler_called {ℓ} : {W : Type ℓ} → Sketch W → Option ℕ
handler_called s = s.sub_appl_call_back_handler
