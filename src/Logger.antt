-- ===== src/Logger.antt =====
-- The task of the data logger: esp-idf/Hornbill-Industrial-Data-Logger/main/main.c. It connects,
-- measures and publishes. `abort` ends a run with the code that led to it. The client and the timer
-- that it is linked with are those of esp-idf/Hornbill-Industrial-Data-Logger/components/awsiot, a copy
-- of the SDK, and are parameters.
pub mod Spacing
use hornbill_examples.Common.{
  ℕ, zero, suc, ◌+◌, ◌/◌, ◌%◌, ◌^◌, ltb, if◌then◌else◌, Bool, true, false, List, ◌∷◌, Option, none,
  some, length, codes,
}
use hornbill_examples.Errors.{
  Result, ok, err, fault, network_attempting_reconnect, network_reconnected,
  mqtt_request_timeout_error,
}
use hornbill_examples.Wire.Header.{qos0}
use hornbill_examples.Packet.Connect.{ConnectParams}
use hornbill_examples.Client.Init.{InitParams, default_options}
use hornbill_examples.Session.Publish.{Outgoing}
use hornbill_examples.Sensors.Thermocouple.{Gpio, Pins, max6675_read_celsius}
use hornbill_examples.Sensors.Current.{Double, Converter, Meter, current_sensor_calc_irms}

-- What the task uses of components/awsiot, over the state S of the client and of all that it works on:
-- aws_iot_mqtt_init, connect, autoreconnect_set_status, is_autoreconnect_enabled, attempt_reconnect,
-- yield and publish, and, for its timers T, countdown_ms and has_timer_expired.
pub record MqttClient {ℓ} (S : Type ℓ) (T : Type 0) : Type ℓ where
  pub init : InitParams → S → Result (Unit {0}) × S
  pub connect : ConnectParams → S → Result (Unit {0}) × S
  pub autoreconnect_set_status : Bool → S → Result (Unit {0}) × S
  pub is_autoreconnect_enabled : S → Bool
  pub attempt_reconnect : S → Result (Unit {0}) × S
  pub yield_for : ℕ → S → Result (Unit {0}) × S
  pub publish : List ℕ → ℕ → Outgoing → S → Result (Unit {0}) × S
  pub countdown_ms : ℕ → S → T
  pub has_timer_expired : T → S → Bool

-- What the task is linked with: the client, the sensors with their variables, vTaskDelay for a number
-- of ticks and the length of a tick, esp_wifi_connect, the macros of the configuration, the address of
-- disconnectCallbackHandler, and sprintf with the temperature, in quarters of a degree, and the power.
pub record Board {ℓ} (S : Type ℓ) (T D : Type 0) : Type ℓ where
  pub client : MqttClient S T
  pub gpio : Gpio S
  pub pins : Pins
  pub double : Double D
  pub converter : Converter S
  pub task_delay : ℕ → S → S
  pub tick_ms : ℕ
  pub wifi_connect : S → S
  pub mqtt_host : List ℕ
  pub mqtt_port : ℕ
  pub mqtt_client_id : List ℕ
  pub disconnect_callback_handler : ℕ
  pub report : ℕ → D → List ℕ

-- The events of the Wi-Fi driver that event_handler tells apart.
pub data WifiEvent : Type 0 where
  sta_start sta_got_ip sta_disconnected other_event : WifiEvent

abbrev pub topic_name : List ℕ
topic_name = codes "$aws/things/c0ee87d2bd955a0cf217bbc263/shadow/update"

-- The size of cPayload.
abbrev pub payload_size : ℕ
payload_size = 150

abbrev pub message : List ℕ → Outgoing
message payload = record {
  qos = qos0;
  is_retained = 0;
  id = 0;
  payload = some payload;
  payload_len = length payload;
}

-- The state of the task: the state of the client and the world, the timer `sendit`, the variables of
-- the current sensor, the code `rc` and the counters.
pub record Logging {ℓ} (S : Type ℓ) (T D : Type 0) : Type ℓ where
  pub system : S
  pub sendit : T
  pub meter : Meter D
  pub rc : Result (Unit {0})
  pub reconnect_attempts : ℕ
  pub reconnected_count : ℕ

-- The condition of the loop.
abbrev pub goes_on : Result (Unit {0}) → Bool
goes_on (ok _) = true
goes_on (err network_attempting_reconnect) = true
goes_on (err network_reconnected) = true
goes_on _ = false

-- `if (rc == MQTT_REQUEST_TIMEOUT_ERROR) rc = SUCCESS;`
abbrev pub forgive : Result (Unit {0}) → Result (Unit {0})
forgive (err mqtt_request_timeout_error) = ok tt
forgive r = r

module _ {ℓ} {S : Type ℓ} {T D : Type 0} (board : Board S T D) where
  -- event_handler, with CONNECTED_BIT.
  unfoldable pub event_handler : WifiEvent → Bool → S → Bool × S
  event_handler sta_start connected s = (connected, board.wifi_connect s)
  event_handler sta_got_ip connected s = (true, s)
  event_handler sta_disconnected connected s = (false, board.wifi_connect s)
  event_handler other_event connected s = (connected, s)

  -- disconnectCallbackHandler
  unfoldable pub disconnect_callback_handler : S → S
  disconnect_callback_handler s =
      let (rc, s') = board.client.attempt_reconnect s in
      if board.client.is_autoreconnect_enabled s then s else s'

  -- mqttInitParams; the certificates are the names of files.
  abbrev pub init_params : InitParams
  init_params = record {
    enable_auto_reconnect = false;
    host_url = some board.mqtt_host;
    port = board.mqtt_port;
    root_ca_location = some (codes "root-CA.crt");
    device_cert_location = some (codes "certificate.pem.crt");
    device_private_key_location = some (codes "private.pem.key");
    mqtt_packet_timeout_ms = 2000;
    mqtt_command_timeout_ms = 20000;
    tls_handshake_timeout_ms = 20000;
    is_ssl_hostname_verify = true;
    disconnect_handler = some board.disconnect_callback_handler;
    disconnect_handler_data = 0;
    is_block_on_thread_lock_enabled = false;
  }

  -- connectParams
  abbrev pub connect_params : ConnectParams
  connect_params = record default_options {
    keep_alive_interval_in_sec = 10;
    is_clean_session = true;
    mqtt_version = 4;
    client_id = some board.mqtt_client_id;
    client_id_len = length board.mqtt_client_id % 2 ^ 16;
    is_will_msg_present = false;
  }

  -- The first error aborts.
  abbrev pub after_call :
      (S → Result (Unit {0}) × S) → Result (Unit {0}) × S → Result (Unit {0}) × S
  after_call f (ok _, s) = f s
  after_call f (err e, s) = (err e, s)
  after_call f (fault, s) = (fault, s)

  -- record_temp_task up to the loop.
  unfoldable pub start_client : S → Result (Unit {0}) × S
  start_client s =
      after_call (board.client.autoreconnect_set_status true)
        (after_call (board.client.connect connect_params) (board.client.init init_params s))

  -- What the sensors give: the temperature, the power and the variables of the current sensor.
  abbrev pub measured : Meter D → S → List ℕ × (Meter D × S)
  measured m s =
      let (temp_celcius, s1) = max6675_read_celsius board.gpio board.pins s in
      let (m', s2) = current_sensor_calc_irms board.double board.converter 2000 m s1 in
      (board.report temp_celcius (board.double.mul m'.irms (board.double.of_int 230)), (m', s2))

  -- After the publish, and `countdown_ms(&sendit, 150);`.
  abbrev pub published : Logging S T D → Result (Unit {0}) × S → Logging S T D
  published l (r, s) = record l {
    system = s;
    rc = forgive r;
    sendit = board.client.countdown_ms 150 s;
  }

  -- A text that does not fit is written beyond the end of cPayload.
  unfoldable pub send_payload : List ℕ → Logging S T D → Logging S T D
  send_payload payload l =
      if ltb (length payload) payload_size
      then published l
          (board.client.publish topic_name (length topic_name % 2 ^ 16) (message payload) l.system)
      else record l { rc = fault }

  unfoldable pub send_report : Logging S T D → Logging S T D
  send_report l =
      let (payload, (m, s)) = measured l.meter l.system in
      send_payload payload (record l { meter = m; system = s })

  -- `vTaskDelay(1000 / portTICK_PERIOD_MS);`
  abbrev pub paused : Logging S T D → Logging S T D
  paused l = record l { system = board.task_delay (1000 / board.tick_ms) l.system }

  unfoldable pub when_due : Logging S T D → Logging S T D
  when_due l =
      let sent = send_report l in
      if board.client.has_timer_expired l.sendit l.system then sent else paused l

  -- What follows the yield, with its code.
  abbrev pub after_yield : Logging S T D → Result (Unit {0}) → Logging S T D
  after_yield l (err network_attempting_reconnect) = record l {
    reconnect_attempts = (l.reconnect_attempts + 1) % 2 ^ 32;
  }
  after_yield l (err network_reconnected) =
      when_due (record l { reconnected_count = (l.reconnected_count + 1) % 2 ^ 32 })
  after_yield l fault = l
  after_yield l r = when_due l

  abbrev pub yielded : Logging S T D → Result (Unit {0}) × S → Logging S T D
  yielded l (r, s) = record l { system = s; rc = r }

  -- The body of the loop.
  unfoldable pub round : Logging S T D → Logging S T D
  round l = let l' = yielded l (board.client.yield_for 1000 l.system) in after_yield l' l'.rc

  -- The loop, for a number of rounds at most.
  unfoldable pub run : ℕ → Logging S T D → Logging S T D
  run zero l = l
  run (suc rounds) l = let rest = run rounds (round l) in if goes_on l.rc then rest else l
