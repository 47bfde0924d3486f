-- ===== src/Client/Init.antt =====
-- aws_iot_mqtt_init: arduino-esp32/AWS_IOT/src/aws_iot_mqtt_client.c. What xSemaphoreCreateRecursiveMutex
-- and iot_tls_init answer are parameters.
pub mod Fresh
use hornbill_examples.Common.{
  ℕ, ◌==◌, ◌!=◌, ◌||◌, if◌then◌else◌, Bool, true, false, List, [], ◌∷◌, Option, none, some,
  replicate, map,
}
use hornbill_examples.Errors.{Result, ok, err, fault, require, guard, null_value_error, ◌>>=◌, ◌>>◌}
use hornbill_examples.Timer.{init_timer}
use hornbill_examples.Threads.{thread_mutex_init}
use hornbill_examples.Wire.Header.{qos0}
use hornbill_examples.Packet.Connect.{ConnectParams, WillOptions, is_null}
use hornbill_examples.Client.{Client, MessageHandler, invalid, initialized, set_connect_params}
use hornbill_examples.Client.State.{Outcome}

-- IoT_Client_Init_Params. The texts are handed to the network stack, so only whether they are there
-- is looked at here.
pub record InitParams : Type 0 where
  pub enable_auto_reconnect : Bool
  pub host_url : Option (List ℕ)
  pub port : ℕ
  pub root_ca_location : Option (List ℕ)
  pub device_cert_location : Option (List ℕ)
  pub device_private_key_location : Option (List ℕ)
  pub mqtt_packet_timeout_ms : ℕ
  pub mqtt_command_timeout_ms : ℕ
  pub tls_handshake_timeout_ms : ℕ
  pub is_ssl_hostname_verify : Bool
  pub disconnect_handler : Option ℕ
  pub disconnect_handler_data : ℕ
  pub is_block_on_thread_lock_enabled : Bool

-- IoT_Client_Connect_Params_initializer; a NULL text of the will has no characters.
abbrev pub default_options : ConnectParams
default_options = record {
  mqtt_version = 4;
  client_id = none;
  client_id_len = 0;
  keep_alive_interval_in_sec = 60;
  is_clean_session = true;
  is_will_msg_present = false;
  will = record {
    topic_name = [];
    topic_name_len = 0;
    message = [];
    msg_len = 0;
    is_retained = false;
    qos = qos0;
  };
  username = none;
  username_len = 0;
  password = none;
  password_len = 0;
}

-- AWS_IOT_MQTT_TX_BUF_LEN and AWS_IOT_MQTT_RX_BUF_LEN of aws_iot_config.h
abbrev pub mqtt_buf_len : ℕ
mqtt_buf_len = 512

abbrev pub clear_handler : MessageHandler → MessageHandler
clear_handler h = record h {
  topic_name = none;
  application_handler = none;
  application_handler_data = 0;
  qos = qos0;
}

-- The loop over the table.
abbrev pub clear_handlers : List MessageHandler → List MessageHandler
clear_handlers [] = []
clear_handlers (h ∷ handlers) = clear_handler h ∷ clear_handlers handlers

-- The assignments in front of the first call that may fail.
abbrev pub set_init_params : InitParams → Client → Client
set_init_params p c = record c {
  message_handlers = clear_handlers c.message_handlers;
  packet_timeout_ms = p.mqtt_packet_timeout_ms;
  command_timeout_ms = p.mqtt_command_timeout_ms;
  write_buf_size = mqtt_buf_len;
  read_buf_size = mqtt_buf_len;
  counter_network_disconnected = 0;
  disconnect_handler = p.disconnect_handler;
  disconnect_handler_data = p.disconnect_handler_data;
  next_packet_id = 1;
}

-- What the three xSemaphoreCreateRecursiveMutex calls and iot_tls_init answer.
pub record InitAnswers : Type 0 where
  pub state_change_mutex : Bool
  pub tls_read_mutex : Bool
  pub tls_write_mutex : Bool
  pub tls_init : Result (Unit {0})

abbrev pub mutexes_init : InitAnswers → Result (Unit {0})
mutexes_init a =
    thread_mutex_init a.state_change_mutex
    >> (thread_mutex_init a.tls_read_mutex >> thread_mutex_init a.tls_write_mutex)

-- `if(SUCCESS != rc) { … CLIENT_STATE_INVALID … }` and what follows.
abbrev pub after_tls_init : Result (Unit {0}) → Client → Outcome
after_tls_init (ok _) c = (
  ok tt,
  record c {
    ping_timer = init_timer;
    reconnect_delay_timer = init_timer;
    client_state = initialized;
  },
)
after_tls_init (err e) c = (err e, record c { client_state = invalid })
after_tls_init fault c = (fault, c)

abbrev pub after_mutexes : Result (Unit {0}) → InitParams → InitAnswers → Client → Outcome
after_mutexes (ok _) p a c =
    after_tls_init a.tls_init (record c {
      is_ping_outstanding = false;
      is_auto_reconnect_enabled = p.enable_auto_reconnect;
    })
after_mutexes (err e) p a c = (err e, c)
after_mutexes fault p a c = (fault, c)

abbrev pub after_connect_params : Result Client → InitParams → InitAnswers → Client → Outcome
after_connect_params (ok c') p a c =
    after_mutexes (mutexes_init a) p a
      (record c' { is_block_on_thread_lock_enabled = p.is_block_on_thread_lock_enabled })
after_connect_params (err e) p a c = (err e, c)
after_connect_params fault p a c = (fault, c)

-- pClient and pInitParams are taken to be there.
unfoldable pub init : InitParams → InitAnswers → Client → Outcome
unfolding set_connect_params thread_mutex_init
init p a c =
    if is_null p.host_url
      || (p.port == 0
          || (is_null p.root_ca_location
              || (is_null p.device_private_key_location || is_null p.device_cert_location)))
    then (err null_value_error, c)
    else (let c' = set_init_params p c in
        after_connect_params (set_connect_params (some c') (some default_options)) p a c')
