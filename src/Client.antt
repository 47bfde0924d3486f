-- ===== src/Client.antt =====
-- The client: the types of arduino-esp32/AWS_IOT/src/aws_iot_mqtt_client.h, and the functions of
-- arduino-esp32/AWS_IOT/src/aws_iot_mqtt_client.c that read or set a field.
-- A Client stands for what a valid pClient points to. Where a function looks at a pClient that may
-- be NULL, it takes an Option. The mutexes and the network stack are not part of the record.
pub mod State
pub mod PacketId
pub mod Init
pub mod Handlers
pub mod Deliver
use hornbill_examples.Common.{ℕ, Bool, true, false, List, Option, none, some}
use hornbill_examples.Errors.{Result, ok, require, ◌>>=◌}
use hornbill_examples.Timer.{Timer}
use hornbill_examples.Wire.Header.{QoS}
use hornbill_examples.Packet.Connect.{ConnectParams}

pub data ClientState : Type 0 where
  invalid initialized connecting connected_idle connected_yield_in_progress : ClientState
  connected_publish_in_progress connected_subscribe_in_progress : ClientState
  connected_unsubscribe_in_progress connected_resubscribe_in_progress : ClientState
  connected_wait_for_cb_return disconnecting disconnected_error disconnected_manually : ClientState
  pending_reconnect : ClientState

-- A topic name is a C string, and a function or data pointer is its address.
pub record MessageHandler : Type 0 where
  pub topic_name : Option (List ℕ)
  pub topic_name_len : ℕ
  pub qos : QoS
  pub application_handler : Option ℕ
  pub application_handler_data : ℕ

pub record Client : Type 0 where
  pub ping_timer : Timer
  pub reconnect_delay_timer : Timer
  pub client_state : ClientState
  pub is_ping_outstanding : Bool
  pub is_auto_reconnect_enabled : Bool
  pub next_packet_id : ℕ
  pub packet_timeout_ms : ℕ
  pub command_timeout_ms : ℕ
  pub keep_alive_interval : ℕ
  pub current_reconnect_wait_interval : ℕ
  pub counter_network_disconnected : ℕ
  pub write_buf_size : ℕ
  pub read_buf_size : ℕ
  pub write_buf : List ℕ
  pub read_buf : List ℕ
  pub is_block_on_thread_lock_enabled : Bool
  pub options : ConnectParams
  pub message_handlers : List MessageHandler
  pub disconnect_handler : Option ℕ
  pub disconnect_handler_data : ℕ

unfoldable pub get_client_state : Option Client → ClientState
get_client_state none = invalid
get_client_state (some c) = c.client_state

-- The `switch` over the states.
abbrev pub is_connected_state : ClientState → Bool
is_connected_state connected_idle = true
is_connected_state connected_yield_in_progress = true
is_connected_state connected_publish_in_progress = true
is_connected_state connected_subscribe_in_progress = true
is_connected_state connected_unsubscribe_in_progress = true
is_connected_state connected_resubscribe_in_progress = true
is_connected_state connected_wait_for_cb_return = true
is_connected_state _ = false

unfoldable pub is_client_connected : Option Client → Bool
is_client_connected none = false
is_client_connected (some c) = is_connected_state c.client_state

-- Of aws_iot_mqtt_client_connect.c.
unfoldable pub is_client_state_valid_for_connect : ClientState → Bool
is_client_state_valid_for_connect initialized = true
is_client_state_valid_for_connect disconnected_error = true
is_client_state_valid_for_connect disconnected_manually = true
is_client_state_valid_for_connect pending_reconnect = true
is_client_state_valid_for_connect _ = false

unfoldable pub is_autoreconnect_enabled : Option Client → Bool
is_autoreconnect_enabled none = false
is_autoreconnect_enabled (some c) = c.is_auto_reconnect_enabled

unfoldable pub autoreconnect_set_status : Option Client → Bool → Result Client
autoreconnect_set_status client new_status = do
  c ← require client
  ok (record c { is_auto_reconnect_enabled = new_status })

unfoldable pub set_disconnect_handler : Option Client → Option ℕ → ℕ → Result Client
set_disconnect_handler client handler handler_data = do
  c ← require client
  h ← require handler
  ok (record c { disconnect_handler = some h; disconnect_handler_data = handler_data })

unfoldable pub get_network_disconnected_count : Client → ℕ
get_network_disconnected_count c = c.counter_network_disconnected

unfoldable pub reset_network_disconnected_count : Client → Client
reset_network_disconnected_count c = record c { counter_network_disconnected = 0 }

-- The password is taken from the user name, as the code has it.
unfoldable pub set_connect_params : Option Client → Option ConnectParams → Result Client
set_connect_params client new_params = do
  c ← require client
  p ← require new_params
  ok (record c { options = record p { password = p.username } })
