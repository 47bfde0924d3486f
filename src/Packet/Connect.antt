-- ===== src/Packet/Connect.antt =====
-- CONNECT and CONNACK: _aws_iot_get_connect_packet_length, _aws_iot_mqtt_serialize_connect and
-- _aws_iot_mqtt_deserialize_connack of
-- arduino-esp32/AWS_IOT/src/aws_iot_mqtt_client_connect.c, and the parameters of
-- arduino-esp32/AWS_IOT/src/aws_iot_mqtt_client.h.
pub mod Serialize
pub mod Connack
use hornbill_examples.Common.{
  ℕ, ◌+◌, ◌*◌, ◌/◌, leb, ltb, ◌==◌, if◌then◌else◌, ◌&&◌, ◌||◌, Bool, true, false, List, [], ◌∷◌,
  Option, none, some, codes,
}
use hornbill_examples.Errors.{
  Result, ok, err, IotError, failure, null_value_error, mqtt_tx_buffer_too_short_error,
  mqtt_rx_buffer_too_short_error, mqtt_decode_remaining_length_error,
  mqtt_connack_connection_accepted, mqtt_connack_unknown_error,
  mqtt_connack_unacceptable_protocol_version_error, mqtt_connack_identifier_rejected_error,
  mqtt_connack_server_unavailable_error, mqtt_connack_bad_userdata_error,
  mqtt_connack_not_authorized_error, guard, require, ◌>>=◌, ◌>>◌,
}
use hornbill_examples.Wire.{
  Cursor, start, write_char, write_uint_16, write_utf8_string, reader, skip, read_char,
}
use hornbill_examples.Wire.Header.{
  QoS, qos0, qos_code, connect, init_header, header_byte, header_bits,
}
use hornbill_examples.Wire.Length.{
  write_len_to_buffer, decode_remaining_length_from_buffer,
  get_final_packet_length_from_remaining_length,
}

-- IoT_MQTT_Will_Options, without the eyecatcher.
pub record WillOptions : Type 0 where
  pub topic_name : List ℕ
  pub topic_name_len : ℕ
  pub message : List ℕ
  pub msg_len : ℕ
  pub is_retained : Bool
  pub qos : QoS

-- IoT_Client_Connect_Params, without the eyecatcher. A pointer that the code compares with NULL is
-- an Option; the lengths are uint16_t.
pub record ConnectParams : Type 0 where
  pub mqtt_version : ℕ
  pub client_id : Option (List ℕ)
  pub client_id_len : ℕ
  pub keep_alive_interval_in_sec : ℕ
  pub is_clean_session : Bool
  pub is_will_msg_present : Bool
  pub will : WillOptions
  pub username : Option (List ℕ)
  pub username_len : ℕ
  pub password : Option (List ℕ)
  pub password_len : ℕ

abbrev pub is_null {ℓ} : {A : Type ℓ} → Option A → Bool
is_null none = true
is_null (some _) = false

-- Sums of a few uint16_t, which a uint32_t holds.
unfoldable pub get_connect_packet_length : ConnectParams → ℕ
get_connect_packet_length p =
    let len = 10 + p.client_id_len + 2 in
    let with_will =
      if p.is_will_msg_present then len + p.will.topic_name_len + 2 + p.will.msg_len + 2 else len in
    let with_username = if is_null p.username then with_will else with_will + p.username_len + 2 in
    if is_null p.password then with_username else with_username + p.password_len + 2

abbrev bit : Bool → ℕ
bit b = if b then 1 else 0

-- `flags.all`: bit 0 is unused, then cleansession, will, willQoS with two bits, willRetain,
-- password and username.
abbrev pub connect_flags : ConnectParams → ℕ
connect_flags p =
    2 * bit p.is_clean_session
    + 4 * bit p.is_will_msg_present
    + (if p.is_will_msg_present then 8 * qos_code p.will.qos + 32 * bit p.will.is_retained else 0)
    + (if is_null p.password then 0 else 64)
    + (if is_null p.username then 0 else 128)

-- `if(NULL == pClientID) write_uint_16(&ptr, 0); else write_utf8_string(…)`
abbrev pub write_client_id : Option (List ℕ) → ℕ → Cursor → Result Cursor
write_client_id none len c = write_uint_16 0 c
write_client_id (some s) len c = write_utf8_string s len c

-- The will's topic and message, if there is a will.
abbrev pub write_will : Bool → WillOptions → Cursor → Result Cursor
write_will false will c = ok c
write_will true will c = do
  after_topic ← write_utf8_string will.topic_name will.topic_name_len c
  write_utf8_string will.message will.msg_len after_topic

-- The user name or the password, whose flag is set where the pointer is not NULL.
abbrev pub write_credential : Option (List ℕ) → ℕ → Cursor → Result Cursor
write_credential none len c = ok c
write_credential (some s) len c = write_utf8_string s len c

-- A client id and its length must be given or left out together.
abbrev pub client_id_fits : Option (List ℕ) → ℕ → Bool
client_id_fits none len = len == 0
client_id_fits (some _) len = ltb 0 len

unfoldable pub serialize_connect : Option (List ℕ) → ℕ → Option ConnectParams → Result Cursor
serialize_connect tx_buf tx_buf_len connect_params = do
  buf ← require tx_buf
  p ← require connect_params
  guard (client_id_fits p.client_id p.client_id_len) null_value_error
  guard (p.mqtt_version == 4) mqtt_connack_unacceptable_protocol_version_error
  let len = get_connect_packet_length p
  guard (leb (get_final_packet_length_from_remaining_length len) tx_buf_len)
      mqtt_tx_buffer_too_short_error
  header ← init_header connect qos0 0 0
  after_header ← write_char (header_byte header) (start buf)
  after_len ← write_len_to_buffer len after_header
  after_name ← write_utf8_string (codes "MQTT") 4 after_len
  after_version ← write_char p.mqtt_version after_name
  after_flags ← write_char (connect_flags p) after_version
  after_keep_alive ← write_uint_16 p.keep_alive_interval_in_sec after_flags
  after_client_id ← write_client_id p.client_id p.client_id_len after_keep_alive
  after_will ← write_will p.is_will_msg_present p.will after_client_id
  after_username ← write_credential p.username p.username_len after_will
  write_credential p.password p.password_len after_username

-- The `switch` over the return code of the server.
abbrev pub connack_code : ℕ → IotError
connack_code code =
    if code == 0
    then mqtt_connack_connection_accepted
    else (if code == 1
        then mqtt_connack_unacceptable_protocol_version_error
        else (if code == 2
            then mqtt_connack_identifier_rejected_error
            else (if code == 3
                then mqtt_connack_server_unavailable_error
                else (if code == 4
                    then mqtt_connack_bad_userdata_error
                    else (if code == 5
                        then mqtt_connack_not_authorized_error
                        else mqtt_connack_unknown_error)))))

-- What the function leaves in its output pointers.
pub record ConnackFields : Type 0 where
  pub session_present : ℕ
  pub connack_rc : IotError

-- `flags.bits.sessionpresent` stands behind seven unused bits, so it is the top bit of the byte.
unfoldable pub deserialize_connack : Option (List ℕ) → ℕ → Result ConnackFields
deserialize_connack rx_buf rx_buf_len = do
  buf ← require rx_buf
  guard (leb 4 rx_buf_len) mqtt_rx_buffer_too_short_error
  (byte, after_header) ← read_char (reader buf)
  guard ((header_bits byte).type == 2) failure
  decoded ← decode_remaining_length_from_buffer after_header.rest
  let after_len = skip decoded.read_bytes_len after_header
  guard (decoded.decoded_len == 2) mqtt_decode_remaining_length_error
  (flags, after_flags) ← read_char after_len
  (code, _) ← read_char after_flags
  ok (record { session_present = flags / 128; connack_rc = connack_code code })
