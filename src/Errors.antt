-- ===== src/Errors.antt =====
-- aws_iot_error.h: the error codes, and what a call that returns one comes to.
use hornbill_examples.Common.{
  Bool, true, false, Option, none, some, ◌≡◌, refl, if◌then◌else◌, arith,
}

-- IoT_Error_t but for SUCCESS, which is the constructor `ok` of `Result`.
pub data IotError : Type 0 where
  network_physical_layer_connected network_manually_disconnected network_attempting_reconnect :
      IotError
  network_reconnected mqtt_nothing_to_read mqtt_connack_connection_accepted failure : IotError
  null_value_error tcp_connection_error ssl_connection_error tcp_setup_error : IotError
  network_ssl_connect_timeout_error network_ssl_write_error network_ssl_init_error : IotError
  network_ssl_cert_error network_ssl_write_timeout_error network_ssl_read_timeout_error : IotError
  network_ssl_read_error network_disconnected_error network_reconnect_timed_out_error : IotError
  network_already_connected_error network_mbedtls_err_ctr_drbg_entropy_source_failed : IotError
  network_ssl_unknown_error network_physical_layer_disconnected : IotError
  network_x509_root_crt_parse_error network_x509_device_crt_parse_error : IotError
  network_pk_private_key_parse_error network_err_net_socket_failed network_err_net_unknown_host :
      IotError
  network_err_net_connect_failed network_ssl_nothing_to_read mqtt_connection_error : IotError
  mqtt_connect_timeout_error mqtt_request_timeout_error mqtt_unexpected_client_state_error :
      IotError
  mqtt_client_not_idle_error mqtt_rx_message_packet_type_invalid_error : IotError
  mqtt_rx_buffer_too_short_error mqtt_tx_buffer_too_short_error : IotError
  mqtt_max_subscriptions_reached_error mqtt_decode_remaining_length_error : IotError
  mqtt_connack_unknown_error mqtt_connack_unacceptable_protocol_version_error : IotError
  mqtt_connack_identifier_rejected_error mqtt_connack_server_unavailable_error : IotError
  mqtt_connack_bad_userdata_error mqtt_connack_not_authorized_error json_parse_error : IotError
  shadow_wait_for_publish shadow_json_buffer_truncated shadow_json_error mutex_init_error : IotError
  mutex_lock_error mutex_unlock_error mutex_destroy_error : IotError

-- What a function with an IoT_Error_t result and output pointers comes to: SUCCESS with the outputs,
-- an error code, or `fault`, an access outside of a buffer, which C leaves undefined.
pub data Result {ℓ} (A : Type ℓ) : Type ℓ where
  ok : A → Result A
  err : IotError → Result A
  fault : Result A

infixl 5 ◌>>=◌ ◌>>◌
abbrev pub ◌>>=◌ {ℓ κ} : {A : Type ℓ} {B : Type κ} → Result A → (A → Result B) → Result B
ok a >>= f = f a
err e >>= f = err e
fault >>= f = fault

abbrev pub ◌>>◌ {ℓ} : {B : Type ℓ} → Result (Unit {0}) → Result B → Result B
m >> k = m >>= λ _. k

-- `if(!test) return e;`
abbrev pub guard : Bool → IotError → Result (Unit {0})
guard true e = ok tt
guard false e = err e

-- `if(NULL == p) return NULL_VALUE_ERROR;` for a pointer that may be NULL.
abbrev pub require {ℓ} : {A : Type ℓ} → Option A → Result A
require none = err null_value_error
require (some a) = ok a

-- A function of this form succeeds only where its test holds, with the value of that branch.
pub if_ok {ℓ} :
    {A : Type ℓ} (b : Bool) (e : IotError) {a c : A}
    → (if b then ok a else err e) ≡ ok c
    → (b ≡ true) × (a ≡ c)
if_ok true e h = (refl, ground arith)
if_ok false e h = cc

-- What follows a test of this form follows its successful branch.
pub if_bind {ℓ κ} :
    {A : Type ℓ} {B : Type κ} (b : Bool) (a : A) (e : IotError) (f : A → Result B)
    → ((if b then ok a else err e) >>= f) ≡ (if b then f a else err e)
if_bind true a e f = refl
if_bind false a e f = refl
