-- ===== src/Packet/Connect/Serialize.antt =====
-- What serialize_connect writes.
use hornbill_examples.Common.{
  ℕ, ◌+◌, ◌*◌, subst, ◌^◌, ◌≤◌, ◌<◌, ◌≡◌, refl, arith, List, [], ◌∷◌, ◌++◌, length, length-append,
  leb, if◌then◌else◌, some, none, ◌==◌, codes, Bool, true, false, Option,
}
use hornbill_examples.Errors.{ok, err, mqtt_tx_buffer_too_short_error}
use hornbill_examples.Wire.{start, write_char, write_utf8_string}
use hornbill_examples.Wire.Writing.{
  Writes, Writes-bind, ok-Writes, advance, write_char-Writes, write_uint_16-Writes,
  write_utf8_string-Writes, uint16_bytes, utf8_bytes,
}
use hornbill_examples.Wire.Header.{QoS, qos0, qos1, qos_code, init_header}
use hornbill_examples.Wire.Length.{get_final_packet_length_from_remaining_length}
use hornbill_examples.Packet.Frame.{frame, write_frame_lem}
use hornbill_examples.Packet.Connect.{
  is_null, bit, WillOptions, ConnectParams, get_connect_packet_length, connect_flags,
  write_client_id, write_will, write_credential, client_id_fits, serialize_connect,
}

-- A string and its length, where the pointer is not NULL.
abbrev pub HasLength : Option (List ℕ) → ℕ → Type 0
HasLength none len = Unit
HasLength (some s) len = len ≡ length s

-- The parameters that a caller means: each length is that of its string and fits a uint16_t, the
-- client id is given or left out with its length, and the version is MQTT 3.1.1.
pub record IsConsistent (p : ConnectParams) : Type 0 where
  pub version : p.mqtt_version ≡ 4
  pub client_id_given : client_id_fits p.client_id p.client_id_len ≡ true
  pub client_id : HasLength p.client_id p.client_id_len
  pub topic_name : p.will.topic_name_len ≡ length p.will.topic_name
  pub message : p.will.msg_len ≡ length p.will.message
  pub username : HasLength p.username p.username_len
  pub password : HasLength p.password p.password_len
  pub short_client_id : p.client_id_len < 65536
  pub short_topic_name : p.will.topic_name_len < 65536
  pub short_message : p.will.msg_len < 65536
  pub short_username : p.username_len < 65536
  pub short_password : p.password_len < 65536

-- The client id always has a length; a missing one is empty.
abbrev pub client_id_bytes : Option (List ℕ) → List ℕ
client_id_bytes none = uint16_bytes 0
client_id_bytes (some s) = utf8_bytes s

abbrev pub will_bytes : Bool → WillOptions → List ℕ
will_bytes false will = []
will_bytes true will = utf8_bytes will.topic_name ++ utf8_bytes will.message

abbrev pub credential_bytes : Option (List ℕ) → List ℕ
credential_bytes none = []
credential_bytes (some s) = utf8_bytes s

abbrev pub bit_of : Bool → ℕ
bit_of true = 1
bit_of false = 0

abbrev pub is_given : Option (List ℕ) → Bool
is_given none = false
is_given (some s) = true

-- The connect flags of the MQTT standard, from bit 7 on: user name, password, will retain, will QoS
-- with two bits, will, clean session, and the reserved bit 0. The will's retain flag and QoS are 0
-- where there is no will.
abbrev pub qos_bits : QoS → ℕ
qos_bits qos0 = 0
qos_bits qos1 = 1

abbrev pub will_flags : Bool → WillOptions → ℕ
will_flags false will = 0
will_flags true will = 32 * bit_of will.is_retained + 8 * qos_bits will.qos + 4

abbrev pub standard_flags : ConnectParams → ℕ
standard_flags p =
    128 * bit_of (is_given p.username)
    + 64 * bit_of (is_given p.password)
    + will_flags p.is_will_msg_present p.will
    + 2 * bit_of p.is_clean_session

-- The variable header and the payload of a CONNECT, in the order of the MQTT standard.
abbrev pub connect_body : ConnectParams → List ℕ
connect_body p =
    utf8_bytes (codes "MQTT")
    ++ ((p.mqtt_version ∷ [])
        ++ ((standard_flags p ∷ [])
            ++ (uint16_bytes p.keep_alive_interval_in_sec
                ++ (client_id_bytes p.client_id
                    ++ (will_bytes p.is_will_msg_present p.will
                        ++ (credential_bytes p.username ++ credential_bytes p.password))))))

clean_flag : (b : Bool) → 2 * bit b ≡ 2 * bit_of b
clean_flag true = refl
clean_flag false = refl

given_flag : (o : Option (List ℕ)) (n : ℕ) → (if is_null o then 0 else n) ≡ n * bit_of (is_given o)
given_flag none n = omega arith
given_flag (some s) n = omega arith

qos_code-qos_bits : (q : QoS) → qos_code q ≡ qos_bits q
qos_code-qos_bits qos0 = refl
qos_code-qos_bits qos1 = refl

will_flags_lem :
    (w : Bool) (will : WillOptions)
    → 4 * bit w + (if w then 8 * qos_code will.qos + 32 * bit will.is_retained else 0)
      ≡ will_flags w will
will_flags_lem false will = refl
will_flags_lem true will = omega (arith, qos_code-qos_bits will.qos, clean_flag will.is_retained)

connect_flags-standard_flags : (p : ConnectParams) → connect_flags p ≡ standard_flags p
connect_flags-standard_flags p = omega (
  arith,
  clean_flag p.is_clean_session,
  will_flags_lem p.is_will_msg_present p.will,
  given_flag p.username 128,
  given_flag p.password 64,
)

write_string-Writes :
    (s : List ℕ) (len : ℕ) → len ≡ length s → Writes (write_utf8_string s len) (utf8_bytes s)
write_string-Writes s len h = rw h (write_utf8_string-Writes s)

write_client_id-Writes :
    (s : Option (List ℕ)) (len : ℕ)
    → HasLength s len
    → Writes (write_client_id s len) (client_id_bytes s)
write_client_id-Writes none len h = write_uint_16-Writes 0
write_client_id-Writes (some s) len h = write_string-Writes s len h

write_will-Writes :
    (present : Bool) (will : WillOptions)
    → will.topic_name_len ≡ length will.topic_name
    → will.msg_len ≡ length will.message
    → Writes (write_will present will) (will_bytes present will)
write_will-Writes false will ht hm = ok-Writes
write_will-Writes true will ht hm =
    Writes-bind (write_string-Writes will.topic_name will.topic_name_len ht)
      (write_string-Writes will.message will.msg_len hm)

write_credential-Writes :
    (s : Option (List ℕ)) (len : ℕ)
    → HasLength s len
    → Writes (write_credential s len) (credential_bytes s)
write_credential-Writes none len h = ok-Writes
write_credential-Writes (some s) len h = write_string-Writes s len h

length-client_id_bytes :
    (s : Option (List ℕ)) (len : ℕ)
    → client_id_fits s len ≡ true
    → HasLength s len
    → length (client_id_bytes s) ≡ len + 2
length-client_id_bytes none len given h = ground arith
length-client_id_bytes (some s) len given h = omega arith

length-will_bytes :
    (present : Bool) (will : WillOptions)
    → will.topic_name_len ≡ length will.topic_name
    → will.msg_len ≡ length will.message
    → length (will_bytes present will)
      ≡ (if present then will.topic_name_len + 2 + will.msg_len + 2 else 0)
length-will_bytes false will ht hm = refl
length-will_bytes true will ht hm =
    omega (arith, length-append will.topic_name (utf8_bytes will.message))

length-credential_bytes :
    (s : Option (List ℕ)) (len : ℕ)
    → HasLength s len
    → length (credential_bytes s) ≡ (if is_null s then 0 else len + 2)
length-credential_bytes none len h = refl
length-credential_bytes (some s) len h = omega arith

-- The body behind the client id.
abbrev tail_bytes : ConnectParams → List ℕ
tail_bytes p =
    will_bytes p.is_will_msg_present p.will
    ++ (credential_bytes p.username ++ credential_bytes p.password)

get_connect_packet_length-length :
    (p : ConnectParams) → IsConsistent p → get_connect_packet_length p ≡ length (connect_body p)
unfolding get_connect_packet_length
get_connect_packet_length-length p h = ground (
  arith,
  length-append (client_id_bytes p.client_id) (tail_bytes p),
  length-append (will_bytes p.is_will_msg_present p.will)
      (credential_bytes p.username ++ credential_bytes p.password),
  length-append (credential_bytes p.username) (credential_bytes p.password),
  length-client_id_bytes p.client_id p.client_id_len,
  length-will_bytes p.is_will_msg_present p.will,
  length-credential_bytes p.username p.username_len,
  length-credential_bytes p.password p.password_len,
)

get_connect_packet_length-lt :
    (p : ConnectParams) → IsConsistent p → get_connect_packet_length p < 1000000
unfolding get_connect_packet_length
get_connect_packet_length-lt p h = ground arith

-- For consistent parameters and a buffer of at least the stated size: where the packet length
-- function finds that the room suffices, the buffer starts with the CONNECT and is otherwise as it
-- was; else the error is returned before anything is written.
pub serialize_connect_lem :
    (buf : List ℕ) (tx_buf_len : ℕ) (p : ConnectParams)
    → tx_buf_len ≤ length buf
    → tx_buf_len ≤ 2 ^ 28
    → IsConsistent p
    → serialize_connect (some buf) tx_buf_len (some p) ≡ (
        if leb (get_final_packet_length_from_remaining_length (length (connect_body p))) tx_buf_len
        then ok (advance (start buf) (frame 16 (connect_body p)))
        else err mqtt_tx_buffer_too_short_error)
unfolding serialize_connect init_header
serialize_connect_lem buf tx_buf_len p fits small h =
    let len = get_connect_packet_length-length p h in
    let version : (p.mqtt_version == 4) ≡ true = ground (arith, h.version) in
    let short : length (connect_body p) + 8 < 2 ^ 32 =
      omega (arith, len, get_connect_packet_length-lt p h) in
    rw (h.client_id_given, version, len)
      (write_frame_lem 16 tx_buf_len buf mqtt_tx_buffer_too_short_error {body = connect_body p}
        short fits small
        (Writes-bind (write_utf8_string-Writes (codes "MQTT")) (
          Writes-bind (write_char-Writes p.mqtt_version) (
            Writes-bind
              (subst (λ n. Writes (write_char (connect_flags p)) (n ∷ []))
                (connect_flags-standard_flags p) (write_char-Writes (connect_flags p)))
              (Writes-bind (write_uint_16-Writes p.keep_alive_interval_in_sec) (
                Writes-bind (write_client_id-Writes p.client_id p.client_id_len h.client_id) (
                  Writes-bind
                    (write_will-Writes p.is_will_msg_present p.will h.topic_name h.message)
                    (Writes-bind (write_credential-Writes p.username p.username_len h.username)
                      (write_credential-Writes p.password p.password_len h.password)))))))))
