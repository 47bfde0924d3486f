-- ===== src/Wire/Header.antt =====
-- The fixed header byte of an MQTT packet: MQTTHeader and MessageTypes of
-- arduino-esp32/AWS_IOT/src/aws_iot_mqtt_client_common_internal.h, and
-- aws_iot_mqtt_internal_init_header.
use hornbill_examples.Common.{ℕ, ◌+◌, ◌*◌, ◌/◌, ◌%◌, ◌<◌, ◌≡◌, arith, ◌==◌, if◌then◌else◌}
use hornbill_examples.Errors.{Result, ok, err, failure, ◌>>=◌}

-- MessageTypes.
pub data MessageType : Type 0 where
  unknown connect connack publish puback pubrec pubrel pubcomp : MessageType
  subscribe suback unsubscribe unsuback pingreq pingresp disconnect : MessageType

-- QoS.
pub data QoS : Type 0 where
  qos0 qos1 : QoS

-- The number behind a QoS.
abbrev pub qos_code : QoS → ℕ
qos_code qos0 = 0
qos_code qos1 = 1

-- The bit fields of MQTTHeader.
pub record Header : Type 0 where
  pub retain : ℕ
  pub qos : ℕ
  pub dup : ℕ
  pub type : ℕ

-- `header.byte`, as the bit fields lie on a little-endian target: retain is bit 0, qos bits 1 and 2,
-- dup bit 3, type bits 4 to 7.
abbrev pub header_byte : Header → ℕ
header_byte h = h.retain + 2 * h.qos + 8 * h.dup + 16 * h.type

-- `header.bits` of a byte.
abbrev pub header_bits : ℕ → Header
header_bits b = record { retain = b % 2; qos = b / 2 % 4; dup = b / 8 % 2; type = b / 16 }

-- The first `switch` of the function: the type nibble, or FAILURE.
abbrev pub type_bits : MessageType → Result ℕ
type_bits unknown = err failure
type_bits connect = ok 1
type_bits connack = ok 2
type_bits publish = ok 3
type_bits puback = ok 4
type_bits pubrec = ok 5
type_bits pubrel = ok 6
type_bits pubcomp = ok 7
type_bits subscribe = ok 8
type_bits suback = ok 9
type_bits unsubscribe = ok 10
type_bits unsuback = ok 11
type_bits pingreq = ok 12
type_bits pingresp = ok 13
type_bits disconnect = ok 14

unfoldable pub init_header : MessageType → QoS → ℕ → ℕ → Result Header
init_header message_type qos dup retained = do
  type ← type_bits message_type
  ok (record {
    retain = if retained == 1 then 1 else 0;
    qos = qos_code qos;
    dup = if dup == 1 then 1 else 0;
    type = type;
  })

-- Every header that init_header makes fits one byte, and its bit fields are read back from that byte.
pub init_header-header_bits :
    (message_type : MessageType) (qos : QoS) (dup retained : ℕ) {h : Header}
    → init_header message_type qos dup retained ≡ ok h
    → (header_byte h < 256) × (header_bits (header_byte h) ≡ h)
unfolding init_header
init_header-header_bits message_type qos dup retained e = ground arith
