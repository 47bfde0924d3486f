-- ===== src/Client/PacketId.antt =====
-- aws_iot_mqtt_get_next_packet_id: arduino-esp32/AWS_IOT/src/aws_iot_mqtt_client.c.
pub mod Cycle
use hornbill_examples.Common.{ℕ, ◌+◌, ◌%◌, ◌^◌, ◌==◌, if◌then◌else◌}
use hornbill_examples.Client.{Client}

abbrev pub max_packet_id : ℕ
max_packet_id = 65535

-- The id, and the client that remembers it.
unfoldable pub get_next_packet_id : Client → ℕ × Client
get_next_packet_id c =
    let id = (if c.next_packet_id == max_packet_id then 1 else c.next_packet_id + 1) % 2 ^ 16 in
    (id, record c { next_packet_id = id })
