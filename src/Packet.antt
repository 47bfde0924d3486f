-- ===== src/Packet.antt =====
-- The MQTT packets: one child for each kind, with its serializer and its deserializer.
pub mod Frame
pub mod Publish
pub mod Ack
pub mod Subscribe
pub mod Unsubscribe
pub mod Connect
