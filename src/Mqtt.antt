-- ===== src/Mqtt.antt =====
-- The MQTT side of the server: MqttPacket, MqttSessionHandler and MqttServer.
pub mod Packet
pub mod Registry
pub mod Session
pub mod Framing
pub mod Publish
pub mod Run
