-- ===== src/Provider.antt =====
-- The provider side: SslSvrSession.cpp takes push messages, ProviderPacket.cpp holds one, and
-- the device's MqttServer sends it on.
pub mod Packet
pub mod Session
pub mod Run
pub mod Life
pub mod Stream
pub mod C2dm
