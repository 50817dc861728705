-- ===== src/Apns.antt =====
-- The way to Apple's push service: the messages, the client's queue and the pool of clients of
-- ApsApns*.cpp and SslTcpClient.cpp.
pub mod Hex
pub mod Message
pub mod Format
pub mod Client
pub mod Pool
pub mod Feedback
pub mod User
