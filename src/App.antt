-- ===== src/App.antt =====
-- The provider's HTTP interface: the requests, the answers and the session of ApsApp*.cpp.
pub mod Request
pub mod Response
pub mod Session
