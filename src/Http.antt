-- ===== src/Http.antt =====
-- The HTTP layer of core/http.h and core/http.cpp.
pub mod Parser
pub mod Status
pub mod Stream
pub mod Response
pub mod Relay
