-- ===== src/Connection.antt =====
-- `connection` of core/connection.h and core/connection.cpp.
pub mod Output
pub mod Pairs
pub mod Tables
pub mod UriInfo
pub mod Partner
pub mod Request
