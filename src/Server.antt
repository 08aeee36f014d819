-- ===== src/Server.antt =====
-- The server's events and the values that it hashes and serves, src/server and src/rest/types.rs.
pub mod Events
pub mod Rest
pub mod Proof
