-- ===== src/Server.antt =====
-- The concurrent servers of unpv13e/server and unpv13e/tcpcliserv.
pub mod Prefork
pub mod Select
pub mod Poll
mod Tests
