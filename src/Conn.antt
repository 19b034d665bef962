-- ===== src/Conn.antt =====
-- unpv13e/lib: sockets that are connected or bound to the first address of a host that works.
pub mod Walk
pub mod First
pub mod Programs
pub mod Nonb
mod Tests
