-- ===== src/Icmpd.antt =====
-- unpv13e/icmpd: a daemon that tells its clients of the ICMP errors for their UDP sockets.
pub mod Table
pub mod Messages
pub mod Accounts
pub mod Rounds
pub mod Loop
pub mod Turns
pub mod Delivery
pub mod Stale
mod Tests
