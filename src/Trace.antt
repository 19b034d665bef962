-- ===== src/Trace.antt =====
-- unpv13e/traceroute: probes with growing hop limits, and the ICMP messages that answer them.
pub mod Recv
pub mod Bounds
pub mod Answers
pub mod Loop
mod Tests
