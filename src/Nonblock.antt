-- ===== src/Nonblock.antt =====
-- The nonblocking programs of unpv13e/nonblock.
pub mod Buf
pub mod StrCli
pub mod Web
mod Tests
