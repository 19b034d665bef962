-- ===== src/Io.antt =====
-- The robust input and output functions of unpv13e/lib.
pub mod Readn
pub mod Writen
pub mod Select
pub mod Echo
pub mod Readline
mod Tests
