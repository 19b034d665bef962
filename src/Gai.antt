-- ===== src/Gai.antt =====
-- unpv13e/libgai: getaddrinfo() and the functions it is made of.
pub mod Types
pub mod Entry
pub mod Serv
pub mod Lookup
pub mod Search
pub mod Names
mod Tests
