-- ===== src/Threads.antt =====
-- The programs of unpv13e/threads and the server of unpv13e/server/serv08.c, whose threads share
-- variables under a mutex.
pub mod Ring
pub mod Counter
pub mod Buffer
pub mod Pool
pub mod Web
