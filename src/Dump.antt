-- ===== src/Dump.antt =====
-- kernel/biology-proxy/src/biology-proxy-dump.c and .h: the buffered dump file of one processor.
pub mod Buffer
pub mod Log
pub mod Record
pub mod Init
pub mod Session
pub mod Total
