-- ===== src/Parser.antt =====
-- kernel/biology-gen/src/biology-gen-parser.c and .h: the generator's reader of one dump file.
pub mod State
pub mod Window
pub mod Refill
pub mod Next
pub mod Init
