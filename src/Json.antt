-- ===== src/Json.antt =====
-- to-json, which prints the requests of dumps.
pub mod Parse
pub mod Prints
pub mod Ends
pub mod Main
