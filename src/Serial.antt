-- ===== src/Serial.antt =====
-- shared/biology-proxy-bio-serial.c and .h: how a traced request is laid out in a dump.
pub mod Info
pub mod Schema
pub mod Encode
pub mod Decode
pub mod Layout
pub mod RoundTrip
pub mod Payload
pub mod Header
