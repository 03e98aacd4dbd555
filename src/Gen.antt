-- ===== src/Gen.antt =====
-- The generator: it replays the dumps of a directory, one worker for each processor.
pub mod Request
pub mod Worker
pub mod Replay
pub mod Group
pub mod EndToEnd
pub mod Held
pub mod Lifetime
