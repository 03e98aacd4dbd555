-- ===== src/Tests.antt =====
-- The theorems at concrete inputs.
mod Machine
mod Formats
mod Dumps
mod Replays
mod Commands
mod Proxies
mod Races
mod Calls
mod Texts
