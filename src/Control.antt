-- ===== src/Control.antt =====
-- The sysfs commands of the two modules, and the library that writes them.
pub mod Words
pub mod Handlers
pub mod Library
pub mod Files
pub mod RoundTrip
pub mod Show
pub mod Start
pub mod Sysfs
pub mod Counts
