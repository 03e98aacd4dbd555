-- ===== src/Cli.antt =====
-- The command line tool: biologycli.
pub mod Command
pub mod Commands
pub mod Handle
pub mod Select
pub mod Typed
pub mod Given
pub mod Call
pub mod Enable
pub mod Disable
