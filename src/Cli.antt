-- ===== src/Cli.antt =====
-- cli/src/main.cpp: the command line.
pub mod Ids
pub mod Colors
pub mod Common
pub mod Restore
pub mod Start
pub mod Commands
pub mod Process
pub mod Listing
pub mod Main
