-- ===== src/Jj.antt =====
-- crates/octty-jj: reading the output of the `jj` command line, and the calls of it.
pub mod Parse
pub mod Classify
pub mod World
pub mod Command
pub mod Workspaces
pub mod Status
mod Tests
