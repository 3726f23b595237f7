-- ===== src/Term.antt =====
-- crates/octty-term: the control sequences that programs in a terminal send.
pub mod Notify
pub mod Osc
pub mod Snapshot
pub mod Keyboard
pub mod Retach
