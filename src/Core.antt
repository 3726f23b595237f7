-- ===== src/Core.antt =====
-- crates/octty-core: the domain types, pane activity, the pane layout and workspace shortcuts.
pub mod Types
pub mod Activity
pub mod Layout
pub mod Shortcuts
