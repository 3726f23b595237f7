-- ===== src/Store.antt =====
-- crates/octty-store: how rows of the local database hold the domain types.
pub mod Codecs
