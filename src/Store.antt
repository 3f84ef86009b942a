-- ===== src/Store.antt =====
-- The store of the daemon (packages/revud/src/direct/store.ts).
pub mod Tables
pub mod Snapshots
pub mod Reviews
pub mod Documents
