-- ===== src/Store.antt =====
-- The SQLite store of packages/core/src/store.ts: its tables as lists of rows.
pub mod Write
pub mod Outbox
pub mod Runs
