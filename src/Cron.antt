-- ===== src/Cron.antt =====
-- The cron clock of packages/core/src/cron.ts: parsing, matching, and the next occurrence.
pub mod Parse
pub mod Match
pub mod Next
mod Tests
