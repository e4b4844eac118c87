-- ===== src/Scheduler.antt =====
-- The scheduler of packages/core/src/scheduler-engine.ts.
pub mod State
pub mod Tables
pub mod Shape
pub mod Finish
pub mod Launch
pub mod Resume
pub mod Flows
pub mod Requests
pub mod Triggers
pub mod Schedules
pub mod Calls
pub mod Clock
pub mod Replay
pub mod Restore
pub mod Events
pub mod Counts
pub mod Keeps
pub mod Attempts
pub mod Launches
pub mod Outside
pub mod Streams
pub mod Teardown
pub mod Disposal
pub mod Admitted
pub mod Ticks
pub mod Repeats
pub mod Untouched
pub mod Cursor
pub mod Asked
pub mod Updates
pub mod Consent
pub mod Limits
pub mod Once
mod Tests
