-- ===== src/Policy.antt =====
-- The security policy of packages/core/src/policy.ts and the paths of packages/core/src/workspace-paths.ts.
pub mod Glob
pub mod Language
pub mod Patterns
pub mod Paths
pub mod Enforcer
pub mod Denied
pub mod Segments
mod Tests
