-- ===== src/Workflow.antt =====
-- The workflow engine of packages/core/src/workflow-engine.ts: plans and the run of a DAG.
pub mod Plan
pub mod State
pub mod Dag
mod Tests
