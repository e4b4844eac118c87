-- ===== src/Store/Runs/Rows.antt =====
-- The columns of the tables runs and run_events of packages/core/src/store.ts, with the enumerations
-- of packages/protocol/src/schemas/schedule.ts. Ids are numbers, an instant is its milliseconds, and a
-- JSON column is the value it stands for. `acked` is `acked_seq` plus one, which starts at -1.
use agent_phonon.Base.{ℕ, List, Option}

pub data RunStatus : Type 0 where
  pending running success failed timeout cancelled skipped : RunStatus

pub data RunTriggerSource : Type 0 where
  cron webhook manual : RunTriggerSource

pub data RuntimePhase : Type 0 where
  queued launching phase_running retry_wait : RuntimePhase

pub data RetryPhase : Type 0 where
  launch runtime : RetryPhase

pub data PushState : Type 0 where
  push_pending acked_push : PushState

-- The texts that the scheduler gives as reasons, and those of others.
pub data Reason : Type 0 where
  schedule_disabled schedule_deleted : Reason
  disabled_before_launch deleted_before_launch : Reason
  overlap_skip overlap_changed : Reason
  definition_changed workflows_unavailable plan_missing cannot_execute : Reason
  attempt_failed no_longer_owned : Reason
  exceeded_timeout : ℕ → Reason
  retrying_after : ℕ → Reason → Reason
  queued_cancelled : Reason → Reason
  of_status : RunStatus → Reason
  said : List ℕ → Reason

pub record RetryAudit : Type 0 where
  pub audit_attempt : ℕ
  pub audit_at : ℕ
  pub audit_phase : RetryPhase
  pub audit_error : Reason

pub record ScheduleDispatch : Type 0 where
  pub dispatch_key : List ℕ
  pub revision : ℕ
  pub content_hash : List ℕ
  pub expires_at : Option ℕ

pub record RunRow : Type 0 where
  pub id : ℕ
  pub schedule_id : ℕ
  pub tenant_id : ℕ
  pub trigger_source : RunTriggerSource
  pub status : RunStatus
  pub session_id : Option ℕ
  pub workflow_id : Option ℕ
  pub started_at : Option ℕ
  pub finished_at : Option ℕ
  pub exit_reason : Option Reason
  pub error : Option Reason
  pub transcript_path : Option (List ℕ)
  pub result_text : Option (List ℕ)
  pub usage : Option (List ℕ)
  pub push_state : PushState
  pub acked : ℕ
  pub created_at : ℕ
  pub attempt : ℕ
  pub max_attempts : ℕ
  pub retry_history : List RetryAudit
  pub input : Option (List ℕ)
  pub phase : Option RuntimePhase
  pub retry_at : Option ℕ
  pub owner_id : Option ℕ
  pub owner_epoch : ℕ
  pub lease_until : Option ℕ
  pub event_seq : ℕ
  pub dispatch : Option ScheduleDispatch

pub record RunEventRow : Type 0 where
  pub event_run : ℕ
  pub event_tenant : ℕ
  pub seq : ℕ
  pub payload : List ℕ

pub record RunTables : Type 0 where
  pub runs : List RunRow
  pub run_events : List RunEventRow
