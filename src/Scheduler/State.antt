-- ===== src/Scheduler/State.antt =====
-- The state of packages/core/src/scheduler-engine.ts. Ids are numbers and instants are milliseconds. The
-- plan, the project and the input of a target are known by what the code hands on of them.
use agent_phonon.Base.{ℕ, Bool, List, Option, none, some, Result}
use agent_phonon.Cron.Match.{FormatParts}
use agent_phonon.Store.Runs.Rows.{
  RunEventRow, RunStatus, RunTriggerSource, RuntimePhase, RetryAudit, ScheduleDispatch, Reason,
  RunTables,
}

pub data SchedulePushConsent : Type 0 where
  full summary status_only : SchedulePushConsent

pub data Overlap : Type 0 where
  skip queue allow : Overlap

pub data RunKind : Type 0 where
  session_run workflow_run dispatch_run : RunKind

pub record ScheduleTarget : Type 0 where
  pub run_kind : RunKind
  pub project : ℕ
  pub prompt : Option (List ℕ)
  pub plan : Option ℕ
  pub dispatch : Option ScheduleDispatch

pub record SchedulePolicy : Type 0 where
  pub timeout_ms : Option ℕ
  pub overlap : Overlap
  pub max_retries : ℕ
  pub catch_up : Bool

pub data ScheduleTrigger : Type 0 where
  cron_trigger : List ℕ → Option (List ℕ) → ScheduleTrigger
  webhook_trigger : Option (List ℕ) → ScheduleTrigger
  manual_trigger : ScheduleTrigger

pub record Schedule : Type 0 where
  pub sid : ℕ
  pub tenant : ℕ
  pub name : List ℕ
  pub enabled : Bool
  pub trigger : ScheduleTrigger
  pub target : ScheduleTarget
  pub push : SchedulePushConsent
  pub policy : Option SchedulePolicy
  pub created_at : ℕ
  pub updated_at : ℕ
  pub last_run_at : Option ℕ
  pub next_run_at : Option ℕ

-- `policy?.overlap ?? "skip"`, and so on.
abbrev pub overlap_of : Option SchedulePolicy → Overlap
overlap_of none = skip
overlap_of (some p) = p.overlap

abbrev pub retries_of : Option SchedulePolicy → ℕ
retries_of none = 0
retries_of (some p) = p.max_retries

abbrev pub timeout_of : Option SchedulePolicy → Option ℕ
timeout_of none = none
timeout_of (some p) = p.timeout_ms

-- What `setTimeout` was called for.
pub data Timer : Type 0 where
  retry_timer timeout_timer : ℕ → Timer

pub record RunRuntime : Type 0 where
  pub run_id : ℕ
  pub schedule_id : ℕ
  pub session_id : Option ℕ
  pub workflow_id : Option ℕ
  pub status : RunStatus
  pub phase : RuntimePhase
  pub subscribed : Bool
  pub seq : ℕ
  pub acked : ℕ
  pub result_text : List ℕ
  pub created_at : ℕ
  pub started_at : Option ℕ
  pub timer : Option Timer
  pub consent : SchedulePushConsent
  pub trigger_source : RunTriggerSource
  pub input : Option (List ℕ)
  pub attempt : ℕ
  pub max_attempts : ℕ
  pub retry_history : List RetryAudit
  pub retry_at : Option ℕ
  pub owner_epoch : ℕ
  pub dispatch : Option ScheduleDispatch

-- A run as it is pushed and listed.
pub record Run : Type 0 where
  pub id : ℕ
  pub schedule_id : ℕ
  pub tenant_id : ℕ
  pub trigger_source : RunTriggerSource
  pub status : RunStatus
  pub controller_dispatch : Bool
  pub dispatch : Option ScheduleDispatch
  pub input : Option (List ℕ)
  pub session_id : Option ℕ
  pub workflow_id : Option ℕ
  pub started_at : Option ℕ
  pub finished_at : Option ℕ
  pub exit_reason : Option Reason
  pub error : Option Reason
  pub transcript_path : Option (List ℕ)
  pub result_text : Option (List ℕ)
  pub usage : Option (List ℕ)
  pub attempt : Option ℕ
  pub max_attempts : Option ℕ
  pub retry_history : Option (List RetryAudit)

-- What is pushed, each with the consent of its run. What `replayUnacked` pushes under `run.event` and
-- `run.finished` is told apart, as `event_repeated` and `run_repeated`.
pub data Emission : Type 0 where
  run_started : Run → SchedulePushConsent → Emission
  run_event : ℕ → ℕ → ℕ → List ℕ → SchedulePushConsent → Emission
  run_finished : Run → SchedulePushConsent → Emission
  schedule_changed : Schedule → Emission
  schedule_removed : ℕ → Emission
  event_repeated : RunEventRow → Emission
  run_repeated : Run → SchedulePushConsent → Emission

-- What is asked of the session engine and of the workflow engine.
pub data Call : Type 0 where
  create_session : ℕ → ScheduleTarget → List ℕ → Call
  send : ℕ → List ℕ → Call
  run_workflow : ℕ → ℕ → ScheduleTarget → Option (List ℕ) → Option ℕ → Call
  terminate_session : ℕ → Call
  interrupt_session : ℕ → Reason → Call
  cancel_workflow : ℕ → Option Reason → Call

-- The options: whether there is an engine and a workflow engine, what `resolveCwd` returns or throws for a
-- project, where a transcript is, and what `Intl.DateTimeFormat` answers in a time zone or the default one.
pub record Options : Type 0 where
  pub engine : Bool
  pub workflows : Bool
  pub resolve_cwd : ℕ → Result (List ℕ) (List ℕ)
  pub transcript_path : ℕ → Option (List ℕ)
  pub format : Option (List ℕ) → ℕ → FormatParts

-- `timers` has the instant at which the timer of a schedule fires; `emitted` and `calls` have the
-- last one first.
pub record Engine : Type 0 where
  pub tenant_id : ℕ
  pub owner_id : ℕ
  pub lease_ms : ℕ
  pub options : Options
  pub started : Bool
  pub dispatch_only : Bool
  pub disposed : Bool
  pub timers : List (ℕ × ℕ)
  pub runtimes : List RunRuntime
  pub session_to_run : List (ℕ × ℕ)
  pub workflow_to_run : List (ℕ × ℕ)
  pub queues : List (ℕ × List ℕ)
  pub db : RunTables
  pub schedules : List Schedule
  pub next_run : ℕ
  pub emitted : List Emission
  pub calls : List Call
