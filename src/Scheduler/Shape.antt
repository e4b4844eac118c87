-- ===== src/Scheduler/Shape.antt =====
-- How packages/core/src/scheduler-engine.ts stores a run and what of it is pushed.
use agent_phonon.Base.{
  ℕ, ◌+◌, Bool, true, false, List, [], ◌∷◌, Option, none, some, if◌then◌else◌, ◌==◌,
}
use agent_phonon.Store.Runs.Rows.{
  RunStatus, pending, running, success, failed, timeout, cancelled, skipped, ScheduleDispatch,
  Reason, push_pending, RunRow,
}
use agent_phonon.Scheduler.State.{
  SchedulePushConsent, full, summary, status_only, RunRuntime, Run, Engine, Options,
}

-- `text || undefined`.
abbrev pub non_empty : List ℕ → Option (List ℕ)
non_empty [] = none
non_empty (c ∷ text) = some (c ∷ text)

-- `t ? new Date(t).toISOString() : undefined`.
abbrev pub instant : Option ℕ → Option ℕ
instant none = none
instant (some t) = if t == 0 then none else some t

abbrev pub transcript_of : Options → Option ℕ → Option (List ℕ)
transcript_of options none = none
transcript_of options (some session) = options.transcript_path session

abbrev pub is_some {ℓ} : {A : Type ℓ} → Option A → Bool
is_some none = false
is_some (some a) = true

unfoldable pub runtime_record : Engine → RunRuntime → Option Reason → Option Reason → ℕ → RunRow
runtime_record e rt exit_reason error now = record {
  id = rt.run_id;
  schedule_id = rt.schedule_id;
  tenant_id = e.tenant_id;
  trigger_source = rt.trigger_source;
  status = rt.status;
  session_id = rt.session_id;
  workflow_id = rt.workflow_id;
  started_at = instant rt.started_at;
  finished_at = none;
  exit_reason = exit_reason;
  error = error;
  transcript_path = transcript_of e.options rt.session_id;
  result_text = non_empty rt.result_text;
  usage = none;
  push_state = push_pending;
  acked = rt.acked;
  created_at = rt.created_at;
  attempt = rt.attempt;
  max_attempts = rt.max_attempts;
  retry_history = rt.retry_history;
  input = rt.input;
  phase = some rt.phase;
  retry_at = rt.retry_at;
  owner_id = some e.owner_id;
  owner_epoch = rt.owner_epoch;
  lease_until = some (now + e.lease_ms);
  event_seq = rt.seq;
  dispatch = rt.dispatch;
}

-- The error is the reason where the status is a failure or a timeout.
abbrev pub error_of : RunStatus → Option Reason → Option Reason
error_of failed reason = reason
error_of timeout reason = reason
error_of pending reason = none
error_of running reason = none
error_of success reason = none
error_of cancelled reason = none
error_of skipped reason = none

-- The row that `finishRun` writes: it has no time of a retry.
unfoldable pub finished_record :
    Engine → RunRuntime → RunStatus → Option Reason → Option (List ℕ) → ℕ → RunRow
unfolding runtime_record
finished_record e rt status exit_reason usage now =
    record (runtime_record e rt exit_reason (error_of status exit_reason) now) {
      status = status;
      finished_at = some now;
      usage = usage;
      retry_at = none;
    }

abbrev pub dispatch_input : Option ScheduleDispatch → Option (List ℕ) → Option (List ℕ)
dispatch_input none input = none
dispatch_input (some d) input = input

unfoldable pub runtime_to_run : Engine → RunRuntime → Run
runtime_to_run e rt = record {
  id = rt.run_id;
  schedule_id = rt.schedule_id;
  tenant_id = e.tenant_id;
  trigger_source = rt.trigger_source;
  status = rt.status;
  controller_dispatch = is_some rt.dispatch;
  dispatch = rt.dispatch;
  input = dispatch_input rt.dispatch rt.input;
  session_id = rt.session_id;
  workflow_id = rt.workflow_id;
  started_at = instant rt.started_at;
  finished_at = none;
  exit_reason = none;
  error = none;
  transcript_path = transcript_of e.options rt.session_id;
  result_text = non_empty rt.result_text;
  usage = none;
  attempt = some rt.attempt;
  max_attempts = some rt.max_attempts;
  retry_history = some rt.retry_history;
}

-- `runtimeToRun` with the patch of `finishRun`.
unfoldable pub finished_run :
    Engine → RunRuntime → RunStatus → Option Reason → Option (List ℕ) → ℕ → Run
unfolding runtime_to_run
finished_run e rt status exit_reason usage now = record (runtime_to_run e rt) {
  status = status;
  finished_at = some now;
  exit_reason = exit_reason;
  error = error_of status exit_reason;
  usage = usage;
}

abbrev pub is_full : SchedulePushConsent → Bool
is_full full = true
is_full summary = false
is_full status_only = false

unfoldable pub shape_run_for_push : Run → SchedulePushConsent → Run
shape_run_for_push run full = run
shape_run_for_push run summary = record run { transcript_path = none; input = none }
shape_run_for_push run status_only = record {
  id = run.id;
  schedule_id = run.schedule_id;
  tenant_id = run.tenant_id;
  trigger_source = run.trigger_source;
  status = run.status;
  controller_dispatch = run.controller_dispatch;
  dispatch = none;
  input = none;
  session_id = none;
  workflow_id = none;
  started_at = run.started_at;
  finished_at = run.finished_at;
  exit_reason = none;
  error = none;
  transcript_path = none;
  result_text = none;
  usage = none;
  attempt = none;
  max_attempts = none;
  retry_history = none;
}
