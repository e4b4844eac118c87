-- ===== src/Scheduler/Replay.antt =====
-- `replayUnacked`, `transportReconnected` and `resolve` of packages/core/src/scheduler-engine.ts. What the store
-- has as JSON text can be parsed.
use agent_phonon.Base.{
  ℕ, Bool, true, false, not, ◌&&◌, List, [], ◌∷◌, Option, none, some, if◌then◌else◌, ◌==◌, leb,
}
use agent_phonon.Js.Text.{text_eq}
use agent_phonon.Store.Runs.Rows.{
  RunStatus, pending, running, success, failed, timeout, cancelled, skipped, Reason, RunRow,
  RunEventRow, ScheduleDispatch,
}
use agent_phonon.Store.Runs.{get_run, is_terminal, unacked_run_events, list_unacked_finished_runs}
use agent_phonon.Scheduler.State.{
  SchedulePushConsent, summary, Schedule, RunRuntime, Run, Engine, event_repeated, run_repeated,
}
use agent_phonon.Scheduler.Tables.{is_queued, find_runtime, find_schedule}
use agent_phonon.Scheduler.Shape.{is_some, dispatch_input, shape_run_for_push}
use agent_phonon.Scheduler.Finish.{safe_emit, assert_run_owner}
use agent_phonon.Scheduler.Launch.{change_runtime, is_dispatch, same_dispatch}
use agent_phonon.Scheduler.Resume.{finish_run}
use agent_phonon.Scheduler.Triggers.{is_cron, disarm}
use agent_phonon.Scheduler.Requests.{
  RequestError, not_found, identity_mismatch, different_outcome, owner_not_ready, not_handed_off,
}
use agent_phonon.Scheduler.Clock.{Firing, over, on_cron_fire}

-- `rowToRun`.
unfoldable pub row_to_run : RunRow → Run
row_to_run r = record {
  id = r.id;
  schedule_id = r.schedule_id;
  tenant_id = r.tenant_id;
  trigger_source = r.trigger_source;
  status = r.status;
  controller_dispatch = is_some r.dispatch;
  dispatch = r.dispatch;
  input = dispatch_input r.dispatch r.input;
  session_id = r.session_id;
  workflow_id = r.workflow_id;
  started_at = r.started_at;
  finished_at = r.finished_at;
  exit_reason = r.exit_reason;
  error = r.error;
  transcript_path = r.transcript_path;
  result_text = r.result_text;
  usage = r.usage;
  attempt = some r.attempt;
  max_attempts = some r.max_attempts;
  retry_history = some r.retry_history;
}

-- `sched ? this.rowToSchedule(sched).consent.push : "summary"`.
abbrev pub push_or_summary : Option Schedule → SchedulePushConsent
push_or_summary none = summary
push_or_summary (some s) = s.push

unfoldable pub repeat_run : Engine → RunRow → Engine
unfolding row_to_run find_schedule shape_run_for_push safe_emit
repeat_run e r =
    let consent = push_or_summary (find_schedule e.schedules r.schedule_id e.tenant_id) in
    safe_emit e (run_repeated (shape_run_for_push (row_to_run r) consent) consent)

unfoldable pub repeat_runs : Engine → List RunRow → Engine
unfolding repeat_run
repeat_runs e [] = e
repeat_runs e (r ∷ rows) = repeat_runs (repeat_run e r) rows

unfoldable pub repeat_events : Engine → List RunEventRow → Engine
unfolding safe_emit
repeat_events e [] = e
repeat_events e (row ∷ rows) = repeat_events (safe_emit e (event_repeated row)) rows

-- `replayUnacked`.
unfoldable pub replay_unacked : Engine → Engine
unfolding repeat_events repeat_runs unacked_run_events list_unacked_finished_runs
replay_unacked e =
    let told = repeat_events e (unacked_run_events e.db.runs e.db.run_events e.tenant_id) in
    repeat_runs told (list_unacked_finished_runs told.db.runs told.tenant_id)

abbrev pub is_due : Option ℕ → ℕ → Bool
is_due none now = false
is_due (some at) now = leb at now

-- A round of the loop of `transportReconnected`, to its await, for a schedule of the list.
unfoldable pub reconnect_schedule : Engine → Schedule → Bool → Bool → List ℕ → ℕ → Engine × Firing
unfolding disarm on_cron_fire
reconnect_schedule e s admits allows fresh now =
    if s.enabled && is_cron s.trigger && is_dispatch s.target.run_kind && is_due s.next_run_at now
    then on_cron_fire (disarm e s.sid) s.sid false admits allows fresh now
    else (e, over)

-- `run.status !== params.status` compares texts.
abbrev pub status_number : RunStatus → ℕ
status_number pending = 0
status_number running = 1
status_number success = 2
status_number failed = 3
status_number timeout = 4
status_number cancelled = 5
status_number skipped = 6

abbrev pub text_or_empty : Option (List ℕ) → List ℕ
text_or_empty none = []
text_or_empty (some text) = text

-- `["cancelled", "skipped"].includes(params.status)`.
abbrev pub gives_up : RunStatus → Bool
gives_up pending = false
gives_up running = false
gives_up success = false
gives_up failed = false
gives_up timeout = false
gives_up cancelled = true
gives_up skipped = true

abbrev pub same_binding : Option ScheduleDispatch → ScheduleDispatch → Bool
same_binding none d = false
same_binding (some binding) d = same_dispatch binding d

unfoldable pub resolve_owned :
    Engine × Bool
    → RunRuntime
    → RunStatus
    → Option (List ℕ)
    → Reason
    → ℕ
    → Engine × Option RequestError
unfolding change_runtime finish_run
resolve_owned (e, false) rt status text reason now = (e, some owner_not_ready)
resolve_owned (e, true) rt status text reason now =
    let told = record rt { result_text = text_or_empty text } in
    if is_queued rt.phase && not (gives_up status)
    then (e, some not_handed_off)
    else (finish_run (change_runtime e told) told status (some reason) none now, none)

unfoldable pub resolve_runtime :
    Engine
    → Option RunRuntime
    → RunStatus
    → Option (List ℕ)
    → Reason
    → ℕ
    → Engine × Option RequestError
unfolding resolve_owned assert_run_owner
resolve_runtime e none status text reason now = (e, some owner_not_ready)
resolve_runtime e (some rt) status text reason now =
    resolve_owned (assert_run_owner e rt now) rt status text reason now

-- `reason` is `params.error ?? params.status`; whether its text is the exit reason of a run that has ended is an
-- argument.
unfoldable pub resolve_found :
    Engine
    → Option RunRow
    → ScheduleDispatch
    → RunStatus
    → Option (List ℕ)
    → Reason
    → Bool
    → ℕ
    → Engine × Option RequestError
unfolding resolve_runtime find_runtime
resolve_found e none d status text reason same_reason now = (e, some not_found)
resolve_found e (some r) d status text reason same_reason now =
    let same =
      status_number r.status == status_number status
      && text_eq (text_or_empty r.result_text) (text_or_empty text)
      && same_reason in
    if not (same_binding r.dispatch d)
    then (e, some identity_mismatch)
    else if is_terminal r.status
    then (e, if same then none else some different_outcome)
    else resolve_runtime e (find_runtime e.runtimes r.id) status text reason now

-- `resolve`.
unfoldable pub resolve :
    Engine
    → ℕ
    → ScheduleDispatch
    → RunStatus
    → Option (List ℕ)
    → Reason
    → Bool
    → ℕ
    → Engine × Option RequestError
unfolding resolve_found get_run
resolve e run d status text reason same_reason now =
    resolve_found e (get_run e.db run e.tenant_id) d status text reason same_reason now
