-- ===== src/Scheduler/Events.antt =====
-- What can happen to the scheduler of packages/core/src/scheduler-engine.ts, each without anything else in
-- between: a list of events is an interleaving of calls, timers, awaits, and the claims of other owners. The
-- adoption of orphaned runs is not among them.
use agent_phonon.Base.{ℕ, Bool, true, false, List, [], ◌∷◌, Option}
use agent_phonon.Store.Runs.Rows.{RunStatus, ScheduleDispatch, RunTriggerSource, Reason, RunTables}
use agent_phonon.Store.Runs.{claim_run}
use agent_phonon.Scheduler.State.{Schedule, Engine, Options}
use agent_phonon.Scheduler.Resume.{
  session_created, workflow_launched, launch_threw, retry_due, timeout_due, cancel, StreamEvent,
  on_stream_event,
}
use agent_phonon.Scheduler.Flows.{WorkflowEvent, on_workflow_event}
use agent_phonon.Scheduler.Schedules.{ScheduleUpdate, update, delete_schedule}
use agent_phonon.Scheduler.Calls.{
  trigger_run, trigger_by_webhook, subscribe, unsubscribe, ack, stop, dispose, renew_run_leases,
  detach_dispatch_clock,
}
use agent_phonon.Scheduler.Requests.{RequestError}
use agent_phonon.Scheduler.Clock.{timer_due, on_cron_fire, cron_continues}
use agent_phonon.Scheduler.Replay.{replay_unacked, reconnect_schedule, resolve}
use agent_phonon.Scheduler.Restore.{restore_cron, ScheduleCreate, create}

-- A scheduler that was constructed and started, on what the store holds; it has no timers yet. The ids from
-- `first` on are new.
abbrev pub initial : Options → ℕ → ℕ → ℕ → Bool → RunTables → List Schedule → ℕ → Engine
initial options tenant owner lease_ms dispatch_only db schedules first = record {
  tenant_id = tenant;
  owner_id = owner;
  lease_ms = lease_ms;
  options = options;
  started = true;
  dispatch_only = dispatch_only;
  disposed = false;
  timers = [];
  runtimes = [];
  session_to_run = [];
  workflow_to_run = [];
  queues = [];
  db = db;
  schedules = schedules;
  next_run = first;
  emitted = [];
  calls = [];
}

pub data Event : Type 0 where
  triggers : ℕ → RunTriggerSource → Option (List ℕ) → Bool → Bool → List ℕ → ℕ → Event
  webhooks : List ℕ → Option (List ℕ) → Bool → Bool → List ℕ → ℕ → Event
  creates_session launches_workflow : ℕ → ℕ → Schedule → ℕ → Event
  throws : ℕ → ℕ → Reason → ℕ → Event
  retries : ℕ → ℕ → Event
  times_out : ℕ → ℕ → ℕ → Event
  cancels : ℕ → Reason → ℕ → Event
  streams : ℕ → StreamEvent → List ℕ → ℕ → Event
  flows : WorkflowEvent → ℕ → Event
  subscribes unsubscribes : ℕ → Event
  acks : ℕ → Option ℕ → Bool → Event
  updates : ℕ → ScheduleUpdate → List ℕ → ℕ → Event
  deletes : ℕ → ℕ → Event
  renews : ℕ → Event
  detaches disposes : Reason → ℕ → Event
  claims : ℕ → ℕ → ℕ → ℕ → Event
  fires : ℕ → Bool → Bool → List ℕ → ℕ → Event
  catches_up : ℕ → Bool → Bool → Bool → List ℕ → ℕ → Event
  continues : ℕ → Bool → ℕ → Option RequestError → Bool → Bool → List ℕ → ℕ → Event
  restores : Schedule → Bool → Bool → Bool → List ℕ → ℕ → Event
  replays stops : Event
  reconnects : Schedule → Bool → Bool → List ℕ → ℕ → Event
  resolves : ℕ → ScheduleDispatch → RunStatus → Option (List ℕ) → Reason → Bool → ℕ → Event
  creates : ScheduleCreate → ℕ → List ℕ → ℕ → Event

unfoldable pub step : Engine → Event → Engine
unfolding trigger_run trigger_by_webhook session_created workflow_launched launch_threw retry_due
    timeout_due cancel on_stream_event on_workflow_event subscribe unsubscribe ack update
    delete_schedule renew_run_leases detach_dispatch_clock dispose claim_run timer_due on_cron_fire
    cron_continues restore_cron create replay_unacked stop reconnect_schedule resolve
step e (triggers schedule source input admits allows fresh now) =
    (trigger_run e schedule source input admits allows fresh now).0
step e (webhooks token input admits allows fresh now) =
    (trigger_by_webhook e token input admits allows fresh now).0
step e (creates_session run session s now) = session_created e run session s now
step e (launches_workflow run workflow s now) = workflow_launched e run workflow s now
step e (throws run schedule error now) = launch_threw e run schedule error now
step e (retries run now) = retry_due e run now
step e (times_out run ms now) = timeout_due e run ms now
step e (cancels run reason now) = cancel e run reason now
step e (streams session event payload now) = on_stream_event e session event payload now
step e (flows event now) = on_workflow_event e event now
step e (subscribes run) = subscribe e run
step e (unsubscribes run) = unsubscribe e run
step e (acks run last finished) = ack e run last finished
step e (updates schedule given fresh now) = (update e schedule given fresh now).0
step e (deletes schedule now) = (delete_schedule e schedule now).0
step e (renews now) = renew_run_leases e now
step e (detaches reason now) = detach_dispatch_clock e reason now
step e (disposes reason now) = dispose e reason now
step e (claims run owner now lease_ms) = record e {
  db = (claim_run e.db run e.tenant_id owner now lease_ms).0;
}
step e (fires schedule admits allows fresh now) = (timer_due e schedule admits allows fresh now).0
step e (catches_up schedule down admits allows fresh now) =
    (on_cron_fire e schedule down admits allows fresh now).0
step e (continues schedule down next thrown admits allows fresh now) =
    (cron_continues e schedule down next thrown admits allows fresh now).0
step e (restores s live admits allows fresh now) = (restore_cron e s live admits allows fresh now).0
step e replays = replay_unacked e
step e stops = stop e
step e (reconnects s admits allows fresh now) = (reconnect_schedule e s admits allows fresh now).0
step e (resolves run d status text reason same_reason now) =
    (resolve e run d status text reason same_reason now).0
step e (creates params sid fresh now) = (create e params sid fresh now).0

unfoldable pub run_events : Engine → List Event → Engine
unfolding step
run_events e [] = e
run_events e (event ∷ events) = run_events (step e event) events
