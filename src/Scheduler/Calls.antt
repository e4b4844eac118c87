-- ===== src/Scheduler/Calls.antt =====
-- The calls on runs, and the ends of a scheduler's life, of packages/core/src/scheduler-engine.ts. Whether
-- the store admits new work and whether the policy allows the run are arguments.
use agent_phonon.Base.{
  ℕ, min, max, Bool, true, false, not, ◌&&◌, ◌||◌, List, [], ◌∷◌, Option, none, some, if◌then◌else◌,
  ◌==◌,
}
use agent_phonon.Js.Text.{text_eq}
use agent_phonon.Store.Runs.Rows.{
  failed, cancelled, RunTriggerSource, webhook, Reason, queued_cancelled,
}
use agent_phonon.Store.Runs.{ack_tables, is_terminal}
use agent_phonon.Scheduler.State.{
  ScheduleTrigger, cron_trigger, webhook_trigger, manual_trigger, Schedule, RunRuntime, Engine,
}
use agent_phonon.Scheduler.Tables.{
  is_queued, is_retrying, find_runtime, delete_runtime, find_schedule,
}
use agent_phonon.Scheduler.Shape.{is_some}
use agent_phonon.Scheduler.Finish.{
  assert_run_owner, finish_core, cancel_execution, detach_mappings, remove_from_queue, release,
}
use agent_phonon.Scheduler.Launch.{change_runtime, is_dispatch}
use agent_phonon.Scheduler.Shape.{is_full}
use agent_phonon.Scheduler.Requests.{
  RequestError, not_found, disposed_scheduler, controller_disconnected, dispatch_expired,
  new_work_refused, run_not_allowed, disabled_schedule, expired, admit_run,
}
use agent_phonon.Scheduler.Schedules.{set_enabled}

-- `launchRun`, to its first await; `cursor` is `cronNextRunAt`.
unfoldable pub launch_run :
    Engine
    → Schedule
    → RunTriggerSource
    → Option (List ℕ)
    → Option ℕ
    → Bool
    → Bool
    → List ℕ
    → ℕ
    → Engine × Option RequestError
unfolding set_enabled admit_run
launch_run e s source input cursor admits allows fresh now =
    if e.disposed
    then (e, some disposed_scheduler)
    else if e.dispatch_only && not (is_dispatch s.target.run_kind)
    then (e, some controller_disconnected)
    else if expired s.target.dispatch now
    then ((set_enabled e s.sid false fresh now).0, some dispatch_expired)
    else if not admits
    then (e, some new_work_refused)
    else if not allows
    then (e, some run_not_allowed)
    else admit_run e s source input cursor now

unfoldable pub trigger_found :
    Engine
    → Option Schedule
    → RunTriggerSource
    → Option (List ℕ)
    → Bool
    → Bool
    → List ℕ
    → ℕ
    → Engine × Option RequestError
unfolding launch_run
trigger_found e none source input admits allows fresh now = (e, some not_found)
trigger_found e (some s) source input admits allows fresh now =
    if s.enabled
    then launch_run e s source input none admits allows fresh now
    else (e, some disabled_schedule)

-- `trigger`.
unfoldable pub trigger_run :
    Engine
    → ℕ
    → RunTriggerSource
    → Option (List ℕ)
    → Bool
    → Bool
    → List ℕ
    → ℕ
    → Engine × Option RequestError
unfolding trigger_found find_schedule
trigger_run e schedule source input admits allows fresh now =
    trigger_found e (find_schedule e.schedules schedule e.tenant_id) source input admits allows
      fresh now

abbrev pub has_token : ScheduleTrigger → List ℕ → Bool
has_token (cron_trigger expr tz) token = false
has_token (webhook_trigger none) token = false
has_token (webhook_trigger (some own)) token = text_eq own token
has_token manual_trigger token = false

-- `getScheduleByWebhookToken`; the column is the token of a webhook's trigger.
unfoldable pub schedule_by_token : List Schedule → List ℕ → ℕ → Option Schedule
schedule_by_token [] token tenant = none
schedule_by_token (s ∷ schedules) token tenant =
    if has_token s.trigger token
    then (if s.tenant == tenant then some s else none)
    else schedule_by_token schedules token tenant

unfoldable pub trigger_by_webhook :
    Engine → List ℕ → Option (List ℕ) → Bool → Bool → List ℕ → ℕ → Engine × Option RequestError
unfolding trigger_found schedule_by_token
trigger_by_webhook e token input admits allows fresh now =
    trigger_found e (schedule_by_token e.schedules token e.tenant_id) webhook input admits allows
      fresh now

unfoldable pub subscribe_for : Engine → Option RunRuntime → Engine
unfolding change_runtime
subscribe_for e none = e
subscribe_for e (some rt) =
    if is_full rt.consent then change_runtime e (record rt { subscribed = true }) else e

-- `subscribe`, as far as the state goes.
unfoldable pub subscribe : Engine → ℕ → Engine
unfolding find_runtime subscribe_for
subscribe e run = subscribe_for e (find_runtime e.runtimes run)

unfoldable pub unsubscribe_for : Engine → Option RunRuntime → Engine
unfolding change_runtime
unsubscribe_for e none = e
unsubscribe_for e (some rt) = change_runtime e (record rt { subscribed = false })

unfoldable pub unsubscribe : Engine → ℕ → Engine
unfolding find_runtime unsubscribe_for
unsubscribe e run = unsubscribe_for e (find_runtime e.runtimes run)

-- `Math.max(rt.ackedSeq, Math.min(opts.lastSeq, rt.seq - 1))`, each number one more.
abbrev pub acked_runtime : RunRuntime → Option ℕ → RunRuntime
acked_runtime rt none = rt
acked_runtime rt (some last) = record rt { acked = max rt.acked (min last rt.seq) }

unfoldable pub ack_for : Engine → Option RunRuntime → Option ℕ → Engine
unfolding change_runtime
ack_for e none last = e
ack_for e (some rt) last = change_runtime e (acked_runtime rt last)

-- `ack`; `last` is `lastSeq` plus one.
unfoldable pub ack : Engine → ℕ → Option ℕ → Bool → Engine
unfolding ack_tables find_runtime ack_for
ack e run last finished =
    ack_for (record e { db = (ack_tables e.db run e.tenant_id last finished).0 })
      (find_runtime e.runtimes run) last

-- `retireRuntime`.
unfoldable pub retire_runtime : Engine → RunRuntime → Reason → ℕ → Engine
unfolding release finish_core cancel_execution detach_mappings remove_from_queue delete_runtime
retire_runtime e rt reason now =
    let queued = is_queued rt.phase in
    let (ended, _) =
      finish_core e rt.run_id (if queued then cancelled else failed)
        (some (if queued then queued_cancelled reason else reason)) none false now in
    let left =
      if (is_some rt.dispatch || is_some rt.workflow_id || is_retrying rt.phase)
        && not (is_terminal rt.status)
      then release e rt
      else if queued
      then ended
      else cancel_execution ended rt reason in
    let detached = remove_from_queue (detach_mappings left rt) rt in
    record detached { runtimes = delete_runtime detached.runtimes rt.run_id }

unfoldable pub retire_all : Engine → List RunRuntime → Reason → ℕ → Engine
unfolding retire_runtime
retire_all e [] reason now = e
retire_all e (rt ∷ runtimes) reason now =
    retire_all (retire_runtime e rt reason now) runtimes reason now

-- `stop`, without the timers of the runtimes.
unfoldable pub stop : Engine → Engine
stop e = record e { started = false; timers = [] }

unfoldable pub dispose : Engine → Reason → ℕ → Engine
unfolding stop retire_all
dispose e reason now =
    let stopped = stop (record e { disposed = true }) in
    let retired = retire_all stopped stopped.runtimes reason now in
    if e.disposed
    then e
    else record retired { queues = []; runtimes = []; session_to_run = []; workflow_to_run = [] }

unfoldable pub renew_lease : Engine → RunRuntime → ℕ → Engine
unfolding assert_run_owner
renew_lease e rt now = if is_terminal rt.status then e else (assert_run_owner e rt now).0

unfoldable pub renew_leases : Engine → List RunRuntime → ℕ → Engine
unfolding renew_lease
renew_leases e [] now = e
renew_leases e (rt ∷ runtimes) now = renew_leases (renew_lease e rt now) runtimes now

-- `renewRunLeases`, over the map as it is at the start.
unfoldable pub renew_run_leases : Engine → ℕ → Engine
unfolding renew_leases
renew_run_leases e now = if e.disposed then e else renew_leases e e.runtimes now

unfoldable pub retire_execution : Engine → RunRuntime → Reason → ℕ → Engine
unfolding retire_runtime
retire_execution e rt reason now = if is_some rt.dispatch then e else retire_runtime e rt reason now

-- The runtimes that are not dispatches go when only the clock is left.
unfoldable pub retire_executions : Engine → List RunRuntime → Reason → ℕ → Engine
unfolding retire_execution
retire_executions e [] reason now = e
retire_executions e (rt ∷ runtimes) reason now =
    retire_executions (retire_execution e rt reason now) runtimes reason now

abbrev pub keeps_timer : Option Schedule → Bool
keeps_timer none = false
keeps_timer (some s) = is_dispatch s.target.run_kind

unfoldable pub dispatch_timers : List (ℕ × ℕ) → List Schedule → ℕ → List (ℕ × ℕ)
unfolding find_schedule
dispatch_timers [] schedules tenant = []
dispatch_timers ((s, at) ∷ timers) schedules tenant =
    let rest = dispatch_timers timers schedules tenant in
    if keeps_timer (find_schedule schedules s tenant) then (s, at) ∷ rest else rest

unfoldable pub detach_dispatch_clock : Engine → Reason → ℕ → Engine
unfolding dispatch_timers retire_executions
detach_dispatch_clock e reason now =
    let clock = record e {
      dispatch_only = true;
      timers = dispatch_timers e.timers e.schedules e.tenant_id;
    } in
    if e.disposed || e.dispatch_only then e else retire_executions clock clock.runtimes reason now
