-- ===== src/Scheduler/Once.antt =====
-- How often packages/core/src/scheduler-engine.ts announces the end of a run, and how often it attempts one.
use agent_phonon.Base.{ℕ, ◌≤◌, refl, Bool, List, [], ◌∷◌, arith}
use agent_phonon.Store.Runs.Rows.{RunTables, webhook}
use agent_phonon.Scheduler.State.{Schedule, Options, Engine}
use agent_phonon.Scheduler.Calls.{stop, trigger_run, trigger_by_webhook}
use agent_phonon.Scheduler.Events.{
  initial, step, run_events, Event, triggers, webhooks, creates_session, launches_workflow, throws,
  retries, times_out, cancels, streams, flows, subscribes, unsubscribes, acks, updates, deletes,
  renews, detaches, disposes, claims, fires, catches_up, continues, restores, replays, stops,
  reconnects, resolves, creates,
}
use agent_phonon.Scheduler.Counts.{finished, all_discreet, alive, bounded}
use agent_phonon.Scheduler.Outside.{
  session_created-Keeps, workflow_launched-Keeps, launch_threw-Keeps, retry_due-Keeps,
  timeout_due-Keeps, cancel-Keeps,
}
use agent_phonon.Scheduler.Streams.{on_stream_event-Keeps, on_workflow_event-Keeps}
use agent_phonon.Scheduler.Teardown.{update-Keeps, delete_schedule-Keeps}
use agent_phonon.Scheduler.Disposal.{
  dispose-Keeps, renew_run_leases-Keeps, detach_dispatch_clock-Keeps, subscribe-Keeps,
  unsubscribe-Keeps, ack-Keeps,
}
use agent_phonon.Scheduler.Admitted.{IsAccounted, Keeps-IsAccounted, trigger_found-IsAccounted}
use agent_phonon.Scheduler.Limits.{Counts}
use agent_phonon.Scheduler.Clock.{on_cron_fire}
use agent_phonon.Scheduler.Cursor.{Moves, on_cron_fire-Moves}
use agent_phonon.Scheduler.Repeats.{
  replay_unacked-Keeps, reconnect_schedule-IsAccounted, resolve-Keeps,
}
use agent_phonon.Scheduler.Ticks.{
  on_cron_fire-IsAccounted, timer_due-IsAccounted, cron_continues-IsAccounted,
  restore_cron-IsAccounted, create-Keeps,
}

step-IsAccounted : (e : Engine) (event : Event) → IsAccounted e → IsAccounted (step e event)
unfolding step trigger_run trigger_by_webhook stop
step-IsAccounted e (triggers schedule source input admits allows fresh now) a =
    trigger_found-IsAccounted e _ source input admits allows fresh now a
step-IsAccounted e (webhooks token input admits allows fresh now) a =
    trigger_found-IsAccounted e _ webhook input admits allows fresh now a
step-IsAccounted e (creates_session run session s now) a =
    Keeps-IsAccounted (session_created-Keeps e run session s now a.bounds) a
step-IsAccounted e (launches_workflow run workflow s now) a =
    Keeps-IsAccounted (workflow_launched-Keeps e run workflow s now a.bounds) a
step-IsAccounted e (throws run schedule error now) a =
    Keeps-IsAccounted (launch_threw-Keeps e run schedule error now a.bounds) a
step-IsAccounted e (retries run now) a = Keeps-IsAccounted (retry_due-Keeps e run now a.bounds) a
step-IsAccounted e (times_out run ms now) a =
    Keeps-IsAccounted (timeout_due-Keeps e run ms now a.bounds) a
step-IsAccounted e (cancels run reason now) a =
    Keeps-IsAccounted (cancel-Keeps e run reason now a.bounds) a
step-IsAccounted e (streams session event payload now) a =
    Keeps-IsAccounted (on_stream_event-Keeps e session event payload now a.bounds) a
step-IsAccounted e (flows event now) a =
    Keeps-IsAccounted (on_workflow_event-Keeps e event now a.bounds) a
step-IsAccounted e (subscribes run) a = Keeps-IsAccounted (subscribe-Keeps e run a.bounds) a
step-IsAccounted e (unsubscribes run) a = Keeps-IsAccounted (unsubscribe-Keeps e run a.bounds) a
step-IsAccounted e (acks run last finished) a =
    Keeps-IsAccounted (ack-Keeps e run last finished a.bounds) a
step-IsAccounted e (updates schedule given fresh now) a =
    Keeps-IsAccounted (update-Keeps e schedule given fresh now a.bounds) a
step-IsAccounted e (deletes schedule now) a =
    Keeps-IsAccounted (delete_schedule-Keeps e schedule now a.bounds) a
step-IsAccounted e (renews now) a = Keeps-IsAccounted (renew_run_leases-Keeps e now a.bounds) a
step-IsAccounted e (detaches reason now) a =
    Keeps-IsAccounted (detach_dispatch_clock-Keeps e reason now a.bounds) a
step-IsAccounted e (disposes reason now) a =
    Keeps-IsAccounted (dispose-Keeps e reason now a.bounds) a
step-IsAccounted e (claims run owner now lease_ms) a = record {
  total = a.total;
  bounds = a.bounds;
  private = a.private;
}
step-IsAccounted e (fires schedule admits allows fresh now) a =
    timer_due-IsAccounted e schedule admits allows fresh now a
step-IsAccounted e (catches_up schedule down admits allows fresh now) a =
    on_cron_fire-IsAccounted e schedule down admits allows fresh now a
step-IsAccounted e (continues schedule down next thrown admits allows fresh now) a =
    cron_continues-IsAccounted e schedule down next thrown admits allows fresh now a
step-IsAccounted e (restores s live admits allows fresh now) a =
    restore_cron-IsAccounted e s live admits allows fresh now a
step-IsAccounted e replays a = Keeps-IsAccounted (replay_unacked-Keeps e a.bounds) a
step-IsAccounted e stops a = record { total = a.total; bounds = a.bounds; private = a.private }
step-IsAccounted e (reconnects s admits allows fresh now) a =
    reconnect_schedule-IsAccounted e s admits allows fresh now a
step-IsAccounted e (resolves run d status text reason same_reason now) a =
    Keeps-IsAccounted (resolve-Keeps e run d status text reason same_reason now a.bounds) a
step-IsAccounted e (creates params sid fresh now) a =
    Keeps-IsAccounted (create-Keeps e params sid fresh now a.bounds) a

run_events-IsAccounted :
    (e : Engine) (events : List Event) → IsAccounted e → IsAccounted (run_events e events)
unfolding run_events
run_events-IsAccounted e [] a = a
run_events-IsAccounted e (event ∷ events) a =
    run_events-IsAccounted (step e event) events (step-IsAccounted e event a)

initial-IsAccounted :
    (options : Options) (tenant owner lease_ms : ℕ) (dispatch_only : Bool) (db : RunTables)
    (schedules : List Schedule) (first : ℕ)
    → IsAccounted (initial options tenant owner lease_ms dispatch_only db schedules first)
unfolding finished alive bounded all_discreet
initial-IsAccounted options tenant owner lease_ms dispatch_only db schedules first = record {
  total = λ id. ground arith;
  bounds = refl;
  private = refl;
}

-- Through any calls, timers, firings of the clock, ends of awaits, events and claims of other owners, in any
-- order, a new scheduler that adopts no orphaned runs announces the end of a run at most once, the repeats of
-- `replayUnacked` aside, which sends what is not acknowledged again.
pub run_events-finished :
    (options : Options) (tenant owner lease_ms : ℕ) (dispatch_only : Bool) (db : RunTables)
    (schedules : List Schedule) (first : ℕ) (events : List Event) (id : ℕ)
    → finished
        (run_events
          (initial options tenant owner lease_ms dispatch_only db schedules first)
          events).emitted
        id
      ≤ 1
run_events-finished options tenant owner lease_ms dispatch_only db schedules first events id =
    let a =
      run_events-IsAccounted
        (initial options tenant owner lease_ms dispatch_only db schedules first) events
        (initial-IsAccounted options tenant owner lease_ms dispatch_only db schedules first) in
    ground (arith, a.total id)

-- After any such events, a round of the clock gives out at most one run. It gives out exactly one where it
-- awaits `launchRun` with nothing thrown: then the schedule was there, enabled, and due within a second or
-- without a cursor; the next occurrence is a whole minute, later than the instant it was looked for after (the
-- cursor, for a dispatch of a process that is up, and else the current time); and it is the schedule's new cursor.
pub run_events-Moves :
    (options : Options) (tenant owner lease_ms : ℕ) (dispatch_only : Bool) (db : RunTables)
    (schedules : List Schedule) (first : ℕ) (events : List Event) (schedule : ℕ)
    (down admits allows : Bool) (fresh : List ℕ) (now : ℕ)
    → let e =
        run_events
          (initial options tenant owner lease_ms dispatch_only db schedules first)
          events in
      Moves e schedule down now (on_cron_fire e schedule down admits allows fresh now)
run_events-Moves options tenant owner lease_ms dispatch_only db schedules first events schedule down
      admits allows fresh now =
    let a =
      run_events-IsAccounted
        (initial options tenant owner lease_ms dispatch_only db schedules first) events
        (initial-IsAccounted options tenant owner lease_ms dispatch_only db schedules first) in
    on_cron_fire-Moves _ schedule down admits allows fresh now a.bounds
