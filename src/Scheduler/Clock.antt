-- ===== src/Scheduler/Clock.antt =====
-- The cron clock of packages/core/src/scheduler-engine.ts. Whether the store admits new work and whether the
-- policy allows the run are arguments.
use agent_phonon.Base.{
  ℕ, ◌-◌, Bool, true, false, not, ◌&&◌, ◌||◌, List, Option, none, some, if◌then◌else◌, ltb,
}
use agent_phonon.Store.Runs.Rows.{cron}
use agent_phonon.Scheduler.State.{Schedule, Engine, schedule_changed}
use agent_phonon.Scheduler.Tables.{find_schedule, delete}
use agent_phonon.Scheduler.Finish.{safe_emit}
use agent_phonon.Scheduler.Launch.{is_dispatch}
use agent_phonon.Scheduler.Schedules.{given}
use agent_phonon.Scheduler.Triggers.{
  upsert_schedule, mask_schedule, compute_next_run, is_cron, arm_cron,
}
use agent_phonon.Scheduler.Requests.{
  RequestError, not_found, disposed_scheduler, controller_disconnected, dispatch_expired,
  new_work_refused, run_not_allowed, disabled_schedule, identity_mismatch, different_outcome,
  owner_not_ready, not_handed_off, full_consent_required, not_accepted,
}
use agent_phonon.Scheduler.Calls.{launch_run}

-- Where a firing of the clock is left: it is over, or it awaits `launchRun` with the next occurrence that it
-- computed, and what `launchRun` throws there, if anything.
pub data Firing : Type 0 where
  over : Firing
  awaits : ℕ → Option RequestError → Firing

-- `Date.parse(schedule.nextRunAt) - this.now() > 1000`.
abbrev pub is_early : Option ℕ → ℕ → Bool
is_early none now = false
is_early (some at) now = ltb 1000 (at - now)

abbrev pub live_dispatch : Schedule → Bool → Bool
live_dispatch s down = is_dispatch s.target.run_kind && not down

-- The instant after which the next occurrence is looked for.
unfoldable pub cron_base : Schedule → Bool → ℕ → ℕ
cron_base s down now = if live_dispatch s down then given s.next_run_at now else now

unfoldable pub launch_awaited : ℕ → Engine × Option RequestError → Engine × Firing
launch_awaited next (e, thrown) = (e, awaits next thrown)

unfoldable pub fire_at : Engine → Schedule → Option ℕ → Bool → Bool → List ℕ → ℕ → Engine × Firing
unfolding launch_run launch_awaited
fire_at e s none admits allows fresh now = (e, over)
fire_at e s (some next) admits allows fresh now =
    launch_awaited next (launch_run e s cron none (some next) admits allows fresh now)

unfoldable pub fire_found :
    Engine → Option Schedule → Bool → Bool → Bool → List ℕ → ℕ → Engine × Firing
unfolding arm_cron compute_next_run cron_base fire_at
fire_found e none down admits allows fresh now = (e, over)
fire_found e (some s) down admits allows fresh now =
    if not s.enabled || not (is_cron s.trigger)
    then (e, over)
    else if e.dispatch_only && not (is_dispatch s.target.run_kind)
    then (e, over)
    else if is_early s.next_run_at now
    then (arm_cron e s now, over)
    else fire_at e s (compute_next_run e.options s.trigger (cron_base s down now)) admits allows
        fresh now

-- One round of `onCronFire`, to its await.
unfoldable pub on_cron_fire : Engine → ℕ → Bool → Bool → Bool → List ℕ → ℕ → Engine × Firing
unfolding find_schedule fire_found
on_cron_fire e schedule down admits allows fresh now =
    if e.started && not e.disposed
    then fire_found e (find_schedule e.schedules schedule e.tenant_id) down admits allows fresh now
    else (e, over)

-- The timer of `armCron`.
unfoldable pub timer_due : Engine → ℕ → Bool → Bool → List ℕ → ℕ → Engine × Firing
unfolding delete on_cron_fire
timer_due e schedule admits allows fresh now =
    on_cron_fire (record e { timers = delete e.timers schedule }) schedule false admits allows fresh
      now

-- `error instanceof PhononError && error.appCode === "errPolicyDenied"`, of what `launchRun` throws.
abbrev pub is_denied : RequestError → Bool
is_denied not_found = false
is_denied disposed_scheduler = false
is_denied controller_disconnected = true
is_denied dispatch_expired = true
is_denied new_work_refused = false
is_denied run_not_allowed = true
is_denied disabled_schedule = false
is_denied identity_mismatch = false
is_denied different_outcome = false
is_denied owner_not_ready = false
is_denied not_handed_off = false
is_denied full_consent_required = false
is_denied not_accepted = false

unfoldable pub persist_schedule : Engine → Schedule → Engine
unfolding upsert_schedule
persist_schedule e s = record e { schedules = upsert_schedule e.schedules s }

-- A run that was denied moves the cursor all the same.
unfoldable pub skip_occurrence : Engine → Option Schedule → ℕ → Engine
unfolding persist_schedule
skip_occurrence e none next = e
skip_occurrence e (some s) next =
    if s.enabled then persist_schedule e (record s { next_run_at = some next }) else e

-- The handler of what was thrown, and whether it comes to its end.
unfoldable pub cron_caught : Engine → ℕ → ℕ → Option RequestError → Engine × Bool
unfolding skip_occurrence find_schedule
cron_caught e schedule next none = (e, true)
cron_caught e schedule next (some thrown) =
    if e.started && not e.disposed && is_denied thrown
    then (skip_occurrence e (find_schedule e.schedules schedule e.tenant_id) next, true)
    else (e, false)

-- `!updated.nextRunAt || Date.parse(updated.nextRunAt) > this.now()`.
abbrev pub is_ahead : Option ℕ → ℕ → Bool
is_ahead none now = true
is_ahead (some at) now = ltb now at

-- The end of a round, and whether there is another.
unfoldable pub after_round : Engine → Option Schedule → Bool → ℕ → Engine × Bool
unfolding safe_emit mask_schedule arm_cron
after_round e none down now = (e, false)
after_round e (some s) down now =
    let told = safe_emit e (schedule_changed (mask_schedule s)) in
    if not s.enabled
    then (told, false)
    else if not (live_dispatch s down) || is_ahead s.next_run_at now
    then (arm_cron told s now, false)
    else (told, true)

unfoldable pub end_round : Engine × Bool → ℕ → Bool → ℕ → Engine × Bool
unfolding after_round find_schedule
end_round (e, false) schedule down now = (e, false)
end_round (e, true) schedule down now =
    if e.started && not e.disposed
    then after_round e (find_schedule e.schedules schedule e.tenant_id) down now
    else (e, false)

unfoldable pub next_round : Engine × Bool → ℕ → Bool → Bool → Bool → List ℕ → ℕ → Engine × Firing
unfolding on_cron_fire
next_round (e, false) schedule down admits allows fresh now = (e, over)
next_round (e, true) schedule down admits allows fresh now =
    on_cron_fire e schedule down admits allows fresh now

-- `onCronFire` from the end of its await to the await of its next round, if there is one.
unfoldable pub cron_continues :
    Engine → ℕ → Bool → ℕ → Option RequestError → Bool → Bool → List ℕ → ℕ → Engine × Firing
unfolding cron_caught end_round next_round
cron_continues e schedule down next thrown admits allows fresh now =
    let ended = end_round (cron_caught e schedule next thrown) schedule down now in
    next_round ended schedule down admits allows fresh now
