-- ===== src/Scheduler/Schedules.antt =====
-- The calls of packages/core/src/scheduler-engine.ts that change a schedule. A text that `randomBytes` makes
-- is an argument.
use agent_phonon.Base.{
  ℕ, Bool, true, false, not, List, [], ◌∷◌, Option, none, some, Result, ok, err, if◌then◌else◌,
  ◌==◌,
}
use agent_phonon.Store.Runs.Rows.{
  cancelled, Reason, schedule_disabled, schedule_deleted, overlap_changed,
}
use agent_phonon.Scheduler.State.{
  SchedulePushConsent, ScheduleTrigger, ScheduleTarget, SchedulePolicy, Schedule, overlap_of,
  RunRuntime, Engine, Options, schedule_changed, schedule_removed,
}
use agent_phonon.Scheduler.Tables.{find_runtime, delete, queue_of, find_schedule}
use agent_phonon.Scheduler.Finish.{safe_emit, finish_core, cancel_execution}
use agent_phonon.Scheduler.Launch.{waits}
use agent_phonon.Scheduler.Requests.{is_queue}
use agent_phonon.Scheduler.Triggers.{
  schedule_not_found, ScheduleError, upsert_schedule, delete_schedule_row, mask_schedule,
  compute_next_run, prepare_trigger, token_before, with_token, disarm, arm_cron,
}

-- A run of a queue's list is cancelled where it still is queued.
unfoldable pub cancel_id : Engine → ℕ → Reason → ℕ → Engine
unfolding finish_core find_runtime
cancel_id e run reason now =
    let (ended, _) = finish_core e run cancelled (some reason) none true now in
    if waits (find_runtime e.runtimes run) then ended else e

unfoldable pub cancel_ids : Engine → List ℕ → Reason → ℕ → Engine
unfolding cancel_id
cancel_ids e [] reason now = e
cancel_ids e (run ∷ ids) reason now = cancel_ids (cancel_id e run reason now) ids reason now

-- `cancelQueued`, over the list as it was.
unfoldable pub cancel_queued : Engine → ℕ → Reason → ℕ → Engine
unfolding cancel_ids queue_of delete
cancel_queued e schedule reason now =
    cancel_ids (record e { queues = delete e.queues schedule }) (queue_of e.queues schedule) reason
      now

abbrev pub given {ℓ} : {A : Type ℓ} → Option A → A → A
given none old = old
given (some new) old = new

abbrev pub given_policy : Option SchedulePolicy → Option SchedulePolicy → Option SchedulePolicy
given_policy none old = old
given_policy (some new) old = some new

-- The fields of the parameters of `update`; an absent one leaves the schedule's.
pub record ScheduleUpdate : Type 0 where
  pub new_name : Option (List ℕ)
  pub new_enabled : Option Bool
  pub new_trigger : Option ScheduleTrigger
  pub new_target : Option ScheduleTarget
  pub new_push : Option SchedulePushConsent
  pub new_policy : Option SchedulePolicy

unfoldable pub updated_schedule :
    Options → Schedule → ScheduleUpdate → ScheduleTrigger → ℕ → Schedule
unfolding compute_next_run
updated_schedule options old given_update trigger now =
    let enabled = given given_update.new_enabled old.enabled in
    record old {
      name = given given_update.new_name old.name;
      enabled = enabled;
      trigger = trigger;
      target = given given_update.new_target old.target;
      push = given given_update.new_push old.push;
      policy = given_policy given_update.new_policy old.policy;
      updated_at = now;
      next_run_at = if enabled then compute_next_run options trigger now else none;
    }

-- What `update` does with the queue of the schedule.
unfoldable pub requeue : Engine → Schedule → ℕ → Engine
unfolding cancel_queued
requeue e s now =
    if not s.enabled
    then cancel_queued e s.sid schedule_disabled now
    else if is_queue (overlap_of s.policy)
    then e
    else cancel_queued e s.sid overlap_changed now

-- `disarm` and `persist`.
unfoldable pub store_schedule : Engine → Schedule → Engine
unfolding disarm upsert_schedule
store_schedule e s =
    let disarmed = disarm e s.sid in
    record disarmed { schedules = upsert_schedule disarmed.schedules s }

unfoldable pub rearm : Engine → Schedule → ℕ → Engine
unfolding arm_cron
rearm e s now = if s.enabled then arm_cron e s now else e

-- The rest of `update`, once the schedule is made.
unfoldable pub store_update : Engine → Schedule → ℕ → Engine
unfolding store_schedule requeue rearm safe_emit mask_schedule
store_update e s now =
    safe_emit (rearm (requeue (store_schedule e s) s now) s now)
      (schedule_changed (mask_schedule s))

abbrev pub prepared :
    Options → Option ScheduleTrigger → Schedule → ℕ → Result ScheduleError ScheduleTrigger
prepared options none old now = ok old.trigger
prepared options (some trigger) old now = prepare_trigger options trigger now

unfoldable pub update_prepared :
    Engine
    → Schedule
    → ScheduleUpdate
    → Result ScheduleError ScheduleTrigger
    → List ℕ
    → ℕ
    → Engine × Option ScheduleError
unfolding updated_schedule store_update
update_prepared e old given_update (err thrown) fresh now = (e, some thrown)
update_prepared e old given_update (ok trigger) fresh now =
    let with = with_token trigger (token_before old.trigger fresh) in
    (store_update e (updated_schedule e.options old given_update with now) now, none)

unfoldable pub update_found :
    Engine → Option Schedule → ScheduleUpdate → List ℕ → ℕ → Engine × Option ScheduleError
unfolding update_prepared prepare_trigger
update_found e none given_update fresh now = (e, some schedule_not_found)
update_found e (some old) given_update fresh now =
    update_prepared e old given_update (prepared e.options given_update.new_trigger old now) fresh
      now

unfoldable pub update : Engine → ℕ → ScheduleUpdate → List ℕ → ℕ → Engine × Option ScheduleError
unfolding update_found find_schedule
update e schedule given_update fresh now =
    update_found e (find_schedule e.schedules schedule e.tenant_id) given_update fresh now

abbrev pub only_enabled : Bool → ScheduleUpdate
only_enabled enabled = record {
  new_name = none;
  new_enabled = some enabled;
  new_trigger = none;
  new_target = none;
  new_push = none;
  new_policy = none;
}

unfoldable pub set_enabled : Engine → ℕ → Bool → List ℕ → ℕ → Engine × Option ScheduleError
unfolding update
set_enabled e schedule enabled fresh now = update e schedule (only_enabled enabled) fresh now

-- The runtimes of a schedule, of the map as it is at the start.
unfoldable pub runtimes_of : List RunRuntime → ℕ → List RunRuntime
runtimes_of [] schedule = []
runtimes_of (rt ∷ runtimes) schedule =
    let rest = runtimes_of runtimes schedule in
    if rt.schedule_id == schedule then rt ∷ rest else rest

unfoldable pub delete_run : Engine → RunRuntime → ℕ → Engine
unfolding finish_core cancel_execution
delete_run e rt now =
    cancel_execution (finish_core e rt.run_id cancelled (some schedule_deleted) none true now).0 rt
      schedule_deleted

unfoldable pub delete_runs : Engine → List RunRuntime → ℕ → Engine
unfolding delete_run
delete_runs e [] now = e
delete_runs e (rt ∷ runtimes) now = delete_runs (delete_run e rt now) runtimes now

unfoldable pub delete_found : Engine → Option Schedule → ℕ → ℕ → Engine × Bool
unfolding disarm runtimes_of delete_runs delete delete_schedule_row safe_emit
delete_found e none schedule now = (e, false)
delete_found e (some s) schedule now =
    let disarmed = disarm e schedule in
    let ended = delete_runs disarmed (runtimes_of disarmed.runtimes schedule) now in
    let gone = record ended {
      queues = delete ended.queues schedule;
      schedules = delete_schedule_row ended.schedules schedule;
    } in
    (safe_emit gone (schedule_removed schedule), true)

-- `delete`.
unfoldable pub delete_schedule : Engine → ℕ → ℕ → Engine × Bool
unfolding delete_found find_schedule
delete_schedule e schedule now =
    delete_found e (find_schedule e.schedules schedule e.tenant_id) schedule now
