-- ===== src/Scheduler/Restore.antt =====
-- What packages/core/src/scheduler-engine.ts does with a schedule of its clock when it starts or makes one:
-- `restoreCron` and `create`.
use agent_phonon.Base.{
  ℕ, Bool, true, false, not, ◌||◌, List, Option, none, some, Result, ok, err, if◌then◌else◌, leb,
}
use agent_phonon.Scheduler.State.{
  Schedule, SchedulePolicy, SchedulePushConsent, summary, ScheduleTarget, ScheduleTrigger, Engine,
  schedule_changed,
}
use agent_phonon.Scheduler.Finish.{safe_emit}
use agent_phonon.Scheduler.Schedules.{given, rearm}
use agent_phonon.Scheduler.Triggers.{
  ScheduleError, mask_schedule, compute_next_run, prepare_trigger, is_cron, with_token, arm_cron,
}
use agent_phonon.Scheduler.Clock.{Firing, over, persist_schedule, on_cron_fire}

abbrev pub is_missed : Option ℕ → ℕ → Bool
is_missed none now = false
is_missed (some at) now = leb at now

abbrev pub catches_up : Option SchedulePolicy → Bool
catches_up none = false
catches_up (some policy) = policy.catch_up

unfoldable pub recompute : Engine → Schedule → ℕ → Schedule
unfolding compute_next_run
recompute e s now = record s { next_run_at = compute_next_run e.options s.trigger now }

unfoldable pub skip_missed : Engine → Schedule → ℕ → Engine
unfolding persist_schedule safe_emit mask_schedule arm_cron
skip_missed e s now =
    arm_cron (safe_emit (persist_schedule e s) (schedule_changed (mask_schedule s))) s now

unfoldable pub arm_first : Engine → Schedule → ℕ → Engine
unfolding persist_schedule arm_cron
arm_first e s now = arm_cron (persist_schedule e s) s now

abbrev pub has_no_cursor : Option ℕ → Bool
has_no_cursor none = true
has_no_cursor (some at) = false

-- `restoreCron`.
unfoldable pub restore_cron : Engine → Schedule → Bool → Bool → Bool → List ℕ → ℕ → Engine × Firing
unfolding on_cron_fire recompute skip_missed arm_first arm_cron
restore_cron e s live admits allows fresh now =
    if not (is_cron s.trigger)
    then (e, over)
    else if is_missed s.next_run_at now
    then (if live || catches_up s.policy
        then on_cron_fire e s.sid (not live) admits allows fresh now
        else (skip_missed e (recompute e s now) now, over))
    else if has_no_cursor s.next_run_at
    then (arm_first e (recompute e s now) now, over)
    else (arm_cron e s now, over)

-- The parameters of `create`.
pub record ScheduleCreate : Type 0 where
  pub name : List ℕ
  pub trigger : ScheduleTrigger
  pub target : ScheduleTarget
  pub push : Option SchedulePushConsent
  pub policy : Option SchedulePolicy
  pub enabled : Option Bool

unfoldable pub created_schedule : Engine → ScheduleCreate → ScheduleTrigger → ℕ → ℕ → Schedule
unfolding compute_next_run
created_schedule e params trigger sid now =
    let enabled = given params.enabled true in
    record {
      sid = sid;
      tenant = e.tenant_id;
      name = params.name;
      enabled = enabled;
      trigger = trigger;
      target = params.target;
      push = given params.push summary;
      policy = params.policy;
      created_at = now;
      updated_at = now;
      last_run_at = none;
      next_run_at = if enabled then compute_next_run e.options trigger now else none;
    }

unfoldable pub store_created : Engine → Schedule → ℕ → Engine
unfolding persist_schedule rearm safe_emit mask_schedule
store_created e s now =
    safe_emit (rearm (persist_schedule e s) s now) (schedule_changed (mask_schedule s))

unfoldable pub create_prepared :
    Engine
    → ScheduleCreate
    → Result ScheduleError ScheduleTrigger
    → ℕ
    → List ℕ
    → ℕ
    → Engine × Option ScheduleError
unfolding created_schedule store_created
create_prepared e params (err thrown) sid fresh now = (e, some thrown)
create_prepared e params (ok trigger) sid fresh now =
    (store_created e (created_schedule e params (with_token trigger fresh) sid now) now, none)

-- `create`.
unfoldable pub create : Engine → ScheduleCreate → ℕ → List ℕ → ℕ → Engine × Option ScheduleError
unfolding prepare_trigger create_prepared
create e params sid fresh now =
    create_prepared e params (prepare_trigger e.options params.trigger now) sid fresh now
