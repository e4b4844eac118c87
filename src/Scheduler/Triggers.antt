-- ===== src/Scheduler/Triggers.antt =====
-- The table of schedules of packages/core/src/scheduler-engine.ts, their triggers, and the timers of the clock.
use agent_phonon.Base.{
  ℕ, ◌+◌, ◌-◌, ◌^◌, min, Bool, true, false, not, ◌&&◌, ◌||◌, List, [], ◌∷◌, Option, none, some,
  Result, ok, err, if◌then◌else◌, ◌==◌,
}
use agent_phonon.Cron.Parse.{CronError}
use agent_phonon.Cron.Next.{next_cron_after}
use agent_phonon.Scheduler.State.{
  ScheduleTrigger, cron_trigger, webhook_trigger, manual_trigger, Schedule, Engine, Options,
}
use agent_phonon.Scheduler.Tables.{set, delete}
use agent_phonon.Scheduler.Launch.{is_dispatch}

-- `error_schedule` is `schedule ... not found`, `invalid_cron` what the parser threw or a cron text that
-- never fires.
pub data ScheduleError : Type 0 where
  schedule_not_found never_fires : ScheduleError
  invalid_cron : CronError → ScheduleError

-- `INSERT ... ON CONFLICT(id) DO UPDATE ... WHERE schedules.tenant_id=excluded.tenant_id`.
unfoldable pub upsert_schedule : List Schedule → Schedule → List Schedule
upsert_schedule [] s = s ∷ []
upsert_schedule (old ∷ schedules) s =
    let rest = upsert_schedule schedules s in
    if old.sid == s.sid
    then (if old.tenant == s.tenant
        then record s { created_at = old.created_at } ∷ schedules
        else old ∷ schedules)
    else old ∷ rest

unfoldable pub delete_schedule_row : List Schedule → ℕ → List Schedule
delete_schedule_row [] schedule = []
delete_schedule_row (s ∷ schedules) schedule =
    let rest = delete_schedule_row schedules schedule in
    if s.sid == schedule then rest else s ∷ rest

-- The literal of `MASK`.
abbrev pub mask : List ℕ
mask = 42 ∷ 42 ∷ 42 ∷ []

abbrev pub masked_trigger : ScheduleTrigger → ScheduleTrigger
masked_trigger (cron_trigger expr tz) = cron_trigger expr tz
masked_trigger (webhook_trigger none) = webhook_trigger none
masked_trigger (webhook_trigger (some [])) = webhook_trigger (some [])
masked_trigger (webhook_trigger (some (c ∷ token))) = webhook_trigger (some mask)
masked_trigger manual_trigger = manual_trigger

unfoldable pub mask_schedule : Schedule → Schedule
mask_schedule s = record s { trigger = masked_trigger s.trigger }

-- `computeNextRun`, where the cron text can be parsed.
abbrev pub due : Result CronError (Option ℕ) → Option ℕ
due (err thrown) = none
due (ok next) = next

unfoldable pub compute_next_run : Options → ScheduleTrigger → ℕ → Option ℕ
unfolding next_cron_after
compute_next_run options (cron_trigger expr tz) after =
    due (next_cron_after (options.format tz) expr after)
compute_next_run options (webhook_trigger token) after = none
compute_next_run options manual_trigger after = none

abbrev pub checked_trigger :
    ScheduleTrigger → Result CronError (Option ℕ) → Result ScheduleError ScheduleTrigger
checked_trigger trigger (err thrown) = err (invalid_cron thrown)
checked_trigger trigger (ok none) = err never_fires
checked_trigger trigger (ok (some at)) = ok trigger

unfoldable pub prepare_trigger :
    Options → ScheduleTrigger → ℕ → Result ScheduleError ScheduleTrigger
unfolding next_cron_after
prepare_trigger options (cron_trigger expr tz) now =
    checked_trigger (cron_trigger expr tz) (next_cron_after (options.format tz) expr now)
prepare_trigger options (webhook_trigger token) now = ok (webhook_trigger token)
prepare_trigger options manual_trigger now = ok manual_trigger

abbrev pub is_cron : ScheduleTrigger → Bool
is_cron (cron_trigger expr tz) = true
is_cron (webhook_trigger token) = false
is_cron manual_trigger = false

-- An own token that is not empty, the token before, or the new one.
abbrev pub own_token : Option (List ℕ) → List ℕ → List ℕ
own_token none other = other
own_token (some []) other = other
own_token (some (c ∷ token)) other = c ∷ token

abbrev pub token_before : ScheduleTrigger → List ℕ → List ℕ
token_before (cron_trigger expr tz) fresh = fresh
token_before (webhook_trigger token) fresh = own_token token fresh
token_before manual_trigger fresh = fresh

-- The trigger with its token, for a webhook.
abbrev pub with_token : ScheduleTrigger → List ℕ → ScheduleTrigger
with_token (cron_trigger expr tz) other = cron_trigger expr tz
with_token (webhook_trigger token) other = webhook_trigger (some (own_token token other))
with_token manual_trigger other = manual_trigger

unfoldable pub disarm : Engine → ℕ → Engine
unfolding delete
disarm e schedule = record e { timers = delete e.timers schedule }

abbrev pub next_or : Option ℕ → Option ℕ → Option ℕ
next_or none computed = computed
next_or (some at) computed = some at

-- `setTimeout(..., Math.min(Math.max(0, next - now), 2 ** 31 - 1))`.
abbrev pub arm_at : Engine → ℕ → Option ℕ → ℕ → Engine
arm_at e schedule none now = e
arm_at e schedule (some next) now = record e {
  timers = set e.timers schedule (now + min (next - now) (2 ^ 31 - 1));
}

unfoldable pub arm_cron : Engine → Schedule → ℕ → Engine
unfolding disarm compute_next_run set
arm_cron e s now =
    let next = next_or s.next_run_at (compute_next_run e.options s.trigger now) in
    if not e.started
      || e.disposed
      || not (is_cron s.trigger)
      || (e.dispatch_only && not (is_dispatch s.target.run_kind))
    then e
    else arm_at (disarm e s.sid) s.sid next now
