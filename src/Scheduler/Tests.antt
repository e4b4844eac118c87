-- ===== src/Scheduler/Tests.antt =====
-- Runs of the scheduler of packages/core/src/scheduler-engine.ts.
use agent_phonon.Base.{
  ℕ, ◌&&◌, ◌==◌, if◌then◌else◌, ◌/◌, Option, ◌≤◌, ◌≡◌, refl, true, false, List, [], ◌∷◌, none, some,
  ok,
}
use agent_phonon.Js.Text.{codes}
use agent_phonon.Cron.Parse.{parse_cron}
use agent_phonon.Cron.Next.{next_occurrence}
use agent_phonon.Cron.Match.{FormatParts, date_matches, parts_in_tz, time_matches}
use agent_phonon.Store.Runs.Rows.{said, manual, queued}
use agent_phonon.Scheduler.State.{
  full, queue, session_run, Schedule, RunRuntime, cron_trigger, webhook_trigger, manual_trigger,
  Options, Engine,
}
use agent_phonon.Scheduler.Tables.{find_schedule}
use agent_phonon.Scheduler.Schedules.{ScheduleUpdate, update}
use agent_phonon.Scheduler.Updates.{update-finds}
use agent_phonon.Scheduler.Asked.{IsUpdate}
use agent_phonon.Scheduler.Limits.{Counts}
use agent_phonon.Scheduler.Resume.{message, succeeded, session_error}
use agent_phonon.Scheduler.Requests.{new_runtime}
use agent_phonon.Scheduler.Events.{
  Event, triggers, creates_session, streams, retries, subscribes, fires, restores, continues,
  run_events, initial,
}
use agent_phonon.Scheduler.Counts.{finished}
use agent_phonon.Scheduler.Once.{run_events-finished, run_events-Moves}
use agent_phonon.Scheduler.Clock.{on_cron_fire}
use agent_phonon.Scheduler.Cursor.{Moves}

abbrev no_parts : FormatParts
no_parts = record { year = 1970; month = 1; day = 1; hour = 0; minute = 0; weekday = "Thu" }

abbrev options : Options
options = record {
  engine = true;
  workflows = true;
  resolve_cwd = λ project. ok (codes "/p");
  transcript_path = λ session. none;
  format = λ tz at. no_parts;
}

-- A schedule whose runs queue up, with one retry.
abbrev schedule : Schedule
schedule = record {
  sid = 3;
  tenant = 9;
  name = codes "nightly";
  enabled = true;
  trigger = manual_trigger;
  target = record {
    run_kind = session_run;
    project = 1;
    prompt = some (codes "go");
    plan = none;
    dispatch = none;
  };
  push = full;
  policy = some (record { timeout_ms = none; overlap = queue; max_retries = 1; catch_up = false });
  created_at = 1;
  updated_at = 1;
  last_run_at = none;
  next_run_at = none;
}

abbrev trigger_at : ℕ → Event
trigger_at now = triggers 3 manual none true true [] now

-- The first run fails once and then succeeds, a second one waits for it.
abbrev events : List Event
events =
    trigger_at 10
    ∷ trigger_at 11
    ∷ creates_session 0 40 schedule 12
    ∷ subscribes 0
    ∷ streams 40 (session_error (said (codes "lost"))) [] 13
    ∷ retries 0 63
    ∷ creates_session 0 41 schedule 64
    ∷ streams 41 (message (some (codes "hi"))) [] 65
    ∷ streams 40 (session_error (said (codes "late"))) [] 66
    ∷ streams 41 (succeeded [] none) [] 67
    ∷ []

abbrev start : Engine
start = initial options 9 1 5000 false (record { runs = []; run_events = [] }) (schedule ∷ []) 0

-- The one runtime that is left.
abbrev second_of : List RunRuntime → RunRuntime
second_of [] = new_runtime 0 schedule manual none queued 0
second_of (rt ∷ runtimes) = rt

abbrev ran : Engine
ran = run_events start events

-- The first run is announced once, and the second has been launched and awaits its session.
first_done : finished ran.emitted 0 ≡ 1
unfolding run_events finished
first_done = refl

second : RunRuntime
unfolding run_events
second = second_of ran.runtimes

second_attempt : (second.attempt ≡ 1) × (ran.queues ≡ [])
unfolding second run_events
second_attempt = (refl, refl)

run_events-finished_example : finished ran.emitted 0 ≤ 1
run_events-finished_example =
    run_events-finished options 9 1 5000 false (record { runs = []; run_events = [] })
      (schedule ∷ []) 0 events 0

-- A schedule of every minute, on the clock of UTC in the first hour of 1970.
abbrev first_hour : FormatParts → ℕ → FormatParts
first_hour parts at = record parts { minute = at / 60000 }

abbrev minutely : Schedule
minutely = record schedule {
  trigger = cron_trigger (codes "* * * * *") none;
  next_run_at = some 120000;
}

abbrev ticking : Engine
ticking =
    initial (record options { format = λ tz. first_hour no_parts }) 9 1 5000 false
      (record { runs = []; run_events = [] }) (minutely ∷ []) 0

-- The timer is set for the cursor, fires, and is set again behind its await.
abbrev ticks : List Event
ticks =
    restores minutely false true true [] 70000
    ∷ fires 3 true true [] 120000
    ∷ creates_session 0 40 minutely 120001
    ∷ continues 3 false 180000 none true true [] 120002
    ∷ []

abbrev cursor_of : List Schedule → Option ℕ
cursor_of [] = none
cursor_of (s ∷ schedules) = s.next_run_at

ticked : Engine
unfolding run_events
ticked = run_events ticking ticks

ticked_lem :
    (cursor_of ticked.schedules ≡ some 180000)
    × (ticked.timers ≡ (3, 180000) ∷ [])
    × (ticked.next_run ≡ 1)
unfolding ticked parse_cron next_occurrence date_matches parts_in_tz time_matches
ticked_lem = (refl, refl, refl)

-- A timer that fires a millisecond early, within the second that is allowed, leaves the cursor at the very
-- occurrence that the run stands for.
early_again :
    (cursor_of (run_events ticking (fires 3 true true [] 119999 ∷ [])).schedules ≡ some 120000)
    × ((run_events ticking (fires 3 true true [] 119999 ∷ [])).next_run ≡ 1)
unfolding run_events parse_cron next_occurrence date_matches parts_in_tz time_matches
early_again = (refl, refl)

run_events-Moves_example :
    Moves
      (run_events ticking ticks)
      3
      false
      180000
      (on_cron_fire (run_events ticking ticks) 3 false true true [] 180000)
run_events-Moves_example =
    run_events-Moves (record options { format = λ tz. first_hour no_parts }) 9 1 5000 false
      (record { runs = []; run_events = [] }) (minutely ∷ []) 0 ticks 3 false true true [] 180000

-- The schedule gets a webhook, whose token is made for it, and a new name.
abbrev renamed : ScheduleUpdate
renamed = record {
  new_name = some (codes "hourly");
  new_enabled = none;
  new_trigger = some (webhook_trigger none);
  new_target = none;
  new_push = none;
  new_policy = none;
}

found_before : find_schedule start.schedules 3 9 ≡ some schedule
unfolding find_schedule
found_before = refl

renamed_throws : (update start 3 renamed (codes "whk") 20).1 ≡ none
unfolding update
renamed_throws = refl

update-finds_example :
    (s : Schedule) × IsUpdate start.options schedule renamed (codes "whk") 20 s
    × (find_schedule (update start 3 renamed (codes "whk") 20).0.schedules 3 9
        ≡ (if 3 == 3 && 9 == 9 then some s else find_schedule start.schedules 3 9))
update-finds_example =
    update-finds start 3 renamed (codes "whk") 20 3 9 schedule found_before renamed_throws
