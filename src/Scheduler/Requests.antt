-- ===== src/Scheduler/Requests.antt =====
-- How a schedule's run comes to be, and the calls on runs, of packages/core/src/scheduler-engine.ts. Whether
-- the store admits new work and the policy allows the run are arguments.
use agent_phonon.Base.{
  ℕ, ◌+◌, Bool, true, false, ◌&&◌, ◌||◌, List, [], ◌∷◌, ◌++◌, Option, none, some, if◌then◌else◌,
  ◌==◌, leb,
}
use agent_phonon.Store.Runs.Rows.{
  pending, skipped, RuntimePhase, queued, launching, RunTriggerSource, overlap_skip, push_pending,
  RunRow, ScheduleDispatch,
}
use agent_phonon.Store.Runs.{upsert_run, list_active_runs}
use agent_phonon.Scheduler.State.{
  Overlap, skip, queue, allow, Schedule, overlap_of, retries_of, RunRuntime, Run, Engine,
  run_finished,
}
use agent_phonon.Scheduler.Tables.{has_active, set, queue_of}
use agent_phonon.Scheduler.Shape.{is_some, runtime_record, shape_run_for_push}
use agent_phonon.Scheduler.Finish.{safe_emit, persist_runtime}
use agent_phonon.Scheduler.Resume.{launch_attempt}

pub data RequestError : Type 0 where
  not_found disposed_scheduler controller_disconnected dispatch_expired : RequestError
  new_work_refused run_not_allowed disabled_schedule : RequestError
  identity_mismatch different_outcome owner_not_ready not_handed_off : RequestError
  full_consent_required not_accepted : RequestError

-- The runtime of a new run; `fresh` is the id that `randomUUID` makes unique.
unfoldable pub new_runtime :
    ℕ → Schedule → RunTriggerSource → Option (List ℕ) → RuntimePhase → ℕ → RunRuntime
new_runtime fresh s source input phase now = record {
  run_id = fresh;
  schedule_id = s.sid;
  session_id = none;
  workflow_id = none;
  status = pending;
  phase = phase;
  subscribed = false;
  seq = 0;
  acked = 0;
  result_text = [];
  created_at = now;
  started_at = none;
  timer = none;
  consent = s.push;
  trigger_source = source;
  input = input;
  attempt = 0;
  max_attempts = 1 + retries_of s.policy;
  retry_history = [];
  retry_at = none;
  owner_epoch = 0;
  dispatch = s.target.dispatch;
}

-- `touchLastRun`.
unfoldable pub touch_last_run : List Schedule → ℕ → ℕ → ℕ → List Schedule
touch_last_run [] schedule tenant now = []
touch_last_run (s ∷ schedules) schedule tenant now =
    let rest = touch_last_run schedules schedule tenant now in
    if s.sid == schedule
    then (if s.tenant == tenant
        then record s { last_run_at = some now } ∷ schedules
        else s ∷ schedules)
    else s ∷ rest

-- `UPDATE schedules SET next_run_at=?,last_run_at=? WHERE id=? AND tenant_id=?`, and whether there was a row.
unfoldable pub consume_cursor : List Schedule → ℕ → ℕ → ℕ → ℕ → List Schedule × Bool
consume_cursor [] schedule tenant next now = ([], false)
consume_cursor (s ∷ schedules) schedule tenant next now =
    let (rest, found) = consume_cursor schedules schedule tenant next now in
    if s.sid == schedule
    then (if s.tenant == tenant
        then (record s { next_run_at = some next; last_run_at = some now } ∷ schedules, true)
        else (s ∷ schedules, false))
    else (s ∷ rest, found)

-- `acceptCronRun`; there is nothing where it throws, since the transaction is rolled back.
unfoldable pub accept_cron_run : Engine → RunRow → ℕ → Option Engine
unfolding upsert_run consume_cursor
accept_cron_run e run next =
    let (db, wrote) = upsert_run e.db run in
    let (schedules, found) =
      consume_cursor e.schedules run.schedule_id run.tenant_id next run.created_at in
    if wrote && found then some (record e { db = db; schedules = schedules }) else none

-- The receipt of a new run: the clock's moves the cursor of the schedule to the next occurrence.
unfoldable pub accept_runtime : Engine → RunRuntime → Option ℕ → ℕ → Option Engine
unfolding persist_runtime touch_last_run accept_cron_run runtime_record
accept_runtime e rt none now =
    let persisted = persist_runtime e rt none none now in
    some (record persisted {
      schedules = touch_last_run persisted.schedules rt.schedule_id e.tenant_id now;
    })
accept_runtime e rt (some next) now = accept_cron_run e (runtime_record e rt none none now) next

unfoldable pub add_runtime : Option Engine → RunRuntime → Option (Engine × RunRuntime)
add_runtime none rt = none
add_runtime (some e) rt =
    some (record e { runtimes = e.runtimes ++ rt ∷ []; next_run = e.next_run + 1 }, rt)

-- `createRuntime`; there is nothing where the receipt is not written.
unfoldable pub create_runtime :
    Engine
    → Schedule
    → RunTriggerSource
    → Option (List ℕ)
    → RuntimePhase
    → Option ℕ
    → ℕ
    → Option (Engine × RunRuntime)
unfolding new_runtime accept_runtime add_runtime
create_runtime e s source input phase cursor now =
    let rt = new_runtime e.next_run s source input phase now in
    add_runtime (accept_runtime e rt cursor now) rt

unfoldable pub skipped_record : Engine → Schedule → RunTriggerSource → ℕ → RunRow
skipped_record e s source now = record {
  id = e.next_run;
  schedule_id = s.sid;
  tenant_id = e.tenant_id;
  trigger_source = source;
  status = skipped;
  session_id = none;
  workflow_id = none;
  started_at = none;
  finished_at = some now;
  exit_reason = some overlap_skip;
  error = none;
  transcript_path = none;
  result_text = none;
  usage = none;
  push_state = push_pending;
  acked = 0;
  created_at = now;
  attempt = 0;
  max_attempts = 1 + retries_of s.policy;
  retry_history = [];
  input = none;
  phase = none;
  retry_at = none;
  owner_id = none;
  owner_epoch = 0;
  lease_until = none;
  event_seq = 0;
  dispatch = s.target.dispatch;
}

unfoldable pub skipped_run : Engine → Schedule → RunTriggerSource → ℕ → Run
skipped_run e s source now = record {
  id = e.next_run;
  schedule_id = s.sid;
  tenant_id = e.tenant_id;
  trigger_source = source;
  status = skipped;
  controller_dispatch = is_some s.target.dispatch;
  dispatch = s.target.dispatch;
  input = none;
  session_id = none;
  workflow_id = none;
  started_at = none;
  finished_at = some now;
  exit_reason = some overlap_skip;
  error = none;
  transcript_path = none;
  result_text = none;
  usage = none;
  attempt = some 0;
  max_attempts = some (1 + retries_of s.policy);
  retry_history = some [];
}

unfoldable pub accept_skipped : Engine → RunRow → Option ℕ → Option Engine
unfolding upsert_run accept_cron_run
accept_skipped e run none = some (record e { db = (upsert_run e.db run).0 })
accept_skipped e run (some next) = accept_cron_run e run next

-- `persistSkipped`, once the receipt is written; the run is shaped as it was before.
unfoldable pub announce_skipped :
    Engine → Option Engine → Schedule → RunTriggerSource → ℕ → Engine × Option RequestError
unfolding skipped_run safe_emit shape_run_for_push
announce_skipped e none s source now = (e, some not_accepted)
announce_skipped e (some accepted) s source now =
    let written = record accepted { next_run = accepted.next_run + 1 } in
    let run = skipped_run e s source now in
    (safe_emit written (run_finished (shape_run_for_push run s.push) s.push), none)

-- `persistSkipped`.
unfoldable pub persist_skipped :
    Engine → Schedule → RunTriggerSource → Option ℕ → ℕ → Engine × Option RequestError
unfolding skipped_record accept_skipped announce_skipped
persist_skipped e s source cursor now =
    announce_skipped e (accept_skipped e (skipped_record e s source now) cursor) s source now

unfoldable pub enqueue : Engine → RunRuntime → Engine
unfolding queue_of set
enqueue e rt = record e {
  queues = set e.queues rt.schedule_id (queue_of e.queues rt.schedule_id ++ rt.run_id ∷ []);
}

-- A dispatch that its authorization has outlived.
abbrev pub expired : Option ScheduleDispatch → ℕ → Bool
expired none now = false
expired (some d) now = elim d.expires_at [ none ↦ false | some at ↦ leb at now ]

unfoldable pub count_schedule : List RunRow → ℕ → ℕ
count_schedule [] schedule = 0
count_schedule (r ∷ rows) schedule =
    (if r.schedule_id == schedule then 1 else 0) + count_schedule rows schedule

-- As many runs of the schedule's dispatch are open as may be.
unfoldable pub dispatch_full : Engine → Schedule → Bool
unfolding count_schedule list_active_runs
dispatch_full e s =
    is_some s.target.dispatch
    && leb 32 (count_schedule (list_active_runs e.db.runs e.tenant_id) s.sid)

abbrev pub is_skip : Overlap → Bool
is_skip skip = true
is_skip queue = false
is_skip allow = false

abbrev pub is_queue : Overlap → Bool
is_queue skip = false
is_queue queue = true
is_queue allow = false

unfoldable pub enqueue_new : Engine → Option (Engine × RunRuntime) → Engine × Option RequestError
unfolding enqueue
enqueue_new e none = (e, some not_accepted)
enqueue_new e (some (made, rt)) = (enqueue made rt, none)

unfoldable pub launch_new :
    Engine → Option (Engine × RunRuntime) → Schedule → ℕ → Engine × Option RequestError
unfolding launch_attempt
launch_new e none s now = (e, some not_accepted)
launch_new e (some (made, rt)) s now = (launch_attempt made rt (some s) now, none)

-- `launchRun` behind its checks.
unfoldable pub admit_run :
    Engine
    → Schedule
    → RunTriggerSource
    → Option (List ℕ)
    → Option ℕ
    → ℕ
    → Engine × Option RequestError
unfolding has_active dispatch_full persist_skipped create_runtime enqueue_new launch_new
admit_run e s source input cursor now =
    let active = has_active e.runtimes s.sid in
    let overlap = overlap_of s.policy in
    if dispatch_full e s || (active && is_skip overlap)
    then persist_skipped e s source cursor now
    else if active && is_queue overlap
    then enqueue_new e (create_runtime e s source input queued cursor now)
    else launch_new e (create_runtime e s source input launching cursor now) s now
