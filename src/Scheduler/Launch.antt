-- ===== src/Scheduler/Launch.antt =====
-- `launchAttempt`, `failAttempt` and `drainQueue` of packages/core/src/scheduler-engine.ts. The part of
-- `launchAttempt` behind its first `await` is in Scheduler/Resume.
use agent_phonon.Base.{
  ℕ, zero, suc, ◌+◌, ◌-◌, ◌*◌, ◌^◌, ◌/◌, min, max, Bool, true, false, ◌&&◌, ◌||◌, List, [], ◌∷◌,
  ◌++◌, Option, none, some, Result, ok, err, if◌then◌else◌, ◌==◌, ltb, length,
}
use agent_phonon.Js.Text.{text_eq}
use agent_phonon.Store.Runs.Rows.{
  pending, running, failed, cancelled, launching, phase_running, retry_wait, RetryPhase, launch,
  Reason, disabled_before_launch, deleted_before_launch, definition_changed, workflows_unavailable,
  plan_missing, cannot_execute, retrying_after, said, attempt_failed, ScheduleDispatch,
}
use agent_phonon.Store.Runs.{is_terminal}
use agent_phonon.Scheduler.State.{
  Schedule, ScheduleTarget, RunKind, session_run, workflow_run, dispatch_run, retries_of,
  timeout_of, RunRuntime, Engine, run_started, Call, create_session, run_workflow,
  terminate_session, retry_timer,
}
use agent_phonon.Scheduler.Tables.{
  is_queued, find_runtime, put_runtime, has_active, queue_of, store_queue, find_schedule,
}
use agent_phonon.Scheduler.Shape.{runtime_to_run, shape_run_for_push}
use agent_phonon.Scheduler.Finish.{
  safe_emit, persist_runtime, detach_mappings, assert_run_owner, finish_core, cancel_some,
}

-- `Math.min(1000, 50 * 2 ** Math.max(0, attempt - 1))`.
abbrev pub retry_delay_ms : ℕ → ℕ
retry_delay_ms attempt = min 1000 (50 * 2 ^ (attempt - 1))

unfoldable pub change_runtime : Engine → RunRuntime → Engine
unfolding put_runtime
change_runtime e rt = record e { runtimes = put_runtime e.runtimes rt }

abbrev pub terminate_some : Option ℕ → List Call → List Call
terminate_some none calls = calls
terminate_some (some session) calls = terminate_session session ∷ calls

-- The execution of a failed attempt is given up.
unfoldable pub relinquish : Engine → RunRuntime → Engine
relinquish e rt =
    let ended = if e.options.engine then terminate_some rt.session_id e.calls else e.calls in
    record e {
      calls =
          if e.options.workflows
          then cancel_some rt.workflow_id (some attempt_failed) ended
          else ended;
    }

unfoldable pub failed_runtime : RunRuntime → Reason → RetryPhase → ℕ → RunRuntime
failed_runtime rt error phase now = record rt {
  timer = none;
  retry_history =
      rt.retry_history
      ++ record {
        audit_attempt = rt.attempt;
        audit_at = now;
        audit_phase = phase;
        audit_error = error;
      }
        ∷ [];
}

unfoldable pub retry_runtime : RunRuntime → ℕ → RunRuntime
retry_runtime rt now = record rt {
  status = pending;
  phase = retry_wait;
  session_id = none;
  workflow_id = none;
  retry_at = some (now + retry_delay_ms rt.attempt);
  timer = some (retry_timer (retry_delay_ms rt.attempt));
}

-- The attempt of an owned run has failed.
unfoldable pub fail_owned : Engine → RunRuntime → Reason → RetryPhase → ℕ → Engine × Bool
unfolding detach_mappings failed_runtime relinquish change_runtime retry_runtime persist_runtime
    finish_core
fail_owned e rt error phase now =
    let audited = failed_runtime rt error phase now in
    let left = relinquish (change_runtime (detach_mappings e rt) audited) rt in
    let waiting = retry_runtime audited now in
    if ltb rt.attempt rt.max_attempts
    then (
      persist_runtime (change_runtime left waiting) waiting (some (retrying_after rt.attempt error))
          (some error) now,
      false,
    )
    else finish_core left rt.run_id failed (some error) none true now

unfoldable pub fail_found : Engine → Option RunRuntime → Reason → RetryPhase → ℕ → Engine × Bool
unfolding assert_run_owner fail_owned
fail_found e none error phase now = (e, false)
fail_found e (some rt) error phase now =
    let (checked, owned) = assert_run_owner e rt now in
    if e.disposed || is_terminal rt.status
    then (e, false)
    else if owned
    then fail_owned checked rt error phase now
    else (checked, false)

-- `failAttempt` up to the draining of the queue, and whether that is next.
unfoldable pub fail_core : Engine → ℕ → Reason → RetryPhase → ℕ → Engine × Bool
unfolding fail_found find_runtime
fail_core e run error phase now = fail_found e (find_runtime e.runtimes run) error phase now

-- `rt.startedAt ??= this.now()`.
abbrev pub started : Option ℕ → ℕ → Option ℕ
started none now = some now
started (some t) now = some t

unfoldable pub begin_attempt : RunRuntime → Schedule → ℕ → RunRuntime
begin_attempt rt s now = record rt {
  phase = launching;
  retry_at = none;
  status = pending;
  max_attempts = if rt.attempt == 0 then 1 + retries_of s.policy else rt.max_attempts;
  consent = if rt.attempt == 0 then s.push else rt.consent;
  attempt = rt.attempt + 1;
  result_text = [];
  session_id = none;
  workflow_id = none;
  started_at = started rt.started_at now;
}

-- Two dispatches with the same JSON text.
abbrev pub same_instant : Option ℕ → Option ℕ → Bool
same_instant none none = true
same_instant none (some t) = false
same_instant (some t) none = false
same_instant (some t) (some u) = t == u

abbrev pub same_dispatch : ScheduleDispatch → ScheduleDispatch → Bool
same_dispatch d c =
    text_eq d.dispatch_key c.dispatch_key
    && d.revision == c.revision
    && text_eq d.content_hash c.content_hash
    && same_instant d.expires_at c.expires_at

abbrev pub is_dispatch : RunKind → Bool
is_dispatch session_run = false
is_dispatch workflow_run = false
is_dispatch dispatch_run = true

abbrev pub offers_dispatch : ScheduleTarget → Option ScheduleDispatch → ScheduleDispatch → Bool
offers_dispatch target none d = false
offers_dispatch target (some offered) d = is_dispatch target.run_kind && same_dispatch d offered

abbrev pub running_runtime : RunRuntime → RunRuntime
running_runtime rt = record rt { phase = phase_running; status = running }

unfoldable pub mark_running : Engine → RunRuntime → ℕ → Engine
unfolding change_runtime persist_runtime safe_emit runtime_to_run shape_run_for_push
mark_running e rt now =
    let on = running_runtime rt in
    let persisted = persist_runtime (change_runtime e on) on none none now in
    safe_emit persisted
      (run_started (shape_run_for_push (runtime_to_run e on) on.consent) on.consent)

abbrev pub ask : Engine → Call → Engine
ask e call = record e { calls = call ∷ e.calls }

-- `Math.max(1, Math.ceil(timeoutMs / 1000))`, where there is a timeout.
abbrev pub seconds : Option ℕ → Option ℕ
seconds none = none
seconds (some ms) = if ms == 0 then none else some (max 1 ((ms + 999) / 1000))

unfoldable pub launch_workflow : Engine → RunRuntime → Schedule → Option ℕ → ℕ → Engine × Bool
unfolding fail_core
launch_workflow e rt s none now =
    fail_core e rt.run_id (if e.options.workflows then plan_missing else workflows_unavailable)
      launch now
launch_workflow e rt s (some plan) now =
    if e.options.workflows
    then (
      ask e (run_workflow rt.run_id rt.attempt s.target rt.input (seconds (timeout_of s.policy))),
      false,
    )
    else fail_core e rt.run_id workflows_unavailable launch now

unfoldable pub launch_in :
    Engine → RunRuntime → Schedule → Result (List ℕ) (List ℕ) → ℕ → Engine × Bool
unfolding fail_core
launch_in e rt s (err thrown) now = fail_core e rt.run_id (said thrown) launch now
launch_in e rt s (ok cwd) now = (ask e (create_session rt.run_id s.target cwd), false)

unfoldable pub launch_session : Engine → RunRuntime → Schedule → ℕ → Engine × Bool
unfolding launch_in fail_core
launch_session e rt s now =
    if e.options.engine
    then launch_in e rt s (e.options.resolve_cwd s.target.project) now
    else fail_core e rt.run_id cannot_execute launch now

unfoldable pub launch_target :
    Engine → RunRuntime → Schedule → Option ScheduleDispatch → RunKind → ℕ → Engine × Bool
unfolding mark_running fail_core launch_workflow launch_session
launch_target e rt s (some d) kind now =
    if offers_dispatch s.target s.target.dispatch d
    then (mark_running e rt now, false)
    else fail_core e rt.run_id definition_changed launch now
launch_target e rt s none workflow_run now = launch_workflow e rt s s.target.plan now
launch_target e rt s none session_run now = launch_session e rt s now
launch_target e rt s none dispatch_run now = launch_session e rt s now

unfoldable pub launch_scheduled : Engine → RunRuntime → Option Schedule → ℕ → Engine × Bool
unfolding begin_attempt change_runtime persist_runtime launch_target finish_core
launch_scheduled e rt none now =
    finish_core e rt.run_id cancelled (some deleted_before_launch) none true now
launch_scheduled e rt (some s) now =
    let begun = begin_attempt rt s now in
    let persisted = persist_runtime (change_runtime e begun) begun none none now in
    if s.enabled
    then launch_target persisted begun s begun.dispatch s.target.run_kind now
    else finish_core e rt.run_id cancelled (some disabled_before_launch) none true now

-- `row ? this.rowToSchedule(row) : initialSchedule`.
abbrev pub schedule_or : Option Schedule → Option Schedule → Option Schedule
schedule_or none initial = initial
schedule_or (some s) initial = some s

-- `launchAttempt` up to its first `await`, for a runtime of the map, and whether the run ended so that its
-- queue is drained next.
unfoldable pub launch_core : Engine → RunRuntime → Option Schedule → ℕ → Engine × Bool
unfolding assert_run_owner launch_scheduled find_schedule
launch_core e rt initial now =
    let (checked, owned) = assert_run_owner e rt now in
    if e.disposed || is_terminal rt.status
    then (e, false)
    else if owned
    then launch_scheduled checked rt
        (schedule_or (find_schedule e.schedules rt.schedule_id e.tenant_id) initial) now
    else (checked, false)

abbrev pub waits : Option RunRuntime → Bool
waits none = false
waits (some rt) = is_queued rt.phase

abbrev pub pop_found :
    Option RunRuntime → List ℕ → Option RunRuntime × List ℕ → Option RunRuntime × List ℕ
pop_found none ids later = later
pop_found (some rt) ids later = if is_queued rt.phase then (some rt, ids) else later

-- `queue.shift()` up to the first run that is still queued: it, and what is left behind it.
unfoldable pub pop_queued : List RunRuntime → List ℕ → Option RunRuntime × List ℕ
unfolding find_runtime
pop_queued runtimes [] = (none, [])
pop_queued runtimes (i ∷ ids) = pop_found (find_runtime runtimes i) ids (pop_queued runtimes ids)

unfoldable pub launch_next : Engine → Option RunRuntime → ℕ → Engine × Bool
unfolding launch_core
launch_next e none now = (e, false)
launch_next e (some rt) now = launch_core e rt none now

-- `drainQueue`; each round takes at least one id from the queue, so its length is fuel enough.
unfoldable pub drain : ℕ → Engine → ℕ → ℕ → Engine
unfolding has_active pop_queued queue_of store_queue launch_next
drain zero e schedule now = e
drain (suc fuel) e schedule now =
    let (next, left) = pop_queued e.runtimes (queue_of e.queues schedule) in
    let (launched, ended) =
      launch_next (record e { queues = store_queue e.queues schedule left }) next now in
    let rest = drain fuel launched schedule now in
    if e.disposed || has_active e.runtimes schedule then e else if ended then rest else launched

unfoldable pub drain_queue : Engine → ℕ → ℕ → Engine
unfolding drain queue_of
drain_queue e schedule now = drain (length (queue_of e.queues schedule)) e schedule now

-- What ends a run drains the queue of its schedule.
unfoldable pub drain_after : Engine × Bool → ℕ → ℕ → Engine
unfolding drain_queue
drain_after (e, ended) schedule now = if ended then drain_queue e schedule now else e
