-- ===== src/Scheduler/Resume.antt =====
-- What reaches packages/core/src/scheduler-engine.ts from outside: the ends of the awaits of
-- `launchAttempt`, timers, the events of sessions and workflows, and cancellation.
use agent_phonon.Base.{
  ℕ, zero, suc, ◌+◌, Bool, true, false, not, ◌&&◌, ◌||◌, List, [], ◌∷◌, ◌++◌, Option, none, some,
  if◌then◌else◌,
}
use agent_phonon.Store.Runs.Rows.{
  RunStatus, success, timeout, cancelled, launch, runtime, Reason, of_status, exceeded_timeout,
  no_longer_owned,
}
use agent_phonon.Store.Runs.{append_event, is_terminal}
use agent_phonon.Scheduler.State.{
  Schedule, timeout_of, RunRuntime, Engine, run_event, send, terminate_session, cancel_workflow,
  timeout_timer,
}
use agent_phonon.Scheduler.Tables.{is_retrying, find_runtime, get, set}
use agent_phonon.Scheduler.Shape.{runtime_record, is_full}
use agent_phonon.Scheduler.Finish.{safe_emit, assert_run_owner, finish_core, cancel_execution}
use agent_phonon.Scheduler.Launch.{
  change_runtime, fail_core, mark_running, running_runtime, ask, launch_core, drain_after,
}

-- `finishRun`.
unfoldable pub finish_run :
    Engine → RunRuntime → RunStatus → Option Reason → Option (List ℕ) → ℕ → Engine
unfolding finish_core drain_after
finish_run e rt status exit_reason usage now =
    drain_after (finish_core e rt.run_id status exit_reason usage true now) rt.schedule_id now

-- `failAttempt`.
unfoldable pub fail_attempt : Engine → RunRuntime → Reason → ℕ → Engine
unfolding fail_core drain_after
fail_attempt e rt error now =
    drain_after (fail_core e rt.run_id error runtime now) rt.schedule_id now

-- `launchAttempt` for a runtime of the map.
unfoldable pub launch_attempt : Engine → RunRuntime → Option Schedule → ℕ → Engine
unfolding launch_core drain_after
launch_attempt e rt initial now = drain_after (launch_core e rt initial now) rt.schedule_id now

abbrev pub live : Option RunRuntime → Option RunRuntime
live none = none
live (some rt) = if is_terminal rt.status then none else some rt

-- `${base}\n\n${injected}`, where both are there.
abbrev pub map_input : List ℕ → Option (List ℕ) → List ℕ
map_input base none = base
map_input [] (some injected) = injected
map_input (c ∷ base) (some injected) = (c ∷ base) ++ 10 ∷ 10 ∷ injected

abbrev pub prompt_of : Schedule → List ℕ
prompt_of s = elim s.target.prompt [ none ↦ [] | some prompt ↦ prompt ]

-- A timeout of 0 sets no timer.
abbrev pub armed : RunRuntime → Option ℕ → RunRuntime
armed rt none = rt
armed rt (some zero) = rt
armed rt (some (suc ms)) = record rt { timer = some (timeout_timer (suc ms)) }

-- The session of an attempt is there; `s` is the schedule that the attempt read.
unfoldable pub session_created_for : Engine → Option RunRuntime → ℕ → Schedule → ℕ → Engine
unfolding change_runtime mark_running set
session_created_for e none session s now = ask e (terminate_session session)
session_created_for e (some rt) session s now =
    let held = record rt { session_id = some session } in
    let mapped = record e { session_to_run = set e.session_to_run session rt.run_id } in
    let on = mark_running mapped held now in
    let timed = change_runtime on (armed (running_runtime held) (timeout_of s.policy)) in
    ask timed (send session (map_input (prompt_of s) rt.input))

unfoldable pub session_created : Engine → ℕ → ℕ → Schedule → ℕ → Engine
unfolding session_created_for find_runtime
session_created e run session s now =
    session_created_for e (if e.disposed then none else live (find_runtime e.runtimes run)) session
      s now

-- The workflow of an attempt has been accepted.
unfoldable pub workflow_launched_for : Engine → Option RunRuntime → ℕ → Schedule → ℕ → Engine
unfolding change_runtime mark_running set
workflow_launched_for e none workflow s now =
    ask e (cancel_workflow workflow (some no_longer_owned))
workflow_launched_for e (some rt) workflow s now =
    let held = record rt { workflow_id = some workflow } in
    let mapped = record e { workflow_to_run = set e.workflow_to_run workflow rt.run_id } in
    let on = mark_running mapped held now in
    change_runtime on (armed (running_runtime held) (timeout_of s.policy))

unfoldable pub workflow_launched : Engine → ℕ → ℕ → Schedule → ℕ → Engine
unfolding workflow_launched_for find_runtime
workflow_launched e run workflow s now =
    workflow_launched_for e (if e.disposed then none else live (find_runtime e.runtimes run))
      workflow s now

-- The `catch` of `launchAttempt`, for what an await threw.
unfoldable pub launch_threw : Engine → ℕ → ℕ → Reason → ℕ → Engine
unfolding fail_core drain_after
launch_threw e run schedule error now = drain_after (fail_core e run error launch now) schedule now

-- The callback of the timer of a retry.
unfoldable pub retry_due_for : Engine → Option RunRuntime → ℕ → Engine
unfolding change_runtime launch_attempt
retry_due_for e none now = e
retry_due_for e (some rt) now =
    let fired = change_runtime e (record rt { timer = none }) in
    if e.disposed || not (is_retrying rt.phase)
    then fired
    else launch_attempt fired (record rt { timer = none }) none now

unfoldable pub retry_due : Engine → ℕ → ℕ → Engine
unfolding retry_due_for find_runtime
retry_due e run now = retry_due_for e (find_runtime e.runtimes run) now

-- An owned run is ended, its execution is stopped behind that.
unfoldable pub stop_owned : Engine × Bool → RunRuntime → RunStatus → Reason → Reason → ℕ → Engine
unfolding finish_run cancel_execution
stop_owned (checked, false) rt status exit_reason reason now = checked
stop_owned (checked, true) rt status exit_reason reason now =
    cancel_execution (finish_run checked rt status (some exit_reason) none now) rt reason

-- The callback of the timer of `armRunTimeout`.
unfoldable pub timeout_due_for : Engine → Option RunRuntime → ℕ → ℕ → Engine
unfolding stop_owned assert_run_owner
timeout_due_for e none ms now = e
timeout_due_for e (some rt) ms now =
    let stopped =
      stop_owned (assert_run_owner e rt now) rt timeout (exceeded_timeout ms) (of_status timeout)
        now in
    if e.disposed || is_terminal rt.status then e else stopped

unfoldable pub timeout_due : Engine → ℕ → ℕ → ℕ → Engine
unfolding timeout_due_for find_runtime
timeout_due e run ms now = timeout_due_for e (find_runtime e.runtimes run) ms now

-- `cancel`, as far as the state goes; a run that is not in the map is only reported.
unfoldable pub cancel_for : Engine → Option RunRuntime → Reason → ℕ → Engine
unfolding stop_owned assert_run_owner
cancel_for e none reason now = e
cancel_for e (some rt) reason now =
    stop_owned (assert_run_owner e rt now) rt cancelled reason reason now

unfoldable pub cancel : Engine → ℕ → Reason → ℕ → Engine
unfolding cancel_for find_runtime
cancel e run reason now = cancel_for e (find_runtime e.runtimes run) reason now

-- `forwardRunEvent`; the runtime comes back with its next sequence number.
unfoldable pub forward_run_event : Engine → RunRuntime → List ℕ → ℕ → Engine × RunRuntime
unfolding append_event runtime_record change_runtime safe_emit
forward_run_event e rt payload now =
    let numbered = record rt { seq = rt.seq + 1 } in
    let changed = change_runtime e numbered in
    let (db, persisted) =
      append_event e.db (runtime_record e numbered none none now) rt.seq payload in
    let written = record changed { db = db } in
    if rt.subscribed && is_full rt.consent
    then (
      if persisted
          then safe_emit written (run_event rt.run_id rt.schedule_id rt.seq payload rt.consent)
          else written,
      numbered,
    )
    else (e, rt)

-- What a session streams: a message with or without a text, a result, an error, or something else.
pub data StreamEvent : Type 0 where
  message : Option (List ℕ) → StreamEvent
  succeeded : List ℕ → Option (List ℕ) → StreamEvent
  unsuccessful : List ℕ → Reason → StreamEvent
  session_error : Reason → StreamEvent
  other_event : StreamEvent

-- `event.text || rt.resultText`.
abbrev pub text_or : List ℕ → List ℕ → List ℕ
text_or [] old = old
text_or (c ∷ text) old = c ∷ text

unfoldable pub stream_event_on : Engine → RunRuntime → StreamEvent → ℕ → Engine
unfolding change_runtime finish_run fail_attempt
stream_event_on e rt (message none) now = e
stream_event_on e rt (message (some text)) now =
    change_runtime e (record rt { result_text = rt.result_text ++ text })
stream_event_on e rt (succeeded text usage) now =
    let told = record rt { result_text = text_or text rt.result_text } in
    finish_run (change_runtime e told) told success none usage now
stream_event_on e rt (unsuccessful text error) now =
    let told = record rt { result_text = text_or text rt.result_text } in
    fail_attempt (change_runtime e told) told error now
stream_event_on e rt (session_error error) now = fail_attempt e rt error now
stream_event_on e rt other_event now = e

abbrev pub mapped_run : List RunRuntime → Option ℕ → Option RunRuntime
mapped_run runtimes none = none
mapped_run runtimes (some run) = live (find_runtime runtimes run)

-- `runtimeForMapping`.
unfoldable pub runtime_for_mapping : Engine → List (ℕ × ℕ) → ℕ → Option RunRuntime
unfolding get find_runtime
runtime_for_mapping e mapping execution = mapped_run e.runtimes (get mapping execution)

unfoldable pub stream_event_owned : Engine × Bool → RunRuntime → StreamEvent → List ℕ → ℕ → Engine
unfolding forward_run_event stream_event_on
stream_event_owned (checked, false) rt event payload now = checked
stream_event_owned (checked, true) rt event payload now =
    let (forwarded, numbered) = forward_run_event checked rt payload now in
    stream_event_on forwarded numbered event now

unfoldable pub stream_event_for : Engine → Option RunRuntime → StreamEvent → List ℕ → ℕ → Engine
unfolding stream_event_owned assert_run_owner
stream_event_for e none event payload now = e
stream_event_for e (some rt) event payload now =
    stream_event_owned (assert_run_owner e rt now) rt event payload now

-- `onStreamEvent`, for an event that names a session.
unfoldable pub on_stream_event : Engine → ℕ → StreamEvent → List ℕ → ℕ → Engine
unfolding stream_event_for runtime_for_mapping
on_stream_event e session event payload now =
    if e.disposed
    then e
    else stream_event_for e (runtime_for_mapping e e.session_to_run session) event payload now
