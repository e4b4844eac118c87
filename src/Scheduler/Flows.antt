-- ===== src/Scheduler/Flows.antt =====
-- `onWorkflowEvent` of packages/core/src/scheduler-engine.ts.
use agent_phonon.Base.{
  ℕ, Bool, true, false, ◌&&◌, List, [], ◌∷◌, Option, none, some, if◌then◌else◌, ◌==◌,
}
use agent_phonon.Store.Runs.Rows.{
  success, timeout, cancelled, RuntimePhase, queued, launching, phase_running, retry_wait, Reason,
}
use agent_phonon.Scheduler.State.{RunRuntime, Engine}
use agent_phonon.Scheduler.Tables.{set}
use agent_phonon.Scheduler.Finish.{assert_run_owner}
use agent_phonon.Scheduler.Launch.{change_runtime}
use agent_phonon.Scheduler.Resume.{finish_run, fail_attempt, forward_run_event, runtime_for_mapping}

-- The statuses of a `workflow.status` event that end a run, with the reason the code takes from the
-- payload, and the others.
pub data FlowStatus : Type 0 where
  flow_completed flow_other : FlowStatus
  flow_failed flow_timeout flow_cancelled : Reason → FlowStatus

-- `metadata_run` is `metadata.runId`, `text` is `result.text`, and `flow_status` has what a
-- `workflow.status` event says: the final text, and the status.
pub record WorkflowEvent : Type 0 where
  pub workflow : ℕ
  pub metadata_run : Option ℕ
  pub text : Option (List ℕ)
  pub flow_status : Option (Option (List ℕ) × FlowStatus)
  pub payload : List ℕ

abbrev pub is_launching : RuntimePhase → Bool
is_launching queued = false
is_launching launching = true
is_launching phase_running = false
is_launching retry_wait = false

abbrev pub names : Option ℕ → ℕ → Bool
names none run = false
names (some k) run = k == run

abbrev pub lacks_workflow : Option ℕ → Bool
lacks_workflow none = true
lacks_workflow (some w) = false

-- The run that is launching, has no workflow yet, and is named by the event's metadata.
unfoldable pub launching_run : List RunRuntime → Option ℕ → Option RunRuntime
launching_run [] named = none
launching_run (rt ∷ runtimes) named =
    if is_launching rt.phase && lacks_workflow rt.workflow_id && names named rt.run_id
    then some rt
    else launching_run runtimes named

abbrev pub found_or : Option RunRuntime → Option RunRuntime → Option RunRuntime
found_or none later = later
found_or (some rt) later = some rt

abbrev pub with_text : RunRuntime → Option (List ℕ) → RunRuntime
with_text rt none = rt
with_text rt (some text) = record rt { result_text = text }

unfoldable pub correlate : Engine → RunRuntime → ℕ → Option ℕ → Engine × RunRuntime
unfolding change_runtime set
correlate e rt workflow (some w) = (e, rt)
correlate e rt workflow none =
    let held = record rt { workflow_id = some workflow } in
    (
      change_runtime (record e { workflow_to_run = set e.workflow_to_run workflow rt.run_id }) held,
      held,
    )

unfoldable pub flow_status_on : Engine → RunRuntime → FlowStatus → ℕ → Engine
unfolding finish_run fail_attempt
flow_status_on e rt flow_completed now = finish_run e rt success none none now
flow_status_on e rt (flow_failed error) now = fail_attempt e rt error now
flow_status_on e rt (flow_timeout error) now = finish_run e rt timeout (some error) none now
flow_status_on e rt (flow_cancelled reason) now = finish_run e rt cancelled (some reason) none now
flow_status_on e rt flow_other now = e

unfoldable pub flow_event_on :
    Engine → RunRuntime → Option (Option (List ℕ) × FlowStatus) → ℕ → Engine
unfolding flow_status_on change_runtime
flow_event_on e rt none now = e
flow_event_on e rt (some (final, status)) now =
    let told = with_text rt final in flow_status_on (change_runtime e told) told status now

unfoldable pub workflow_event_owned : Engine × Bool → RunRuntime → WorkflowEvent → ℕ → Engine
unfolding correlate forward_run_event flow_event_on change_runtime
workflow_event_owned (checked, false) rt event now = checked
workflow_event_owned (checked, true) rt event now =
    let (known, held) = correlate checked rt event.workflow rt.workflow_id in
    let (forwarded, numbered) = forward_run_event known held event.payload now in
    let told = with_text numbered event.text in
    flow_event_on (change_runtime forwarded told) told event.flow_status now

unfoldable pub workflow_event_for : Engine → Option RunRuntime → WorkflowEvent → ℕ → Engine
unfolding workflow_event_owned assert_run_owner
workflow_event_for e none event now = e
workflow_event_for e (some rt) event now =
    workflow_event_owned (assert_run_owner e rt now) rt event now

unfoldable pub on_workflow_event : Engine → WorkflowEvent → ℕ → Engine
unfolding workflow_event_for runtime_for_mapping launching_run
on_workflow_event e event now =
    let found =
      found_or (runtime_for_mapping e e.workflow_to_run event.workflow)
        (launching_run e.runtimes event.metadata_run) in
    if e.disposed then e else workflow_event_for e found event now
