-- ===== src/Scheduler/Finish.antt =====
-- `finishRun`, `assertRunOwner` and what they use, of packages/core/src/scheduler-engine.ts. The writes to
-- the store commit.
use agent_phonon.Base.{ℕ, Bool, true, false, List, ◌∷◌, Option, none, some, if◌then◌else◌}
use agent_phonon.Store.Runs.Rows.{RunStatus, Reason}
use agent_phonon.Store.Runs.{upsert_run, renew_run_lease, release_run, is_terminal}
use agent_phonon.Scheduler.State.{
  RunRuntime, Engine, Emission, Call, interrupt_session, cancel_workflow, run_finished,
}
use agent_phonon.Scheduler.Tables.{
  find_runtime, delete_runtime, delete_some, queue_of, store_queue, without,
}
use agent_phonon.Scheduler.Shape.{runtime_record, finished_record, finished_run, shape_run_for_push}

-- `safeEmit`: an error of the sink is swallowed, and the clock alone pushes nothing.
unfoldable pub safe_emit : Engine → Emission → Engine
safe_emit e emission = if e.dispatch_only then e else record e { emitted = emission ∷ e.emitted }

unfoldable pub persist_runtime : Engine → RunRuntime → Option Reason → Option Reason → ℕ → Engine
unfolding upsert_run runtime_record
persist_runtime e rt exit_reason error now = record e {
  db = (upsert_run e.db (runtime_record e rt exit_reason error now)).0;
}

abbrev pub clear_run_timer : RunRuntime → RunRuntime
clear_run_timer rt = record rt { timer = none }

unfoldable pub detach_mappings : Engine → RunRuntime → Engine
detach_mappings e rt = record e {
  session_to_run = delete_some e.session_to_run rt.session_id;
  workflow_to_run = delete_some e.workflow_to_run rt.workflow_id;
}

unfoldable pub remove_from_queue : Engine → RunRuntime → Engine
unfolding queue_of store_queue without
remove_from_queue e rt = record e {
  queues =
      store_queue e.queues rt.schedule_id (without (queue_of e.queues rt.schedule_id) rt.run_id);
}

-- The runtime leaves the maps.
unfoldable pub drop_runtime : Engine → RunRuntime → Engine
unfolding detach_mappings remove_from_queue delete_runtime
drop_runtime e rt =
    let left = remove_from_queue (detach_mappings e rt) rt in
    record left { runtimes = delete_runtime left.runtimes rt.run_id }

unfoldable pub assert_run_owner : Engine → RunRuntime → ℕ → Engine × Bool
unfolding renew_run_lease drop_runtime
assert_run_owner e rt now =
    let (db, owned) =
      renew_run_lease e.db rt.run_id e.tenant_id e.owner_id rt.owner_epoch now e.lease_ms in
    let renewed = record e { db = db } in
    if owned then (renewed, true) else (drop_runtime renewed rt, false)

unfoldable pub release : Engine → RunRuntime → Engine
unfolding release_run
release e rt = record e {
  db = (release_run e.db rt.run_id e.tenant_id e.owner_id rt.owner_epoch).0;
}

-- The run is written under its terminal status; where the row was this owner's, that is pushed
-- and the row is released.
unfoldable pub write_finished :
    Engine → RunRuntime → RunStatus → Option Reason → Option (List ℕ) → Bool → ℕ → Engine
unfolding upsert_run finished_record finished_run shape_run_for_push safe_emit release
write_finished e rt status exit_reason usage emits now =
    let (db, persisted) = upsert_run e.db (finished_record e rt status exit_reason usage now) in
    let written = record e { db = db } in
    let run = shape_run_for_push (finished_run e rt status exit_reason usage now) rt.consent in
    if persisted
    then release (if emits then safe_emit written (run_finished run rt.consent) else written) rt
    else written

-- `finishRun` up to the draining of the queue, on the runtime that is in the map, and whether it got
-- past its guard.
unfoldable pub finish_found :
    Engine
    → Option RunRuntime
    → RunStatus
    → Option Reason
    → Option (List ℕ)
    → Bool
    → ℕ
    → Engine × Bool
unfolding write_finished detach_mappings remove_from_queue delete_runtime
finish_found e none status exit_reason usage emits now = (e, false)
finish_found e (some rt) status exit_reason usage emits now =
    let left = remove_from_queue (detach_mappings e rt) rt in
    let written = write_finished left rt status exit_reason usage emits now in
    if is_terminal rt.status
    then (e, false)
    else (record written { runtimes = delete_runtime written.runtimes rt.run_id }, true)

unfoldable pub finish_core :
    Engine → ℕ → RunStatus → Option Reason → Option (List ℕ) → Bool → ℕ → Engine × Bool
unfolding finish_found find_runtime
finish_core e run status exit_reason usage emits now =
    finish_found e (find_runtime e.runtimes run) status exit_reason usage emits now

abbrev pub interrupt_some : Option ℕ → Reason → List Call → List Call
interrupt_some none reason calls = calls
interrupt_some (some session) reason calls = interrupt_session session reason ∷ calls

abbrev pub cancel_some : Option ℕ → Option Reason → List Call → List Call
cancel_some none reason calls = calls
cancel_some (some workflow) reason calls = cancel_workflow workflow reason ∷ calls

-- `cancelExecution`, of the runtime as it was when it was finished.
unfoldable pub cancel_execution : Engine → RunRuntime → Reason → Engine
cancel_execution e rt reason =
    let interrupted =
      if e.options.engine then interrupt_some rt.session_id reason e.calls else e.calls in
    record e {
      calls =
          if e.options.workflows
          then cancel_some rt.workflow_id (some reason) interrupted
          else interrupted;
    }
