-- ===== src/Scheduler/Untouched.antt =====
-- What an attempt of a run leaves as it was, in packages/core/src/scheduler-engine.ts: the table of schedules
-- and the ids that were given out.
use agent_phonon.Base.{
  ℕ, zero, suc, ◌≡◌, refl, Bool, true, ◌||◌, List, Option, none, some, arith, Result, ok, err,
  if_both, ltb, length,
}
use agent_phonon.Store.Runs.Rows.{
  RunStatus, Reason, RetryPhase, ScheduleDispatch, failed, cancelled, launch,
  disabled_before_launch, deleted_before_launch, definition_changed, workflows_unavailable,
  cannot_execute, said,
}
use agent_phonon.Store.Runs.{is_terminal, renew_run_lease}
use agent_phonon.Scheduler.State.{
  Schedule, RunRuntime, Engine, RunKind, session_run, workflow_run, dispatch_run, Emission,
}
use agent_phonon.Scheduler.Tables.{find_runtime, has_active, queue_of, store_queue, find_schedule}
use agent_phonon.Scheduler.Finish.{
  safe_emit, persist_runtime, detach_mappings, remove_from_queue, drop_runtime, assert_run_owner,
  release, write_finished, finish_found, finish_core,
}
use agent_phonon.Scheduler.Launch.{
  change_runtime, relinquish, failed_runtime, fail_owned, fail_found, fail_core, begin_attempt,
  offers_dispatch, mark_running, launch_workflow, launch_in, launch_session, launch_target,
  launch_scheduled, schedule_or, launch_core, pop_queued, launch_next, drain, drain_queue,
  drain_after,
}
use agent_phonon.Scheduler.Resume.{launch_attempt}

-- The schedules and the ids of two states are the same.
pub record Untouched (e f : Engine) : Type 0 where
  pub schedules : f.schedules ≡ e.schedules
  pub next_run : f.next_run ≡ e.next_run

pub Untouched-trans : {e f g : Engine} → Untouched e f → Untouched f g → Untouched e g
Untouched-trans h k = record {
  schedules = cc (h.schedules, k.schedules);
  next_run = cc (h.next_run, k.next_run);
}

pub untouched : (e f : Engine) → f.schedules ≡ e.schedules → f.next_run ≡ e.next_run → Untouched e f
untouched e f schedules next_run = record { schedules = schedules; next_run = next_run }

assert_run_owner-Untouched :
    (e : Engine) (rt : RunRuntime) (now : ℕ) → Untouched e (assert_run_owner e rt now).0
unfolding assert_run_owner drop_runtime detach_mappings remove_from_queue
assert_run_owner-Untouched e rt now =
    let (db, owned) =
      renew_run_lease e.db rt.run_id e.tenant_id e.owner_id rt.owner_epoch now e.lease_ms in
    if_both (λ (q : Engine × Bool). Untouched e q.0) owned (λ _. untouched e _ refl refl)
      (λ _. untouched e _ refl refl)

pub safe_emit-Untouched : (e : Engine) (emission : Emission) → Untouched e (safe_emit e emission)
unfolding safe_emit
safe_emit-Untouched e emission =
    if_both (λ (q : Engine). Untouched e q) e.dispatch_only (λ _. untouched e e refl refl)
      (λ _. untouched e _ refl refl)

write_finished-Untouched :
    (e : Engine) (rt : RunRuntime) (status : RunStatus) (reason : Option Reason)
    (usage : Option (List ℕ)) (emits : Bool) (now : ℕ)
    → Untouched e (write_finished e rt status reason usage emits now)
unfolding write_finished safe_emit release
write_finished-Untouched e rt status reason usage emits now =
    untouched e _ (ground arith) (ground arith)

finish_found-Untouched :
    (e : Engine) (found : Option RunRuntime) (status : RunStatus) (reason : Option Reason)
    (usage : Option (List ℕ)) (emits : Bool) (now : ℕ)
    → Untouched e (finish_found e found status reason usage emits now).0
unfolding finish_found detach_mappings remove_from_queue
finish_found-Untouched e none status reason usage emits now = untouched e e refl refl
finish_found-Untouched e (some rt) status reason usage emits now =
    let left = remove_from_queue (detach_mappings e rt) rt in
    let written = write_finished-Untouched left rt status reason usage emits now in
    if_both (λ (q : Engine × Bool). Untouched e q.0) (is_terminal rt.status)
      (λ _. untouched e e refl refl) (λ _. untouched e _ written.schedules written.next_run)

pub finish_core-Untouched :
    (e : Engine) (run : ℕ) (status : RunStatus) (reason : Option Reason) (usage : Option (List ℕ))
    (emits : Bool) (now : ℕ)
    → Untouched e (finish_core e run status reason usage emits now).0
unfolding finish_core
finish_core-Untouched e run status reason usage emits now =
    finish_found-Untouched e (find_runtime e.runtimes run) status reason usage emits now

fail_owned-Untouched :
    (e : Engine) (rt : RunRuntime) (error : Reason) (phase : RetryPhase) (now : ℕ)
    → Untouched e (fail_owned e rt error phase now).0
unfolding fail_owned detach_mappings relinquish change_runtime persist_runtime
fail_owned-Untouched e rt error phase now =
    let audited = failed_runtime rt error phase now in
    let left = relinquish (change_runtime (detach_mappings e rt) audited) rt in
    let ended = finish_core-Untouched left rt.run_id failed (some error) none true now in
    if_both (λ (q : Engine × Bool). Untouched e q.0) (ltb rt.attempt rt.max_attempts)
      (λ _. untouched e _ refl refl) (λ _. untouched e _ ended.schedules ended.next_run)

fail_found-Untouched :
    (e : Engine) (found : Option RunRuntime) (error : Reason) (phase : RetryPhase) (now : ℕ)
    → Untouched e (fail_found e found error phase now).0
unfolding fail_found
fail_found-Untouched e none error phase now = untouched e e refl refl
fail_found-Untouched e (some rt) error phase now =
    let (checked, owned) = assert_run_owner e rt now in
    let one = assert_run_owner-Untouched e rt now in
    let P = λ (q : Engine × Bool). Untouched e q.0 in
    if_both P (e.disposed || is_terminal rt.status) (λ _. untouched e e refl refl)
      (λ _.
        if_both P owned (λ _. Untouched-trans one (fail_owned-Untouched checked rt error phase now))
          (λ _. one))

fail_core-Untouched :
    (e : Engine) (run : ℕ) (error : Reason) (phase : RetryPhase) (now : ℕ)
    → Untouched e (fail_core e run error phase now).0
unfolding fail_core
fail_core-Untouched e run error phase now =
    fail_found-Untouched e (find_runtime e.runtimes run) error phase now

mark_running-Untouched :
    (e : Engine) (rt : RunRuntime) (now : ℕ) → Untouched e (mark_running e rt now)
unfolding mark_running change_runtime persist_runtime
mark_running-Untouched e rt now =
    let told = safe_emit-Untouched _ _ in untouched e _ told.schedules told.next_run

launch_workflow-Untouched :
    (e : Engine) (rt : RunRuntime) (s : Schedule) (plan : Option ℕ) (now : ℕ)
    → Untouched e (launch_workflow e rt s plan now).0
unfolding launch_workflow
launch_workflow-Untouched e rt s none now = fail_core-Untouched e rt.run_id _ launch now
launch_workflow-Untouched e rt s (some plan) now =
    if_both (λ (q : Engine × Bool). Untouched e q.0) e.options.workflows
      (λ _. untouched e _ refl refl)
      (λ _. fail_core-Untouched e rt.run_id workflows_unavailable launch now)

launch_in-Untouched :
    (e : Engine) (rt : RunRuntime) (s : Schedule) (cwd : Result (List ℕ) (List ℕ)) (now : ℕ)
    → Untouched e (launch_in e rt s cwd now).0
unfolding launch_in
launch_in-Untouched e rt s (err thrown) now =
    fail_core-Untouched e rt.run_id (said thrown) launch now
launch_in-Untouched e rt s (ok cwd) now = untouched e _ refl refl

launch_session-Untouched :
    (e : Engine) (rt : RunRuntime) (s : Schedule) (now : ℕ)
    → Untouched e (launch_session e rt s now).0
unfolding launch_session
launch_session-Untouched e rt s now =
    if_both (λ (q : Engine × Bool). Untouched e q.0) e.options.engine
      (λ _. launch_in-Untouched e rt s (e.options.resolve_cwd s.target.project) now)
      (λ _. fail_core-Untouched e rt.run_id cannot_execute launch now)

launch_target-Untouched :
    (e : Engine) (rt : RunRuntime) (s : Schedule) (d : Option ScheduleDispatch) (kind : RunKind)
    (now : ℕ)
    → Untouched e (launch_target e rt s d kind now).0
unfolding launch_target
launch_target-Untouched e rt s (some d) kind now =
    if_both (λ (q : Engine × Bool). Untouched e q.0) (offers_dispatch s.target s.target.dispatch d)
      (λ _. mark_running-Untouched e rt now)
      (λ _. fail_core-Untouched e rt.run_id definition_changed launch now)
launch_target-Untouched e rt s none workflow_run now =
    launch_workflow-Untouched e rt s s.target.plan now
launch_target-Untouched e rt s none session_run now = launch_session-Untouched e rt s now
launch_target-Untouched e rt s none dispatch_run now = launch_session-Untouched e rt s now

launch_scheduled-Untouched :
    (e : Engine) (rt : RunRuntime) (s : Option Schedule) (now : ℕ)
    → Untouched e (launch_scheduled e rt s now).0
unfolding launch_scheduled change_runtime persist_runtime
launch_scheduled-Untouched e rt none now =
    finish_core-Untouched e rt.run_id cancelled (some deleted_before_launch) none true now
launch_scheduled-Untouched e rt (some s) now =
    let begun = begin_attempt rt s now in
    let aimed =
      launch_target-Untouched (persist_runtime (change_runtime e begun) begun none none now) begun s
        begun.dispatch s.target.run_kind now in
    if_both (λ (q : Engine × Bool). Untouched e q.0) s.enabled
      (λ _. untouched e _ aimed.schedules aimed.next_run)
      (λ _. finish_core-Untouched e rt.run_id cancelled (some disabled_before_launch) none true now)

launch_core-Untouched :
    (e : Engine) (rt : RunRuntime) (initial : Option Schedule) (now : ℕ)
    → Untouched e (launch_core e rt initial now).0
unfolding launch_core
launch_core-Untouched e rt initial now =
    let (checked, owned) = assert_run_owner e rt now in
    let one = assert_run_owner-Untouched e rt now in
    let P = λ (q : Engine × Bool). Untouched e q.0 in
    if_both P (e.disposed || is_terminal rt.status) (λ _. untouched e e refl refl)
      (λ _.
        if_both P owned
          (λ _. Untouched-trans one (
            launch_scheduled-Untouched checked rt
              (schedule_or (find_schedule e.schedules rt.schedule_id e.tenant_id) initial) now))
          (λ _. one))

launch_next-Untouched :
    (e : Engine) (next : Option RunRuntime) (now : ℕ) → Untouched e (launch_next e next now).0
unfolding launch_next
launch_next-Untouched e none now = untouched e e refl refl
launch_next-Untouched e (some rt) now = launch_core-Untouched e rt none now

drain-Untouched :
    (fuel : ℕ) (e : Engine) (schedule now : ℕ) → Untouched e (drain fuel e schedule now)
unfolding drain
drain-Untouched zero e schedule now = untouched e e refl refl
drain-Untouched (suc fuel) e schedule now =
    let (next, left) = pop_queued e.runtimes (queue_of e.queues schedule) in
    let taken = record e { queues = store_queue e.queues schedule left } in
    let (launched, ended) = launch_next taken next now in
    let one = launch_next-Untouched taken next now in
    let kept = untouched e launched one.schedules one.next_run in
    let P = λ (q : Engine). Untouched e q in
    if_both P (e.disposed || has_active e.runtimes schedule) (λ _. untouched e e refl refl)
      (λ _.
        if_both P ended (λ _. Untouched-trans kept (drain-Untouched fuel launched schedule now))
          (λ _. kept))

drain_after-Untouched :
    (e : Engine) (next : Engine × Bool) (schedule now : ℕ)
    → Untouched e next.0
    → Untouched e (drain_after next schedule now)
unfolding drain_after drain_queue
drain_after-Untouched e (f, ended) schedule now k =
    if_both (λ (q : Engine). Untouched e q) ended
      (λ _.
        Untouched-trans k (drain-Untouched (length (queue_of f.queues schedule)) f schedule now))
      (λ _. k)

pub launch_attempt-Untouched :
    (e : Engine) (rt : RunRuntime) (initial : Option Schedule) (now : ℕ)
    → Untouched e (launch_attempt e rt initial now)
unfolding launch_attempt
launch_attempt-Untouched e rt initial now =
    drain_after-Untouched e _ rt.schedule_id now (launch_core-Untouched e rt initial now)
