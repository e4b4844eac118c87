-- ===== src/Scheduler/Limits.antt =====
-- What an attempt counts for, and what the failure of the last one does, in
-- packages/core/src/scheduler-engine.ts.
use agent_phonon.Base.{
  sym, subst, inl, inr, Bool-cases, ℕ, ◌+◌, ◌≤◌, ◌≡◌, refl, Bool, true, ◌||◌, Option, none, some,
  arith, if_both, if◌then◌else◌, ◌==◌, ltb, List, [], ◌∷◌,
}
use agent_phonon.Store.Runs.Rows.{failed, retrying_after, RunStatus, Reason, RetryPhase}
use agent_phonon.Store.Runs.{is_terminal}
use agent_phonon.Scheduler.State.{Schedule, SchedulePolicy, RunRuntime, Engine}
use agent_phonon.Scheduler.Tables.{find_runtime, put_runtime}
use agent_phonon.Scheduler.Finish.{
  detach_mappings, remove_from_queue, persist_runtime, finish_found, finish_core,
}
use agent_phonon.Scheduler.Launch.{
  change_runtime, relinquish, failed_runtime, retry_runtime, fail_owned, begin_attempt,
}
use agent_phonon.Scheduler.Counts.{find_runtime-id, alive, alive-put_runtime, alive-delete_found}
use agent_phonon.Scheduler.Keeps.{write_finished-same}

-- One attempt more than the retries of the policy; without a policy there are none.
abbrev pub attempt_limit : Option SchedulePolicy → ℕ
attempt_limit none = 1
attempt_limit (some policy) = 1 + policy.max_retries

-- An attempt that begins counts one more; the first one takes its limit from the schedule.
abbrev pub Counts : RunRuntime → Schedule → RunRuntime → Type 0
Counts rt s begun =
    (begun.attempt ≡ rt.attempt + 1)
    × (begun.max_attempts ≡ (if rt.attempt == 0 then attempt_limit s.policy else rt.max_attempts))

pub begin_attempt-Counts :
    (rt : RunRuntime) (s : Schedule) (now : ℕ) → Counts rt s (begin_attempt rt s now)
unfolding begin_attempt
begin_attempt-Counts rt s now = (refl, ground arith)

find_runtime-put :
    (runtimes : List RunRuntime) (run : ℕ) (old new : RunRuntime)
    → find_runtime runtimes run ≡ some old
    → new.run_id ≡ run
    → find_runtime (put_runtime runtimes new) run ≡ some new
unfolding find_runtime put_runtime
find_runtime-put [] run old new h here = cc
find_runtime-put (x ∷ runtimes) run old new h here =
    ground (arith, h, here, find_runtime-put runtimes run old new)

finish_found-alive :
    (e : Engine) (rt : RunRuntime) (status : RunStatus) (reason : Option Reason) (now : ℕ)
    → find_runtime e.runtimes rt.run_id ≡ some rt
    → alive e.runtimes rt.run_id ≤ 1
    → alive (finish_found e (some rt) status reason none true now).0.runtimes rt.run_id
      ≤ (if is_terminal rt.status then 1 else 0)
unfolding finish_found detach_mappings remove_from_queue
finish_found-alive e rt status reason now h one =
    let left = remove_from_queue (detach_mappings e rt) rt in
    let same = write_finished-same left rt status reason none true now in
    elim (Bool-cases (is_terminal rt.status)) [
      | inl ended ↦ rw ended one
      | inr open_still ↦
          rw (open_still, same.0)
            (ground (arith, alive-delete_found e.runtimes rt.run_id rt.run_id rt h, one))
    ]

finish_core-alive :
    (e : Engine) (run : ℕ) (rt : RunRuntime) (status : RunStatus) (reason : Option Reason) (now : ℕ)
    → find_runtime e.runtimes run ≡ some rt
    → rt.run_id ≡ run
    → alive e.runtimes run ≤ 1
    → alive (finish_core e run status reason none true now).0.runtimes run
      ≤ (if is_terminal rt.status then 1 else 0)
unfolding finish_core
finish_core-alive e run rt status reason now h here one =
    subst
      (λ (k : ℕ).
        find_runtime e.runtimes k ≡ some rt
        → alive e.runtimes k ≤ 1
        → alive (finish_found e (find_runtime e.runtimes k) status reason none true now).0.runtimes
            k
          ≤ (if is_terminal rt.status then 1 else 0))
      here (λ g o. rw g (finish_found-alive e rt status reason now g o)) h one

failed_runtime-id :
    (rt : RunRuntime) (error : Reason) (phase : RetryPhase) (now : ℕ)
    → (failed_runtime rt error phase now).run_id ≡ rt.run_id
unfolding failed_runtime
failed_runtime-id rt error phase now = refl

retry_runtime-alive :
    (e : Engine) (rt : RunRuntime) (reason error : Option Reason) (now run : ℕ)
    → alive (persist_runtime (change_runtime e rt) rt reason error now).runtimes run
      ≡ alive e.runtimes run
unfolding persist_runtime change_runtime
retry_runtime-alive e rt reason error now run = alive-put_runtime e.runtimes rt run

left_behind :
    (e : Engine) (rt audited : RunRuntime)
    → (relinquish (change_runtime (detach_mappings e rt) audited) rt).runtimes
      ≡ put_runtime e.runtimes audited
unfolding relinquish change_runtime detach_mappings
left_behind e rt audited = refl

failed_runtime-status :
    (rt : RunRuntime) (error : Reason) (phase : RetryPhase) (now : ℕ)
    → (failed_runtime rt error phase now).status ≡ rt.status
unfolding failed_runtime
failed_runtime-status rt error phase now = refl

-- A failed attempt leaves the run alive if attempts are left, or if it had ended before.
fail_owned-alive :
    (e : Engine) (rt : RunRuntime) (error : Reason) (phase : RetryPhase) (now : ℕ)
    → find_runtime e.runtimes rt.run_id ≡ some rt
    → alive e.runtimes rt.run_id ≤ 1
    → alive (fail_owned e rt error phase now).0.runtimes rt.run_id
      ≤ (if ltb rt.attempt rt.max_attempts || is_terminal rt.status then 1 else 0)
unfolding fail_owned
fail_owned-alive e rt error phase now h one =
    let run = rt.run_id in
    let audited = failed_runtime rt error phase now in
    let left = relinquish (change_runtime (detach_mappings e rt) audited) rt in
    let same = left_behind e rt audited in
    let named = failed_runtime-id rt error phase now in
    let kept : alive left.runtimes run ≤ 1 =
      rw (same, alive-put_runtime e.runtimes audited run) one in
    let found : find_runtime left.runtimes run ≡ some audited =
      rw same (find_runtime-put e.runtimes run rt audited h named) in
    let ended = finish_core-alive left run audited failed (some error) now found named kept in
    let status = failed_runtime-status rt error phase now in
    if_both
      (λ (q : Engine × Bool).
        alive q.0.runtimes run
        ≤ (if ltb rt.attempt rt.max_attempts || is_terminal rt.status then 1 else 0))
      (ltb rt.attempt rt.max_attempts)
      (λ more. ground (
        arith,
        more,
        kept,
        retry_runtime-alive left (retry_runtime audited now)
            (some (retrying_after rt.attempt error)) (some error) now run,
      ))
      (λ last. rw (last, sym status) ended)

-- The same, of a run that is looked up.
pub fail_owned-last :
    (e : Engine) (run : ℕ) (rt : RunRuntime) (error : Reason) (phase : RetryPhase) (now : ℕ)
    → find_runtime e.runtimes run ≡ some rt
    → alive e.runtimes run ≤ 1
    → alive (fail_owned e rt error phase now).0.runtimes run
      ≤ (if ltb rt.attempt rt.max_attempts || is_terminal rt.status then 1 else 0)
fail_owned-last e run rt error phase now h one =
    subst
      (λ (k : ℕ).
        find_runtime e.runtimes k ≡ some rt
        → alive e.runtimes k ≤ 1
        → alive (fail_owned e rt error phase now).0.runtimes k
          ≤ (if ltb rt.attempt rt.max_attempts || is_terminal rt.status then 1 else 0))
      (find_runtime-id e.runtimes run rt h) (fail_owned-alive e rt error phase now) h one
