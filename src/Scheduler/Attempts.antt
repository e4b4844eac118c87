-- ===== src/Scheduler/Attempts.antt =====
-- What the failure of an attempt keeps, in packages/core/src/scheduler-engine.ts.
use agent_phonon.Base.{ℕ, ◌≡◌, refl, Bool, true, ◌||◌, Option, none, some, arith, if_both, ltb}
use agent_phonon.Store.Runs.Rows.{failed, Reason, RetryPhase}
use agent_phonon.Store.Runs.{is_terminal}
use agent_phonon.Scheduler.State.{RunRuntime, Engine}
use agent_phonon.Scheduler.Tables.{find_runtime}
use agent_phonon.Scheduler.Finish.{persist_runtime, detach_mappings, assert_run_owner}
use agent_phonon.Scheduler.Launch.{
  change_runtime, relinquish, failed_runtime, retry_runtime, fail_owned, fail_found, fail_core,
}
use agent_phonon.Scheduler.Counts.{
  attempts_ok, bounded, alive-put_runtime, bounded-put_runtime, bounded-find_runtime,
}
use agent_phonon.Scheduler.Keeps.{
  Keeps, Keeps-trans, unchanged, assert_run_owner-Keeps, finish_core-Keeps,
}

pub change_runtime-Keeps :
    (e : Engine) (rt : RunRuntime)
    → bounded e.runtimes ≡ true
    → attempts_ok rt ≡ true
    → Keeps e (change_runtime e rt)
unfolding change_runtime
change_runtime-Keeps e rt b good = record {
  total = λ id. omega (arith, alive-put_runtime e.runtimes rt id);
  next = refl;
  bounds = bounded-put_runtime e.runtimes rt b good;
  private = λ d. d;
}

persist_runtime-Keeps :
    (e : Engine) (rt : RunRuntime) (exit_reason error : Option Reason) (now : ℕ)
    → bounded e.runtimes ≡ true
    → Keeps e (persist_runtime e rt exit_reason error now)
unfolding persist_runtime
persist_runtime-Keeps e rt exit_reason error now b = unchanged e _ b refl refl refl

-- A change of the runtime that is written through.
pub change_persist-Keeps :
    (e : Engine) (rt : RunRuntime) (exit_reason error : Option Reason) (now : ℕ)
    → bounded e.runtimes ≡ true
    → attempts_ok rt ≡ true
    → Keeps e (persist_runtime (change_runtime e rt) rt exit_reason error now)
change_persist-Keeps e rt exit_reason error now b good =
    let changed = change_runtime-Keeps e rt b good in
    Keeps-trans changed
      (persist_runtime-Keeps (change_runtime e rt) rt exit_reason error now changed.bounds)

failed_runtime-ok :
    (rt : RunRuntime) (error : Reason) (phase : RetryPhase) (now : ℕ)
    → attempts_ok rt ≡ true
    → attempts_ok (failed_runtime rt error phase now) ≡ true
unfolding failed_runtime attempts_ok
failed_runtime-ok rt error phase now good = good

-- A runtime that waits for a retry has an attempt left.
retry_runtime-ok :
    (rt : RunRuntime) (now : ℕ)
    → attempts_ok rt ≡ true
    → ltb rt.attempt rt.max_attempts ≡ true
    → attempts_ok (retry_runtime rt now) ≡ true
unfolding retry_runtime attempts_ok
retry_runtime-ok rt now good left = ground (arith, good, left)

failed_left :
    (rt : RunRuntime) (error : Reason) (phase : RetryPhase) (now : ℕ)
    → ltb rt.attempt rt.max_attempts ≡ true
    → ltb
        (failed_runtime rt error phase now).attempt
        (failed_runtime rt error phase now).max_attempts
      ≡ true
unfolding failed_runtime
failed_left rt error phase now left = left

detach_mappings-Keeps :
    (e : Engine) (rt : RunRuntime) → bounded e.runtimes ≡ true → Keeps e (detach_mappings e rt)
unfolding detach_mappings
detach_mappings-Keeps e rt b = unchanged e _ b refl refl refl

relinquish-Keeps :
    (e : Engine) (rt : RunRuntime) → bounded e.runtimes ≡ true → Keeps e (relinquish e rt)
unfolding relinquish
relinquish-Keeps e rt b = unchanged e _ b refl refl refl

fail_owned-Keeps :
    (e : Engine) (rt : RunRuntime) (error : Reason) (phase : RetryPhase) (now : ℕ)
    → bounded e.runtimes ≡ true
    → attempts_ok rt ≡ true
    → Keeps e (fail_owned e rt error phase now).0
unfolding fail_owned
fail_owned-Keeps e rt error phase now b good =
    let audited = failed_runtime rt error phase now in
    let fine = failed_runtime-ok rt error phase now good in
    let detached = detach_mappings e rt in
    let left = relinquish (change_runtime detached audited) rt in
    let one : Keeps e detached = detach_mappings-Keeps e rt b in
    let two = change_runtime-Keeps detached audited one.bounds fine in
    let three = relinquish-Keeps (change_runtime detached audited) rt two.bounds in
    let kept = Keeps-trans one (Keeps-trans two three) in
    if_both (λ (q : Engine × Bool). Keeps e q.0) (ltb rt.attempt rt.max_attempts)
      (λ lt. Keeps-trans kept (
        change_persist-Keeps left (retry_runtime audited now) _ _ now kept.bounds
          (retry_runtime-ok audited now fine (failed_left rt error phase now lt))))
      (λ _.
        Keeps-trans kept
          (finish_core-Keeps left rt.run_id failed (some error) none true now kept.bounds))

fail_found-Keeps :
    (e : Engine) (k : ℕ) (found : Option RunRuntime) (error : Reason) (phase : RetryPhase) (now : ℕ)
    → bounded e.runtimes ≡ true
    → find_runtime e.runtimes k ≡ found
    → Keeps e (fail_found e found error phase now).0
unfolding fail_found
fail_found-Keeps e k none error phase now b h = unchanged e e b refl refl refl
fail_found-Keeps e k (some rt) error phase now b h =
    let (checked, owned) = assert_run_owner e rt now in
    let one = assert_run_owner-Keeps e rt now b in
    let good = bounded-find_runtime e.runtimes k rt b h in
    let P = λ (q : Engine × Bool). Keeps e q.0 in
    if_both P (e.disposed || is_terminal rt.status) (λ _. unchanged e e b refl refl refl)
      (λ _.
        if_both P owned
          (λ _. Keeps-trans one (fail_owned-Keeps checked rt error phase now one.bounds good))
          (λ _. one))

pub fail_core-Keeps :
    (e : Engine) (run : ℕ) (error : Reason) (phase : RetryPhase) (now : ℕ)
    → bounded e.runtimes ≡ true
    → Keeps e (fail_core e run error phase now).0
unfolding fail_core
fail_core-Keeps e run error phase now b =
    fail_found-Keeps e run (find_runtime e.runtimes run) error phase now b refl
