-- ===== src/Scheduler/Launches.antt =====
-- What the launch of an attempt and the draining of a queue keep, in packages/core/src/scheduler-engine.ts.
use agent_phonon.Base.{
  ℕ, zero, suc, ◌≡◌, refl, Bool, true, ◌||◌, List, [], ◌∷◌, Option, none, some, arith, Result, ok,
  err, if_both, ◌==◌, ltb, length,
}
use agent_phonon.Store.Runs.Rows.{
  ScheduleDispatch, cancelled, launch, disabled_before_launch, deleted_before_launch,
  definition_changed, workflows_unavailable, cannot_execute, said,
}
use agent_phonon.Store.Runs.{is_terminal}
use agent_phonon.Scheduler.State.{
  Schedule, RunRuntime, Engine, RunKind, session_run, workflow_run, dispatch_run, run_started,
}
use agent_phonon.Scheduler.Tables.{
  is_queued, find_runtime, has_active, queue_of, store_queue, find_schedule,
}
use agent_phonon.Scheduler.Shape.{runtime_to_run, shape_run_for_push}
use agent_phonon.Scheduler.Finish.{persist_runtime, assert_run_owner}
use agent_phonon.Scheduler.Launch.{
  change_runtime, begin_attempt, offers_dispatch, running_runtime, mark_running, launch_workflow,
  launch_in, launch_session, launch_target, launch_scheduled, schedule_or, launch_core, pop_found,
  pop_queued, launch_next, drain, drain_queue, drain_after,
}
use agent_phonon.Scheduler.Counts.{
  discreet, shape_run_for_push-says_within, attempts_ok, bounded, bounded-find_runtime,
}
use agent_phonon.Scheduler.Attempts.{change_persist-Keeps, fail_core-Keeps}
use agent_phonon.Scheduler.Keeps.{
  Keeps-trans, unchanged, safe_emit-Keeps, assert_run_owner-Keeps, finish_core-Keeps, Keeps,
}

-- A runtime whose next attempt is within its limit.
abbrev pub may_begin : RunRuntime → Bool
may_begin rt = rt.attempt == 0 || ltb rt.attempt rt.max_attempts

begin_attempt-ok :
    (rt : RunRuntime) (s : Schedule) (now : ℕ)
    → attempts_ok rt ≡ true
    → may_begin rt ≡ true
    → attempts_ok (begin_attempt rt s now) ≡ true
unfolding begin_attempt attempts_ok
begin_attempt-ok rt s now good may = ground (arith, good, may)

running_runtime-ok :
    (rt : RunRuntime) → attempts_ok rt ≡ true → attempts_ok (running_runtime rt) ≡ true
unfolding attempts_ok
running_runtime-ok rt good = ground (arith, good)

pub mark_running-Keeps :
    (e : Engine) (rt : RunRuntime) (now : ℕ)
    → bounded e.runtimes ≡ true
    → attempts_ok rt ≡ true
    → Keeps e (mark_running e rt now)
unfolding mark_running discreet
mark_running-Keeps e rt now b good =
    let on = running_runtime rt in
    let one = change_persist-Keeps e on none none now b (running_runtime-ok rt good) in
    Keeps-trans one (
      safe_emit-Keeps (persist_runtime (change_runtime e on) on none none now)
        (run_started (shape_run_for_push (runtime_to_run e on) on.consent) on.consent) one.bounds
        (λ id. refl) (shape_run_for_push-says_within (runtime_to_run e on) on.consent))

launch_workflow-Keeps :
    (e : Engine) (rt : RunRuntime) (s : Schedule) (plan : Option ℕ) (now : ℕ)
    → bounded e.runtimes ≡ true
    → Keeps e (launch_workflow e rt s plan now).0
unfolding launch_workflow
launch_workflow-Keeps e rt s none now b = fail_core-Keeps e rt.run_id _ launch now b
launch_workflow-Keeps e rt s (some plan) now b =
    if_both (λ (q : Engine × Bool). Keeps e q.0) e.options.workflows
      (λ _. unchanged e _ b refl refl refl)
      (λ _. fail_core-Keeps e rt.run_id workflows_unavailable launch now b)

launch_in-Keeps :
    (e : Engine) (rt : RunRuntime) (s : Schedule) (cwd : Result (List ℕ) (List ℕ)) (now : ℕ)
    → bounded e.runtimes ≡ true
    → Keeps e (launch_in e rt s cwd now).0
unfolding launch_in
launch_in-Keeps e rt s (err thrown) now b = fail_core-Keeps e rt.run_id (said thrown) launch now b
launch_in-Keeps e rt s (ok cwd) now b = unchanged e _ b refl refl refl

launch_session-Keeps :
    (e : Engine) (rt : RunRuntime) (s : Schedule) (now : ℕ)
    → bounded e.runtimes ≡ true
    → Keeps e (launch_session e rt s now).0
unfolding launch_session
launch_session-Keeps e rt s now b =
    if_both (λ (q : Engine × Bool). Keeps e q.0) e.options.engine
      (λ _. launch_in-Keeps e rt s (e.options.resolve_cwd s.target.project) now b)
      (λ _. fail_core-Keeps e rt.run_id cannot_execute launch now b)

launch_target-Keeps :
    (e : Engine) (rt : RunRuntime) (s : Schedule) (d : Option ScheduleDispatch) (kind : RunKind)
    (now : ℕ)
    → bounded e.runtimes ≡ true
    → attempts_ok rt ≡ true
    → Keeps e (launch_target e rt s d kind now).0
unfolding launch_target
launch_target-Keeps e rt s (some d) kind now b good =
    if_both (λ (q : Engine × Bool). Keeps e q.0) (offers_dispatch s.target s.target.dispatch d)
      (λ _. mark_running-Keeps e rt now b good)
      (λ _. fail_core-Keeps e rt.run_id definition_changed launch now b)
launch_target-Keeps e rt s none workflow_run now b good =
    launch_workflow-Keeps e rt s s.target.plan now b
launch_target-Keeps e rt s none session_run now b good = launch_session-Keeps e rt s now b
launch_target-Keeps e rt s none dispatch_run now b good = launch_session-Keeps e rt s now b

launch_scheduled-Keeps :
    (e : Engine) (rt : RunRuntime) (s : Option Schedule) (now : ℕ)
    → bounded e.runtimes ≡ true
    → attempts_ok rt ≡ true
    → may_begin rt ≡ true
    → Keeps e (launch_scheduled e rt s now).0
unfolding launch_scheduled
launch_scheduled-Keeps e rt none now b good may =
    finish_core-Keeps e rt.run_id cancelled (some deleted_before_launch) none true now b
launch_scheduled-Keeps e rt (some s) now b good may =
    let begun = begin_attempt rt s now in
    let fine = begin_attempt-ok rt s now good may in
    let one = change_persist-Keeps e begun none none now b fine in
    if_both (λ (q : Engine × Bool). Keeps e q.0) s.enabled
      (λ _. Keeps-trans one (
        launch_target-Keeps (persist_runtime (change_runtime e begun) begun none none now) begun s
          begun.dispatch s.target.run_kind now one.bounds fine))
      (λ _. finish_core-Keeps e rt.run_id cancelled (some disabled_before_launch) none true now b)

pub launch_core-Keeps :
    (e : Engine) (rt : RunRuntime) (initial : Option Schedule) (now : ℕ)
    → bounded e.runtimes ≡ true
    → attempts_ok rt ≡ true
    → may_begin rt ≡ true
    → Keeps e (launch_core e rt initial now).0
unfolding launch_core
launch_core-Keeps e rt initial now b good may =
    let (checked, owned) = assert_run_owner e rt now in
    let one = assert_run_owner-Keeps e rt now b in
    let P = λ (q : Engine × Bool). Keeps e q.0 in
    if_both P (e.disposed || is_terminal rt.status) (λ _. unchanged e e b refl refl refl)
      (λ _.
        if_both P owned
          (λ _. Keeps-trans one (
            launch_scheduled-Keeps checked rt
              (schedule_or (find_schedule e.schedules rt.schedule_id e.tenant_id) initial) now
              one.bounds good may))
          (λ _. one))

-- What is taken from a queue may begin.
abbrev pub Begins : Option RunRuntime → Type 0
Begins none = Unit
Begins (some rt) = (attempts_ok rt ≡ true) × (may_begin rt ≡ true)

queued_may_begin :
    (rt : RunRuntime) → attempts_ok rt ≡ true → is_queued rt.phase ≡ true → may_begin rt ≡ true
unfolding attempts_ok
queued_may_begin rt good waiting = ground (arith, good, waiting)

pop_found-Begins :
    (runtimes : List RunRuntime) (k : ℕ) (found : Option RunRuntime) (ids : List ℕ)
    (later : Option RunRuntime × List ℕ)
    → bounded runtimes ≡ true
    → find_runtime runtimes k ≡ found
    → Begins later.0
    → Begins (pop_found found ids later).0
pop_found-Begins runtimes k none ids later b h rest = rest
pop_found-Begins runtimes k (some rt) ids later b h rest =
    let good = bounded-find_runtime runtimes k rt b h in
    if_both (λ (q : Option RunRuntime × List ℕ). Begins q.0) (is_queued rt.phase)
      (λ waiting. (good, queued_may_begin rt good waiting)) (λ _. rest)

pub pop_queued-Begins :
    (runtimes : List RunRuntime) (ids : List ℕ)
    → bounded runtimes ≡ true
    → Begins (pop_queued runtimes ids).0
unfolding pop_queued
pop_queued-Begins runtimes [] b = tt
pop_queued-Begins runtimes (i ∷ ids) b =
    pop_found-Begins runtimes i (find_runtime runtimes i) ids (pop_queued runtimes ids) b refl
      (pop_queued-Begins runtimes ids b)

launch_next-Keeps :
    (e : Engine) (next : Option RunRuntime) (now : ℕ)
    → bounded e.runtimes ≡ true
    → Begins next
    → Keeps e (launch_next e next now).0
unfolding launch_next
launch_next-Keeps e none now b begins = unchanged e e b refl refl refl
launch_next-Keeps e (some rt) now b begins = launch_core-Keeps e rt none now b begins.0 begins.1

drain-Keeps :
    (fuel : ℕ) (e : Engine) (schedule now : ℕ)
    → bounded e.runtimes ≡ true
    → Keeps e (drain fuel e schedule now)
unfolding drain
drain-Keeps zero e schedule now b = unchanged e e b refl refl refl
drain-Keeps (suc fuel) e schedule now b =
    let (next, left) = pop_queued e.runtimes (queue_of e.queues schedule) in
    let taken = record e { queues = store_queue e.queues schedule left } in
    let begins = pop_queued-Begins e.runtimes (queue_of e.queues schedule) b in
    let (launched, ended) = launch_next taken next now in
    let one =
      Keeps-trans (unchanged e taken b refl refl refl)
        (launch_next-Keeps taken next now b begins) in
    let P = λ (q : Engine). Keeps e q in
    if_both P (e.disposed || has_active e.runtimes schedule) (λ _. unchanged e e b refl refl refl)
      (λ _.
        if_both P ended (λ _. Keeps-trans one (drain-Keeps fuel launched schedule now one.bounds))
          (λ _. one))

-- What ends a run and then drains the queue keeps what the first part keeps.
pub drain_after-Keeps :
    (e : Engine) (next : Engine × Bool) (schedule now : ℕ)
    → Keeps e next.0
    → Keeps e (drain_after next schedule now)
unfolding drain_after drain_queue
drain_after-Keeps e (f, ended) schedule now k =
    if_both (λ (q : Engine). Keeps e q) ended
      (λ _.
        Keeps-trans k (drain-Keeps (length (queue_of f.queues schedule)) f schedule now k.bounds))
      (λ _. k)
