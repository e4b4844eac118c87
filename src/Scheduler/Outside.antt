-- ===== src/Scheduler/Outside.antt =====
-- What the events of sessions, timers and awaits keep, in packages/core/src/scheduler-engine.ts.
use agent_phonon.Base.{
  ℕ, zero, suc, ◌≡◌, refl, Bool, true, false, not, ◌||◌, List, Option, none, some, arith,
  if◌then◌else◌, if_both,
}
use agent_phonon.Store.Runs.Rows.{RunStatus, cancelled, launch, runtime, Reason}
use agent_phonon.Store.Runs.{is_terminal}
use agent_phonon.Scheduler.State.{timeout_of, Schedule, RunRuntime, Engine}
use agent_phonon.Scheduler.Tables.{is_retrying, find_runtime, set}
use agent_phonon.Scheduler.Launch.{change_runtime, running_runtime, mark_running}
use agent_phonon.Scheduler.Resume.{
  finish_run, fail_attempt, launch_attempt, live, armed, session_created_for, session_created,
  workflow_launched_for, workflow_launched, launch_threw, retry_due_for, retry_due, stop_owned,
  timeout_due_for, timeout_due, cancel_for, cancel,
}
use agent_phonon.Scheduler.Counts.{attempts_ok, bounded, bounded-find_runtime}
use agent_phonon.Scheduler.Keeps.{
  Keeps-trans, unchanged, assert_run_owner-Keeps, finish_core-Keeps, cancel_execution-Keeps, Keeps,
}
use agent_phonon.Scheduler.Attempts.{change_runtime-Keeps, fail_core-Keeps}
use agent_phonon.Scheduler.Launches.{
  may_begin, mark_running-Keeps, launch_core-Keeps, drain_after-Keeps,
}

pub finish_run-Keeps :
    (e : Engine) (rt : RunRuntime) (status : RunStatus) (reason : Option Reason)
    (usage : Option (List ℕ)) (now : ℕ)
    → bounded e.runtimes ≡ true
    → Keeps e (finish_run e rt status reason usage now)
unfolding finish_run
finish_run-Keeps e rt status reason usage now b =
    drain_after-Keeps e _ rt.schedule_id now
      (finish_core-Keeps e rt.run_id status reason usage true now b)

pub fail_attempt-Keeps :
    (e : Engine) (rt : RunRuntime) (error : Reason) (now : ℕ)
    → bounded e.runtimes ≡ true
    → Keeps e (fail_attempt e rt error now)
unfolding fail_attempt
fail_attempt-Keeps e rt error now b =
    drain_after-Keeps e _ rt.schedule_id now (fail_core-Keeps e rt.run_id error runtime now b)

pub launch_attempt-Keeps :
    (e : Engine) (rt : RunRuntime) (initial : Option Schedule) (now : ℕ)
    → bounded e.runtimes ≡ true
    → attempts_ok rt ≡ true
    → may_begin rt ≡ true
    → Keeps e (launch_attempt e rt initial now)
unfolding launch_attempt
launch_attempt-Keeps e rt initial now b good may =
    drain_after-Keeps e _ rt.schedule_id now (launch_core-Keeps e rt initial now b good may)

-- What is known of a runtime that was found.
abbrev pub Good : Option RunRuntime → Type 0
Good none = Unit
Good (some rt) = attempts_ok rt ≡ true

pub find_runtime-Good :
    (runtimes : List RunRuntime) (k : ℕ) (found : Option RunRuntime)
    → bounded runtimes ≡ true
    → find_runtime runtimes k ≡ found
    → Good found
find_runtime-Good runtimes k none b h = tt
find_runtime-Good runtimes k (some rt) b h = bounded-find_runtime runtimes k rt b h

pub live-Good : (found : Option RunRuntime) → Good found → Good (live found)
live-Good none good = tt
live-Good (some rt) good = if_both Good (is_terminal rt.status) (λ _. tt) (λ _. good)

unless_disposed-Good :
    (e : Engine) (run : ℕ)
    → bounded e.runtimes ≡ true
    → Good (if e.disposed then none else live (find_runtime e.runtimes run))
unless_disposed-Good e run b =
    if_both Good e.disposed (λ _. tt)
      (λ _. live-Good (find_runtime e.runtimes run) (find_runtime-Good e.runtimes run _ b refl))

held-ok :
    (rt : RunRuntime) (session workflow : Option ℕ)
    → attempts_ok rt ≡ true
    → attempts_ok (record rt { session_id = session; workflow_id = workflow }) ≡ true
unfolding attempts_ok
held-ok rt session workflow good = good

armed-ok :
    (rt : RunRuntime) (timeout_ms : Option ℕ)
    → attempts_ok rt ≡ true
    → attempts_ok (armed (running_runtime rt) timeout_ms) ≡ true
unfolding attempts_ok
armed-ok rt none good = ground (arith, good)
armed-ok rt (some zero) good = ground (arith, good)
armed-ok rt (some (suc ms)) good = ground (arith, good)

session_created_for-Keeps :
    (e : Engine) (found : Option RunRuntime) (session : ℕ) (s : Schedule) (now : ℕ)
    → bounded e.runtimes ≡ true
    → Good found
    → Keeps e (session_created_for e found session s now)
unfolding session_created_for
session_created_for-Keeps e none session s now b good = unchanged e _ b refl refl refl
session_created_for-Keeps e (some rt) session s now b good =
    let held = record rt { session_id = some session } in
    let fine = held-ok rt (some session) rt.workflow_id good in
    let mapped = record e { session_to_run = set e.session_to_run session rt.run_id } in
    let one = mark_running-Keeps mapped held now b fine in
    let on = mark_running mapped held now in
    let two =
      change_runtime-Keeps on (armed (running_runtime held) (timeout_of s.policy)) one.bounds
        (armed-ok held (timeout_of s.policy) fine) in
    Keeps-trans (unchanged e mapped b refl refl refl)
      (Keeps-trans one (Keeps-trans two (unchanged _ _ two.bounds refl refl refl)))

pub session_created-Keeps :
    (e : Engine) (run session : ℕ) (s : Schedule) (now : ℕ)
    → bounded e.runtimes ≡ true
    → Keeps e (session_created e run session s now)
unfolding session_created
session_created-Keeps e run session s now b =
    session_created_for-Keeps e _ session s now b (unless_disposed-Good e run b)

workflow_launched_for-Keeps :
    (e : Engine) (found : Option RunRuntime) (workflow : ℕ) (s : Schedule) (now : ℕ)
    → bounded e.runtimes ≡ true
    → Good found
    → Keeps e (workflow_launched_for e found workflow s now)
unfolding workflow_launched_for
workflow_launched_for-Keeps e none workflow s now b good = unchanged e _ b refl refl refl
workflow_launched_for-Keeps e (some rt) workflow s now b good =
    let held = record rt { workflow_id = some workflow } in
    let fine = held-ok rt rt.session_id (some workflow) good in
    let mapped = record e { workflow_to_run = set e.workflow_to_run workflow rt.run_id } in
    let one = mark_running-Keeps mapped held now b fine in
    let two =
      change_runtime-Keeps (mark_running mapped held now)
        (armed (running_runtime held) (timeout_of s.policy)) one.bounds
        (armed-ok held (timeout_of s.policy) fine) in
    Keeps-trans (unchanged e mapped b refl refl refl) (Keeps-trans one two)

pub workflow_launched-Keeps :
    (e : Engine) (run workflow : ℕ) (s : Schedule) (now : ℕ)
    → bounded e.runtimes ≡ true
    → Keeps e (workflow_launched e run workflow s now)
unfolding workflow_launched
workflow_launched-Keeps e run workflow s now b =
    workflow_launched_for-Keeps e _ workflow s now b (unless_disposed-Good e run b)

pub launch_threw-Keeps :
    (e : Engine) (run schedule : ℕ) (error : Reason) (now : ℕ)
    → bounded e.runtimes ≡ true
    → Keeps e (launch_threw e run schedule error now)
unfolding launch_threw
launch_threw-Keeps e run schedule error now b =
    drain_after-Keeps e _ schedule now (fail_core-Keeps e run error launch now b)

retrying_may_begin :
    (rt : RunRuntime) → attempts_ok rt ≡ true → is_retrying rt.phase ≡ true → may_begin rt ≡ true
unfolding attempts_ok
retrying_may_begin rt good waiting = ground (arith, good, waiting)

timer-ok :
    (rt : RunRuntime) → attempts_ok rt ≡ true → attempts_ok (record rt { timer = none }) ≡ true
unfolding attempts_ok
timer-ok rt good = good

retry_due_for-Keeps :
    (e : Engine) (found : Option RunRuntime) (now : ℕ)
    → bounded e.runtimes ≡ true
    → Good found
    → Keeps e (retry_due_for e found now)
unfolding retry_due_for
retry_due_for-Keeps e none now b good = unchanged e e b refl refl refl
retry_due_for-Keeps e (some rt) now b good =
    let fired = record rt { timer = none } in
    let one = change_runtime-Keeps e fired b (timer-ok rt good) in
    if_both (λ (q : Engine). Keeps e q) (e.disposed || not (is_retrying rt.phase)) (λ _. one)
      (λ waiting. Keeps-trans one (
        launch_attempt-Keeps (change_runtime e fired) fired none now one.bounds (timer-ok rt good)
          (retrying_may_begin fired (timer-ok rt good) (ground (arith, waiting)))))

pub retry_due-Keeps :
    (e : Engine) (run now : ℕ) → bounded e.runtimes ≡ true → Keeps e (retry_due e run now)
unfolding retry_due
retry_due-Keeps e run now b =
    retry_due_for-Keeps e _ now b (find_runtime-Good e.runtimes run _ b refl)

-- An owned run that is stopped.
stop_owned-Keeps :
    (e : Engine) (next : Engine × Bool) (rt : RunRuntime) (status : RunStatus)
    (exit_reason reason : Reason) (now : ℕ)
    → Keeps e next.0
    → Keeps e (stop_owned next rt status exit_reason reason now)
unfolding stop_owned
stop_owned-Keeps e (f, false) rt status exit_reason reason now k = k
stop_owned-Keeps e (f, true) rt status exit_reason reason now k =
    let one = finish_run-Keeps f rt status (some exit_reason) none now k.bounds in
    Keeps-trans k (Keeps-trans one (cancel_execution-Keeps _ rt reason one.bounds))

timeout_due_for-Keeps :
    (e : Engine) (found : Option RunRuntime) (ms now : ℕ)
    → bounded e.runtimes ≡ true
    → Keeps e (timeout_due_for e found ms now)
unfolding timeout_due_for
timeout_due_for-Keeps e none ms now b = unchanged e e b refl refl refl
timeout_due_for-Keeps e (some rt) ms now b =
    if_both (λ (q : Engine). Keeps e q) (e.disposed || is_terminal rt.status)
      (λ _. unchanged e e b refl refl refl)
      (λ _. stop_owned-Keeps e _ rt _ _ _ now (assert_run_owner-Keeps e rt now b))

pub timeout_due-Keeps :
    (e : Engine) (run ms now : ℕ) → bounded e.runtimes ≡ true → Keeps e (timeout_due e run ms now)
unfolding timeout_due
timeout_due-Keeps e run ms now b = timeout_due_for-Keeps e (find_runtime e.runtimes run) ms now b

cancel_for-Keeps :
    (e : Engine) (found : Option RunRuntime) (reason : Reason) (now : ℕ)
    → bounded e.runtimes ≡ true
    → Keeps e (cancel_for e found reason now)
unfolding cancel_for
cancel_for-Keeps e none reason now b = unchanged e e b refl refl refl
cancel_for-Keeps e (some rt) reason now b =
    stop_owned-Keeps e _ rt cancelled reason reason now (assert_run_owner-Keeps e rt now b)

pub cancel-Keeps :
    (e : Engine) (run : ℕ) (reason : Reason) (now : ℕ)
    → bounded e.runtimes ≡ true
    → Keeps e (cancel e run reason now)
unfolding cancel
cancel-Keeps e run reason now b = cancel_for-Keeps e (find_runtime e.runtimes run) reason now b
