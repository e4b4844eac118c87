-- ===== src/Scheduler/Disposal.antt =====
-- What renewals of leases, the calls on runs and the end of a scheduler keep, in
-- packages/core/src/scheduler-engine.ts.
use agent_phonon.Base.{
  ℕ, ◌+◌, ◌≤◌, ◌≡◌, refl, Bool, true, false, not, ◌&&◌, ◌||◌, List, [], ◌∷◌, Option, none, some,
  arith, if◌then◌else◌, if_both,
}
use agent_phonon.Store.Runs.Rows.{failed, cancelled, Reason, queued_cancelled}
use agent_phonon.Store.Runs.{is_terminal}
use agent_phonon.Scheduler.State.{RunRuntime, Engine, Emission}
use agent_phonon.Scheduler.Tables.{is_queued, is_retrying}
use agent_phonon.Scheduler.Shape.{is_some, is_full}
use agent_phonon.Scheduler.Finish.{
  detach_mappings, remove_from_queue, release, finish_core, cancel_execution,
}
use agent_phonon.Scheduler.Shape.{is_some, is_full}
use agent_phonon.Scheduler.Calls.{
  subscribe_for, subscribe, unsubscribe_for, unsubscribe, acked_runtime, ack_for, ack,
  retire_runtime, retire_all, stop, dispose, renew_lease, renew_leases, renew_run_leases,
  retire_execution, retire_executions, detach_dispatch_clock,
}
use agent_phonon.Scheduler.Counts.{
  finished, alive, attempts_ok, bounded, alive-delete_runtime, bounded-delete_runtime,
}
use agent_phonon.Scheduler.Keeps.{
  Keeps-trans, unchanged, assert_run_owner-Keeps, finish_core-Keeps, cancel_execution-Keeps, Keeps,
}
use agent_phonon.Scheduler.Attempts.{change_runtime-Keeps}
use agent_phonon.Scheduler.Outside.{Good, find_runtime-Good}

retire_runtime-Keeps :
    (e : Engine) (rt : RunRuntime) (reason : Reason) (now : ℕ)
    → bounded e.runtimes ≡ true
    → Keeps e (retire_runtime e rt reason now)
unfolding retire_runtime detach_mappings remove_from_queue release
retire_runtime-Keeps e rt reason now b =
    let queued = is_queued rt.phase in
    let status = if queued then cancelled else failed in
    let told = some (if queued then queued_cancelled reason else reason) in
    let one = finish_core-Keeps e rt.run_id status told none false now b in
    let (ended, _) = finish_core e rt.run_id status told none false now in
    let P = λ (q : Engine). Keeps e q in
    let two : Keeps e (
        if (is_some rt.dispatch || is_some rt.workflow_id || is_retrying rt.phase)
          && not (is_terminal rt.status)
        then release e rt
        else if queued
        then ended
        else cancel_execution ended rt reason) =
      if_both P
        ((is_some rt.dispatch || is_some rt.workflow_id || is_retrying rt.phase)
          && not (is_terminal rt.status))
        (λ _. unchanged e _ b refl refl refl)
        (λ _.
          if_both P queued (λ _. one)
            (λ _. Keeps-trans one (cancel_execution-Keeps ended rt reason one.bounds))) in
    record {
      total = λ id. omega (arith, two.total id, alive-delete_runtime _ rt.run_id id);
      next = two.next;
      bounds = bounded-delete_runtime _ rt.run_id two.bounds;
      private = λ d. two.private d;
    }

retire_all-Keeps :
    (e : Engine) (runtimes : List RunRuntime) (reason : Reason) (now : ℕ)
    → bounded e.runtimes ≡ true
    → Keeps e (retire_all e runtimes reason now)
unfolding retire_all
retire_all-Keeps e [] reason now b = unchanged e e b refl refl refl
retire_all-Keeps e (rt ∷ runtimes) reason now b =
    let one = retire_runtime-Keeps e rt reason now b in
    Keeps-trans one
      (retire_all-Keeps (retire_runtime e rt reason now) runtimes reason now one.bounds)

-- The runtimes that are left at the end are dropped.
cleared :
    (emitted : List Emission) (runtimes : List RunRuntime) (id : ℕ) {n : ℕ}
    → finished emitted id + alive runtimes id ≤ n
    → finished emitted id + alive [] id ≤ n
unfolding alive
cleared emitted runtimes id h = omega (arith, h)

pub dispose-Keeps :
    (e : Engine) (reason : Reason) (now : ℕ)
    → bounded e.runtimes ≡ true
    → Keeps e (dispose e reason now)
unfolding dispose stop bounded
dispose-Keeps e reason now b =
    let stopped = stop (record e { disposed = true }) in
    let one =
      Keeps-trans (unchanged e stopped b refl refl refl)
        (retire_all-Keeps stopped stopped.runtimes reason now b) in
    if_both (λ (q : Engine). Keeps e q) e.disposed (λ _. unchanged e e b refl refl refl)
      (λ _. record {
        total = λ id. cleared _ _ id (one.total id);
        next = one.next;
        bounds = refl;
        private = λ d. one.private d;
      })

renew_lease-Keeps :
    (e : Engine) (rt : RunRuntime) (now : ℕ)
    → bounded e.runtimes ≡ true
    → Keeps e (renew_lease e rt now)
unfolding renew_lease
renew_lease-Keeps e rt now b =
    if_both (λ (q : Engine). Keeps e q) (is_terminal rt.status)
      (λ _. unchanged e e b refl refl refl) (λ _. assert_run_owner-Keeps e rt now b)

renew_leases-Keeps :
    (e : Engine) (runtimes : List RunRuntime) (now : ℕ)
    → bounded e.runtimes ≡ true
    → Keeps e (renew_leases e runtimes now)
unfolding renew_leases
renew_leases-Keeps e [] now b = unchanged e e b refl refl refl
renew_leases-Keeps e (rt ∷ runtimes) now b =
    let one = renew_lease-Keeps e rt now b in
    Keeps-trans one (renew_leases-Keeps (renew_lease e rt now) runtimes now one.bounds)

pub renew_run_leases-Keeps :
    (e : Engine) (now : ℕ) → bounded e.runtimes ≡ true → Keeps e (renew_run_leases e now)
unfolding renew_run_leases
renew_run_leases-Keeps e now b =
    if_both (λ (q : Engine). Keeps e q) e.disposed (λ _. unchanged e e b refl refl refl)
      (λ _. renew_leases-Keeps e e.runtimes now b)

retire_execution-Keeps :
    (e : Engine) (rt : RunRuntime) (reason : Reason) (now : ℕ)
    → bounded e.runtimes ≡ true
    → Keeps e (retire_execution e rt reason now)
unfolding retire_execution
retire_execution-Keeps e rt reason now b =
    if_both (λ (q : Engine). Keeps e q) (is_some rt.dispatch) (λ _. unchanged e e b refl refl refl)
      (λ _. retire_runtime-Keeps e rt reason now b)

retire_executions-Keeps :
    (e : Engine) (runtimes : List RunRuntime) (reason : Reason) (now : ℕ)
    → bounded e.runtimes ≡ true
    → Keeps e (retire_executions e runtimes reason now)
unfolding retire_executions
retire_executions-Keeps e [] reason now b = unchanged e e b refl refl refl
retire_executions-Keeps e (rt ∷ runtimes) reason now b =
    let one = retire_execution-Keeps e rt reason now b in
    Keeps-trans one
      (retire_executions-Keeps (retire_execution e rt reason now) runtimes reason now one.bounds)

pub detach_dispatch_clock-Keeps :
    (e : Engine) (reason : Reason) (now : ℕ)
    → bounded e.runtimes ≡ true
    → Keeps e (detach_dispatch_clock e reason now)
unfolding detach_dispatch_clock
detach_dispatch_clock-Keeps e reason now b =
    if_both (λ (q : Engine). Keeps e q) (e.disposed || e.dispatch_only)
      (λ _. unchanged e e b refl refl refl)
      (λ _.
        Keeps-trans (unchanged e _ b refl refl refl)
          (retire_executions-Keeps _ e.runtimes reason now b))

subscribed-ok :
    (rt : RunRuntime) (on : Bool)
    → attempts_ok rt ≡ true
    → attempts_ok (record rt { subscribed = on }) ≡ true
unfolding attempts_ok
subscribed-ok rt on good = good

acked_runtime-ok :
    (rt : RunRuntime) (last : Option ℕ)
    → attempts_ok rt ≡ true
    → attempts_ok (acked_runtime rt last) ≡ true
unfolding attempts_ok
acked_runtime-ok rt none good = good
acked_runtime-ok rt (some last) good = good

subscribe_for-Keeps :
    (e : Engine) (found : Option RunRuntime)
    → bounded e.runtimes ≡ true
    → Good found
    → Keeps e (subscribe_for e found)
unfolding subscribe_for
subscribe_for-Keeps e none b good = unchanged e e b refl refl refl
subscribe_for-Keeps e (some rt) b good =
    if_both (λ (q : Engine). Keeps e q) (is_full rt.consent)
      (λ _. change_runtime-Keeps e _ b (subscribed-ok rt true good))
      (λ _. unchanged e e b refl refl refl)

pub subscribe-Keeps : (e : Engine) (run : ℕ) → bounded e.runtimes ≡ true → Keeps e (subscribe e run)
unfolding subscribe
subscribe-Keeps e run b = subscribe_for-Keeps e _ b (find_runtime-Good e.runtimes run _ b refl)

unsubscribe_for-Keeps :
    (e : Engine) (found : Option RunRuntime)
    → bounded e.runtimes ≡ true
    → Good found
    → Keeps e (unsubscribe_for e found)
unfolding unsubscribe_for
unsubscribe_for-Keeps e none b good = unchanged e e b refl refl refl
unsubscribe_for-Keeps e (some rt) b good = change_runtime-Keeps e _ b (subscribed-ok rt false good)

pub unsubscribe-Keeps :
    (e : Engine) (run : ℕ) → bounded e.runtimes ≡ true → Keeps e (unsubscribe e run)
unfolding unsubscribe
unsubscribe-Keeps e run b = unsubscribe_for-Keeps e _ b (find_runtime-Good e.runtimes run _ b refl)

ack_for-Keeps :
    (e : Engine) (found : Option RunRuntime) (last : Option ℕ)
    → bounded e.runtimes ≡ true
    → Good found
    → Keeps e (ack_for e found last)
unfolding ack_for
ack_for-Keeps e none last b good = unchanged e e b refl refl refl
ack_for-Keeps e (some rt) last b good = change_runtime-Keeps e _ b (acked_runtime-ok rt last good)

pub ack-Keeps :
    (e : Engine) (run : ℕ) (last : Option ℕ) (finished : Bool)
    → bounded e.runtimes ≡ true
    → Keeps e (ack e run last finished)
unfolding ack
ack-Keeps e run last finished b =
    Keeps-trans (unchanged e _ b refl refl refl)
      (ack_for-Keeps _ _ last b (find_runtime-Good e.runtimes run _ b refl))
