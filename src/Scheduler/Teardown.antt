-- ===== src/Scheduler/Teardown.antt =====
-- What changes and deletions of schedules keep, in packages/core/src/scheduler-engine.ts.
use agent_phonon.Base.{
  ℕ, ◌≡◌, refl, Bool, true, not, ◌&&◌, ◌||◌, List, [], ◌∷◌, Option, none, some, Result, ok, err,
  if_both,
}
use agent_phonon.Store.Runs.Rows.{
  cancelled, Reason, schedule_disabled, schedule_deleted, overlap_changed,
}
use agent_phonon.Js.Text.{text_eq}
use agent_phonon.Scheduler.State.{
  overlap_of, Schedule, RunRuntime, Engine, ScheduleTrigger, cron_trigger, webhook_trigger,
  manual_trigger, schedule_changed, schedule_removed,
}
use agent_phonon.Scheduler.Tables.{find_runtime, delete, queue_of, find_schedule}
use agent_phonon.Scheduler.Launch.{is_dispatch, waits}
use agent_phonon.Scheduler.Requests.{is_queue}
use agent_phonon.Scheduler.Schedules.{
  cancel_id, cancel_ids, cancel_queued, requeue, store_schedule, rearm, store_update,
  update_prepared, update_found, update, only_enabled, set_enabled, runtimes_of, delete_run,
  delete_runs, delete_found, delete_schedule, ScheduleUpdate,
}
use agent_phonon.Scheduler.Triggers.{
  delete_schedule_row, masked_trigger, mask_schedule, is_cron, disarm, arm_at, arm_cron,
  ScheduleError,
}
use agent_phonon.Scheduler.Counts.{hides_token, discreet, bounded}
use agent_phonon.Scheduler.Keeps.{
  Keeps-trans, unchanged, safe_emit-Keeps, finish_core-Keeps, cancel_execution-Keeps, Keeps,
}

cancel_id-Keeps :
    (e : Engine) (run : ℕ) (reason : Reason) (now : ℕ)
    → bounded e.runtimes ≡ true
    → Keeps e (cancel_id e run reason now)
unfolding cancel_id
cancel_id-Keeps e run reason now b =
    if_both (λ (q : Engine). Keeps e q) (waits (find_runtime e.runtimes run))
      (λ _. finish_core-Keeps e run cancelled (some reason) none true now b)
      (λ _. unchanged e e b refl refl refl)

cancel_ids-Keeps :
    (e : Engine) (ids : List ℕ) (reason : Reason) (now : ℕ)
    → bounded e.runtimes ≡ true
    → Keeps e (cancel_ids e ids reason now)
unfolding cancel_ids
cancel_ids-Keeps e [] reason now b = unchanged e e b refl refl refl
cancel_ids-Keeps e (run ∷ ids) reason now b =
    let one = cancel_id-Keeps e run reason now b in
    Keeps-trans one (cancel_ids-Keeps (cancel_id e run reason now) ids reason now one.bounds)

cancel_queued-Keeps :
    (e : Engine) (schedule : ℕ) (reason : Reason) (now : ℕ)
    → bounded e.runtimes ≡ true
    → Keeps e (cancel_queued e schedule reason now)
unfolding cancel_queued
cancel_queued-Keeps e schedule reason now b =
    Keeps-trans (unchanged e (record e { queues = delete e.queues schedule }) b refl refl refl) (
      cancel_ids-Keeps (record e { queues = delete e.queues schedule }) (queue_of e.queues schedule)
        reason now b)

disarm-Keeps : (e : Engine) (schedule : ℕ) → bounded e.runtimes ≡ true → Keeps e (disarm e schedule)
unfolding disarm
disarm-Keeps e schedule b = unchanged e _ b refl refl refl

arm_at-Keeps :
    (e : Engine) (schedule : ℕ) (next : Option ℕ) (now : ℕ)
    → bounded e.runtimes ≡ true
    → Keeps e (arm_at e schedule next now)
arm_at-Keeps e schedule none now b = unchanged e e b refl refl refl
arm_at-Keeps e schedule (some next) now b = unchanged e _ b refl refl refl

pub arm_cron-Keeps :
    (e : Engine) (s : Schedule) (now : ℕ) → bounded e.runtimes ≡ true → Keeps e (arm_cron e s now)
unfolding arm_cron
arm_cron-Keeps e s now b =
    let one = disarm-Keeps e s.sid b in
    if_both (λ (q : Engine). Keeps e q)
      (not e.started
        || e.disposed
        || not (is_cron s.trigger)
        || (e.dispatch_only && not (is_dispatch s.target.run_kind)))
      (λ _. unchanged e e b refl refl refl)
      (λ _. Keeps-trans one (arm_at-Keeps (disarm e s.sid) s.sid _ now one.bounds))

store_schedule-Keeps :
    (e : Engine) (s : Schedule) → bounded e.runtimes ≡ true → Keeps e (store_schedule e s)
unfolding store_schedule disarm
store_schedule-Keeps e s b = unchanged e _ b refl refl refl

requeue-Keeps :
    (e : Engine) (s : Schedule) (now : ℕ) → bounded e.runtimes ≡ true → Keeps e (requeue e s now)
unfolding requeue
requeue-Keeps e s now b =
    if_both (λ (q : Engine). Keeps e q) (not s.enabled)
      (λ _. cancel_queued-Keeps e s.sid schedule_disabled now b)
      (λ _.
        if_both (λ (q : Engine). Keeps e q) (is_queue (overlap_of s.policy))
          (λ _. unchanged e e b refl refl refl)
          (λ _. cancel_queued-Keeps e s.sid overlap_changed now b))

pub rearm-Keeps :
    (e : Engine) (s : Schedule) (now : ℕ) → bounded e.runtimes ≡ true → Keeps e (rearm e s now)
unfolding rearm
rearm-Keeps e s now b =
    if_both (λ (q : Engine). Keeps e q) s.enabled (λ _. arm_cron-Keeps e s now b)
      (λ _. unchanged e e b refl refl refl)

masked_trigger-hides_token :
    (trigger : ScheduleTrigger) → hides_token (masked_trigger trigger) ≡ true
unfolding text_eq
masked_trigger-hides_token (cron_trigger expr tz) = refl
masked_trigger-hides_token (webhook_trigger none) = refl
masked_trigger-hides_token (webhook_trigger (some [])) = refl
masked_trigger-hides_token (webhook_trigger (some (c ∷ token))) = refl
masked_trigger-hides_token manual_trigger = refl

pub mask_schedule-hides_token : (s : Schedule) → hides_token (mask_schedule s).trigger ≡ true
unfolding mask_schedule
mask_schedule-hides_token s = masked_trigger-hides_token s.trigger

store_update-Keeps :
    (e : Engine) (s : Schedule) (now : ℕ)
    → bounded e.runtimes ≡ true
    → Keeps e (store_update e s now)
unfolding store_update discreet
store_update-Keeps e s now b =
    let one = store_schedule-Keeps e s b in
    let two = requeue-Keeps (store_schedule e s) s now one.bounds in
    let three = rearm-Keeps (requeue (store_schedule e s) s now) s now two.bounds in
    Keeps-trans one (
      Keeps-trans two (
        Keeps-trans three (
          safe_emit-Keeps (rearm (requeue (store_schedule e s) s now) s now)
            (schedule_changed (mask_schedule s)) three.bounds (λ id. refl)
            (mask_schedule-hides_token s))))

update_prepared-Keeps :
    (e : Engine) (old : Schedule) (given_update : ScheduleUpdate)
    (trigger : Result ScheduleError ScheduleTrigger) (fresh : List ℕ) (now : ℕ)
    → bounded e.runtimes ≡ true
    → Keeps e (update_prepared e old given_update trigger fresh now).0
unfolding update_prepared
update_prepared-Keeps e old given_update (err thrown) fresh now b = unchanged e e b refl refl refl
update_prepared-Keeps e old given_update (ok trigger) fresh now b = store_update-Keeps e _ now b

update_found-Keeps :
    (e : Engine) (found : Option Schedule) (given_update : ScheduleUpdate) (fresh : List ℕ)
    (now : ℕ)
    → bounded e.runtimes ≡ true
    → Keeps e (update_found e found given_update fresh now).0
unfolding update_found
update_found-Keeps e none given_update fresh now b = unchanged e e b refl refl refl
update_found-Keeps e (some old) given_update fresh now b =
    update_prepared-Keeps e old given_update _ fresh now b

pub update-Keeps :
    (e : Engine) (schedule : ℕ) (given_update : ScheduleUpdate) (fresh : List ℕ) (now : ℕ)
    → bounded e.runtimes ≡ true
    → Keeps e (update e schedule given_update fresh now).0
unfolding update
update-Keeps e schedule given_update fresh now b =
    update_found-Keeps e (find_schedule e.schedules schedule e.tenant_id) given_update fresh now b

pub set_enabled-Keeps :
    (e : Engine) (schedule : ℕ) (enabled : Bool) (fresh : List ℕ) (now : ℕ)
    → bounded e.runtimes ≡ true
    → Keeps e (set_enabled e schedule enabled fresh now).0
unfolding set_enabled
set_enabled-Keeps e schedule enabled fresh now b =
    update-Keeps e schedule (only_enabled enabled) fresh now b

delete_run-Keeps :
    (e : Engine) (rt : RunRuntime) (now : ℕ)
    → bounded e.runtimes ≡ true
    → Keeps e (delete_run e rt now)
unfolding delete_run
delete_run-Keeps e rt now b =
    let one = finish_core-Keeps e rt.run_id cancelled (some schedule_deleted) none true now b in
    Keeps-trans one (cancel_execution-Keeps _ rt schedule_deleted one.bounds)

delete_runs-Keeps :
    (e : Engine) (runtimes : List RunRuntime) (now : ℕ)
    → bounded e.runtimes ≡ true
    → Keeps e (delete_runs e runtimes now)
unfolding delete_runs
delete_runs-Keeps e [] now b = unchanged e e b refl refl refl
delete_runs-Keeps e (rt ∷ runtimes) now b =
    let one = delete_run-Keeps e rt now b in
    Keeps-trans one (delete_runs-Keeps (delete_run e rt now) runtimes now one.bounds)

delete_found-Keeps :
    (e : Engine) (found : Option Schedule) (schedule now : ℕ)
    → bounded e.runtimes ≡ true
    → Keeps e (delete_found e found schedule now).0
unfolding delete_found discreet
delete_found-Keeps e none schedule now b = unchanged e e b refl refl refl
delete_found-Keeps e (some s) schedule now b =
    let one = disarm-Keeps e schedule b in
    let disarmed = disarm e schedule in
    let two =
      Keeps-trans one
        (delete_runs-Keeps disarmed (runtimes_of disarmed.runtimes schedule) now one.bounds) in
    let ended = delete_runs disarmed (runtimes_of disarmed.runtimes schedule) now in
    let gone = record ended {
      queues = delete ended.queues schedule;
      schedules = delete_schedule_row ended.schedules schedule;
    } in
    let three = Keeps-trans two (unchanged ended gone two.bounds refl refl refl) in
    Keeps-trans three
      (safe_emit-Keeps gone (schedule_removed schedule) three.bounds (λ id. refl) refl)

pub delete_schedule-Keeps :
    (e : Engine) (schedule now : ℕ)
    → bounded e.runtimes ≡ true
    → Keeps e (delete_schedule e schedule now).0
unfolding delete_schedule
delete_schedule-Keeps e schedule now b =
    delete_found-Keeps e (find_schedule e.schedules schedule e.tenant_id) schedule now b
