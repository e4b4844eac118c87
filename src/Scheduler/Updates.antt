-- ===== src/Scheduler/Updates.antt =====
-- What `update` of packages/core/src/scheduler-engine.ts leaves in the table of schedules.
use agent_phonon.Base.{
  ℕ, ◌≡◌, ◌∙◌, sym, ap, if◌then◌else◌, refl, true, not, ◌&&◌, ◌||◌, List, [], ◌∷◌, Option, none,
  some, arith, Result, ok, err, if_both, ◌==◌,
}
use agent_phonon.Store.Runs.Rows.{cancelled, Reason, schedule_disabled, overlap_changed}
use agent_phonon.Scheduler.State.{overlap_of, ScheduleTrigger, Schedule, Engine, schedule_changed}
use agent_phonon.Scheduler.Tables.{find_runtime, find_schedule, delete, queue_of}
use agent_phonon.Scheduler.Launch.{is_dispatch, waits}
use agent_phonon.Scheduler.Requests.{is_queue}
use agent_phonon.Scheduler.Triggers.{
  ScheduleError, upsert_schedule, mask_schedule, is_cron, disarm, arm_at, arm_cron, token_before,
  with_token,
}
use agent_phonon.Scheduler.Schedules.{
  cancel_id, cancel_ids, cancel_queued, ScheduleUpdate, updated_schedule, requeue, store_schedule,
  rearm, store_update, prepared, update_prepared, update_found, update,
}
use agent_phonon.Scheduler.Cursor.{find_schedule-id}
use agent_phonon.Scheduler.Untouched.{
  Untouched, Untouched-trans, untouched, finish_core-Untouched, safe_emit-Untouched,
}
use agent_phonon.Scheduler.Asked.{IsUpdate, updated_schedule-IsUpdate}

cancel_id-Untouched :
    (e : Engine) (run : ℕ) (reason : Reason) (now : ℕ) → Untouched e (cancel_id e run reason now)
unfolding cancel_id
cancel_id-Untouched e run reason now =
    if_both (λ (q : Engine). Untouched e q) (waits (find_runtime e.runtimes run))
      (λ _. finish_core-Untouched e run cancelled (some reason) none true now)
      (λ _. untouched e e refl refl)

cancel_ids-Untouched :
    (e : Engine) (ids : List ℕ) (reason : Reason) (now : ℕ)
    → Untouched e (cancel_ids e ids reason now)
unfolding cancel_ids
cancel_ids-Untouched e [] reason now = untouched e e refl refl
cancel_ids-Untouched e (run ∷ ids) reason now =
    Untouched-trans (cancel_id-Untouched e run reason now)
      (cancel_ids-Untouched (cancel_id e run reason now) ids reason now)

cancel_queued-Untouched :
    (e : Engine) (schedule : ℕ) (reason : Reason) (now : ℕ)
    → Untouched e (cancel_queued e schedule reason now)
unfolding cancel_queued
cancel_queued-Untouched e schedule reason now =
    let ended =
      cancel_ids-Untouched (record e { queues = delete e.queues schedule })
        (queue_of e.queues schedule) reason now in
    untouched e _ ended.schedules ended.next_run

requeue-Untouched : (e : Engine) (s : Schedule) (now : ℕ) → Untouched e (requeue e s now)
unfolding requeue
requeue-Untouched e s now =
    if_both (λ (q : Engine). Untouched e q) (not s.enabled)
      (λ _. cancel_queued-Untouched e s.sid schedule_disabled now)
      (λ _.
        if_both (λ (q : Engine). Untouched e q) (is_queue (overlap_of s.policy))
          (λ _. untouched e e refl refl) (λ _. cancel_queued-Untouched e s.sid overlap_changed now))

arm_at-Untouched :
    (e : Engine) (schedule : ℕ) (next : Option ℕ) (now : ℕ)
    → Untouched e (arm_at e schedule next now)
arm_at-Untouched e schedule none now = untouched e e refl refl
arm_at-Untouched e schedule (some next) now = untouched e _ refl refl

arm_cron-Untouched : (e : Engine) (s : Schedule) (now : ℕ) → Untouched e (arm_cron e s now)
unfolding arm_cron disarm
arm_cron-Untouched e s now =
    if_both (λ (q : Engine). Untouched e q)
      (not e.started
        || e.disposed
        || not (is_cron s.trigger)
        || (e.dispatch_only && not (is_dispatch s.target.run_kind)))
      (λ _. untouched e e refl refl)
      (λ _.
        let armed = arm_at-Untouched (disarm e s.sid) s.sid _ now in
        untouched e _ armed.schedules armed.next_run)

rearm-Untouched : (e : Engine) (s : Schedule) (now : ℕ) → Untouched e (rearm e s now)
unfolding rearm
rearm-Untouched e s now =
    if_both (λ (q : Engine). Untouched e q) s.enabled (λ _. arm_cron-Untouched e s now)
      (λ _. untouched e e refl refl)

store_update-schedules :
    (e : Engine) (s : Schedule) (now : ℕ)
    → (store_update e s now).schedules ≡ upsert_schedule e.schedules s
unfolding store_update store_schedule disarm
store_update-schedules e s now =
    let stored = store_schedule e s in
    let queued = requeue-Untouched stored s now in
    let armed = rearm-Untouched (requeue stored s now) s now in
    let told =
      safe_emit-Untouched (rearm (requeue stored s now) s now)
        (schedule_changed (mask_schedule s)) in
    (Untouched-trans queued (Untouched-trans armed told)).schedules

find_schedule-tenant :
    (schedules : List Schedule) (schedule tenant : ℕ) (s : Schedule)
    → find_schedule schedules schedule tenant ≡ some s
    → s.tenant ≡ tenant
unfolding find_schedule
find_schedule-tenant [] schedule tenant s h = ground (arith, h)
find_schedule-tenant (o ∷ schedules) schedule tenant s h =
    ground (arith, h, find_schedule-tenant schedules schedule tenant s)

-- What is found once a schedule is written over the one that was found.
find_schedule-upsert :
    (schedules : List Schedule) (schedule tenant : ℕ) (old s : Schedule) (k t : ℕ)
    → find_schedule schedules schedule tenant ≡ some old
    → s.sid ≡ schedule
    → s.tenant ≡ tenant
    → s.created_at ≡ old.created_at
    → find_schedule (upsert_schedule schedules s) k t
      ≡ (if schedule == k && tenant == t then some s else find_schedule schedules k t)
unfolding find_schedule upsert_schedule
find_schedule-upsert [] schedule tenant old s k t h here own made = ground (arith, h)
find_schedule-upsert (o ∷ schedules) schedule tenant old s k t h here own made =
    ground (arith, h, here, own, made, find_schedule-upsert schedules schedule tenant old s k t)

update_prepared-finds :
    (e : Engine) (schedule : ℕ) (old : Schedule) (given_update : ScheduleUpdate)
    (result : Result ScheduleError ScheduleTrigger) (fresh : List ℕ) (now k t : ℕ)
    → find_schedule e.schedules schedule e.tenant_id ≡ some old
    → prepared e.options given_update.new_trigger old now ≡ result
    → (update_prepared e old given_update result fresh now).1 ≡ none
    → (s : Schedule) × IsUpdate e.options old given_update fresh now s
      × (find_schedule (update_prepared e old given_update result fresh now).0.schedules k t
          ≡ (if schedule == k && e.tenant_id == t then some s else find_schedule e.schedules k t))
unfolding update_prepared
update_prepared-finds e schedule old given_update (err thrown) fresh now k t h p done =
    ground (arith, done)
update_prepared-finds e schedule old given_update (ok trigger) fresh now k t h p done =
    let with = with_token trigger (token_before old.trigger fresh) in
    let s = updated_schedule e.options old given_update with now in
    let made = updated_schedule-IsUpdate e.options old given_update trigger fresh now p in
    let here = find_schedule-id e.schedules schedule e.tenant_id old h in
    let own = find_schedule-tenant e.schedules schedule e.tenant_id old h in
    (
      s,
      made,
      rw (store_update-schedules e s now) (
          find_schedule-upsert e.schedules schedule e.tenant_id old s k t h (made.same.0 ∙ here)
            (made.same.1 ∙ own) made.times.0),
    )

-- Where a schedule is found and `update` throws nothing, looking it up then gives the old one with its id, its
-- tenant, and the times that it was made and last run; each field that was given has that value and each other
-- one is as it was; the trigger, the one given or its own, has a token if it is a webhook; and the next occurrence
-- is that of the trigger after now, if the schedule is enabled. Under every other id, and for every other
-- tenant, what is found is what was found before.
pub update-finds :
    (e : Engine) (schedule : ℕ) (given_update : ScheduleUpdate) (fresh : List ℕ) (now k t : ℕ)
    (old : Schedule)
    → find_schedule e.schedules schedule e.tenant_id ≡ some old
    → (update e schedule given_update fresh now).1 ≡ none
    → (s : Schedule) × IsUpdate e.options old given_update fresh now s
      × (find_schedule (update e schedule given_update fresh now).0.schedules k t
          ≡ (if schedule == k && e.tenant_id == t then some s else find_schedule e.schedules k t))
unfolding update update_found
update-finds e schedule given_update fresh now k t old h done =
    let found : update e schedule given_update fresh now
        ≡ update_prepared e old given_update (prepared e.options given_update.new_trigger old now)
            fresh now =
      rw h refl in
    rw found (
      update_prepared-finds e schedule old given_update
        (prepared e.options given_update.new_trigger old now) fresh now k t h refl
        (sym (ap (λ q. q.1) found) ∙ done))
