-- ===== src/Scheduler/Ticks.antt =====
-- What the cron clock of packages/core/src/scheduler-engine.ts does to the account of the runs.
use agent_phonon.Base.{
  ℕ, ◌≡◌, refl, Bool, true, false, not, ◌&&◌, ◌||◌, List, Option, none, some, Result, ok, err,
  if_both,
}
use agent_phonon.Store.Runs.Rows.{cron}
use agent_phonon.Scheduler.State.{Schedule, ScheduleTrigger, Engine, schedule_changed}
use agent_phonon.Scheduler.Tables.{find_schedule, delete}
use agent_phonon.Scheduler.Finish.{safe_emit}
use agent_phonon.Scheduler.Launch.{is_dispatch}
use agent_phonon.Scheduler.Triggers.{ScheduleError, mask_schedule, is_cron}
use agent_phonon.Scheduler.Requests.{RequestError}
use agent_phonon.Scheduler.Calls.{launch_run}
use agent_phonon.Scheduler.Clock.{
  Firing, is_early, live_dispatch, launch_awaited, fire_at, fire_found, on_cron_fire, timer_due,
  is_denied, persist_schedule, skip_occurrence, cron_caught, is_ahead, after_round, end_round,
  next_round, cron_continues,
}
use agent_phonon.Scheduler.Restore.{
  is_missed, catches_up, recompute, skip_missed, arm_first, has_no_cursor, restore_cron,
  ScheduleCreate, store_created, create_prepared, create,
}
use agent_phonon.Scheduler.Counts.{bounded, discreet}
use agent_phonon.Scheduler.Keeps.{Keeps, Keeps-trans, unchanged, safe_emit-Keeps}
use agent_phonon.Scheduler.Teardown.{arm_cron-Keeps, rearm-Keeps, mask_schedule-hides_token}
use agent_phonon.Scheduler.Admitted.{IsAccounted, Keeps-IsAccounted, launch_run-IsAccounted}

persist_schedule-Keeps :
    (e : Engine) (s : Schedule) → bounded e.runtimes ≡ true → Keeps e (persist_schedule e s)
unfolding persist_schedule
persist_schedule-Keeps e s b = unchanged e _ b refl refl refl

-- A schedule is announced without its token.
announced-Keeps :
    (e : Engine) (s : Schedule)
    → bounded e.runtimes ≡ true
    → Keeps e (safe_emit e (schedule_changed (mask_schedule s)))
unfolding discreet
announced-Keeps e s b =
    safe_emit-Keeps e (schedule_changed (mask_schedule s)) b (λ id. refl)
      (mask_schedule-hides_token s)

launch_awaited-IsAccounted :
    (next : ℕ) (launched : Engine × Option RequestError)
    → IsAccounted launched.0
    → IsAccounted (launch_awaited next launched).0
unfolding launch_awaited
launch_awaited-IsAccounted next (e, thrown) a = a

fire_at-IsAccounted :
    (e : Engine) (s : Schedule) (next : Option ℕ) (admits allows : Bool) (fresh : List ℕ) (now : ℕ)
    → IsAccounted e
    → IsAccounted (fire_at e s next admits allows fresh now).0
unfolding fire_at
fire_at-IsAccounted e s none admits allows fresh now a = a
fire_at-IsAccounted e s (some next) admits allows fresh now a =
    launch_awaited-IsAccounted next (launch_run e s cron none (some next) admits allows fresh now)
      (launch_run-IsAccounted e s cron none (some next) admits allows fresh now a)

fire_found-IsAccounted :
    (e : Engine) (found : Option Schedule) (down admits allows : Bool) (fresh : List ℕ) (now : ℕ)
    → IsAccounted e
    → IsAccounted (fire_found e found down admits allows fresh now).0
unfolding fire_found
fire_found-IsAccounted e none down admits allows fresh now a = a
fire_found-IsAccounted e (some s) down admits allows fresh now a =
    let P = λ (q : Engine × Firing). IsAccounted q.0 in
    if_both P (not s.enabled || not (is_cron s.trigger)) (λ _. a)
      (λ _.
        if_both P (e.dispatch_only && not (is_dispatch s.target.run_kind)) (λ _. a)
          (λ _.
            if_both P (is_early s.next_run_at now)
              (λ _. Keeps-IsAccounted (arm_cron-Keeps e s now a.bounds) a)
              (λ _. fire_at-IsAccounted e s _ admits allows fresh now a)))

pub on_cron_fire-IsAccounted :
    (e : Engine) (schedule : ℕ) (down admits allows : Bool) (fresh : List ℕ) (now : ℕ)
    → IsAccounted e
    → IsAccounted (on_cron_fire e schedule down admits allows fresh now).0
unfolding on_cron_fire
on_cron_fire-IsAccounted e schedule down admits allows fresh now a =
    if_both (λ (q : Engine × Firing). IsAccounted q.0) (e.started && not e.disposed)
      (λ _.
        fire_found-IsAccounted e (find_schedule e.schedules schedule e.tenant_id) down admits allows
          fresh now a)
      (λ _. a)

pub timer_due-IsAccounted :
    (e : Engine) (schedule : ℕ) (admits allows : Bool) (fresh : List ℕ) (now : ℕ)
    → IsAccounted e
    → IsAccounted (timer_due e schedule admits allows fresh now).0
unfolding timer_due
timer_due-IsAccounted e schedule admits allows fresh now a =
    on_cron_fire-IsAccounted (record e { timers = delete e.timers schedule }) schedule false admits
      allows fresh now (record { total = a.total; bounds = a.bounds; private = a.private })

skip_occurrence-Keeps :
    (e : Engine) (found : Option Schedule) (next : ℕ)
    → bounded e.runtimes ≡ true
    → Keeps e (skip_occurrence e found next)
unfolding skip_occurrence
skip_occurrence-Keeps e none next b = unchanged e e b refl refl refl
skip_occurrence-Keeps e (some s) next b =
    if_both (λ (q : Engine). Keeps e q) s.enabled
      (λ _. persist_schedule-Keeps e (record s { next_run_at = some next }) b)
      (λ _. unchanged e e b refl refl refl)

cron_caught-Keeps :
    (e : Engine) (schedule next : ℕ) (thrown : Option RequestError)
    → bounded e.runtimes ≡ true
    → Keeps e (cron_caught e schedule next thrown).0
unfolding cron_caught
cron_caught-Keeps e schedule next none b = unchanged e e b refl refl refl
cron_caught-Keeps e schedule next (some thrown) b =
    if_both (λ (q : Engine × Bool). Keeps e q.0) (e.started && not e.disposed && is_denied thrown)
      (λ _. skip_occurrence-Keeps e (find_schedule e.schedules schedule e.tenant_id) next b)
      (λ _. unchanged e e b refl refl refl)

after_round-Keeps :
    (e : Engine) (found : Option Schedule) (down : Bool) (now : ℕ)
    → bounded e.runtimes ≡ true
    → Keeps e (after_round e found down now).0
unfolding after_round
after_round-Keeps e none down now b = unchanged e e b refl refl refl
after_round-Keeps e (some s) down now b =
    let told = announced-Keeps e s b in
    let P = λ (q : Engine × Bool). Keeps e q.0 in
    if_both P (not s.enabled) (λ _. told)
      (λ _.
        if_both P (not (live_dispatch s down) || is_ahead s.next_run_at now)
          (λ _. Keeps-trans told (arm_cron-Keeps _ s now told.bounds)) (λ _. told))

end_round-Keeps :
    (caught : Engine × Bool) (schedule : ℕ) (down : Bool) (now : ℕ)
    → bounded caught.0.runtimes ≡ true
    → Keeps caught.0 (end_round caught schedule down now).0
unfolding end_round
end_round-Keeps (e, false) schedule down now b = unchanged e e b refl refl refl
end_round-Keeps (e, true) schedule down now b =
    if_both (λ (q : Engine × Bool). Keeps e q.0) (e.started && not e.disposed)
      (λ _. after_round-Keeps e (find_schedule e.schedules schedule e.tenant_id) down now b)
      (λ _. unchanged e e b refl refl refl)

next_round-IsAccounted :
    (ended : Engine × Bool) (schedule : ℕ) (down admits allows : Bool) (fresh : List ℕ) (now : ℕ)
    → IsAccounted ended.0
    → IsAccounted (next_round ended schedule down admits allows fresh now).0
unfolding next_round
next_round-IsAccounted (e, false) schedule down admits allows fresh now a = a
next_round-IsAccounted (e, true) schedule down admits allows fresh now a =
    on_cron_fire-IsAccounted e schedule down admits allows fresh now a

pub cron_continues-IsAccounted :
    (e : Engine) (schedule : ℕ) (down : Bool) (next : ℕ) (thrown : Option RequestError)
    (admits allows : Bool) (fresh : List ℕ) (now : ℕ)
    → IsAccounted e
    → IsAccounted (cron_continues e schedule down next thrown admits allows fresh now).0
unfolding cron_continues
cron_continues-IsAccounted e schedule down next thrown admits allows fresh now a =
    let caught = cron_caught-Keeps e schedule next thrown a.bounds in
    let ended =
      end_round-Keeps (cron_caught e schedule next thrown) schedule down now caught.bounds in
    next_round-IsAccounted (end_round (cron_caught e schedule next thrown) schedule down now)
      schedule down admits allows fresh now (Keeps-IsAccounted (Keeps-trans caught ended) a)

skip_missed-Keeps :
    (e : Engine) (s : Schedule) (now : ℕ)
    → bounded e.runtimes ≡ true
    → Keeps e (skip_missed e s now)
unfolding skip_missed
skip_missed-Keeps e s now b =
    let stored = persist_schedule-Keeps e s b in
    let told = Keeps-trans stored (announced-Keeps (persist_schedule e s) s stored.bounds) in
    Keeps-trans told (arm_cron-Keeps _ s now told.bounds)

arm_first-Keeps :
    (e : Engine) (s : Schedule) (now : ℕ) → bounded e.runtimes ≡ true → Keeps e (arm_first e s now)
unfolding arm_first
arm_first-Keeps e s now b =
    let stored = persist_schedule-Keeps e s b in
    Keeps-trans stored (arm_cron-Keeps (persist_schedule e s) s now stored.bounds)

pub restore_cron-IsAccounted :
    (e : Engine) (s : Schedule) (live admits allows : Bool) (fresh : List ℕ) (now : ℕ)
    → IsAccounted e
    → IsAccounted (restore_cron e s live admits allows fresh now).0
unfolding restore_cron
restore_cron-IsAccounted e s live admits allows fresh now a =
    let P = λ (q : Engine × Firing). IsAccounted q.0 in
    if_both P (not (is_cron s.trigger)) (λ _. a)
      (λ _.
        if_both P (is_missed s.next_run_at now)
          (λ _.
            if_both P (live || catches_up s.policy)
              (λ _. on_cron_fire-IsAccounted e s.sid (not live) admits allows fresh now a)
              (λ _. Keeps-IsAccounted (skip_missed-Keeps e (recompute e s now) now a.bounds) a))
          (λ _.
            if_both P (has_no_cursor s.next_run_at)
              (λ _. Keeps-IsAccounted (arm_first-Keeps e (recompute e s now) now a.bounds) a)
              (λ _. Keeps-IsAccounted (arm_cron-Keeps e s now a.bounds) a)))

store_created-Keeps :
    (e : Engine) (s : Schedule) (now : ℕ)
    → bounded e.runtimes ≡ true
    → Keeps e (store_created e s now)
unfolding store_created
store_created-Keeps e s now b =
    let stored = persist_schedule-Keeps e s b in
    let armed = Keeps-trans stored (rearm-Keeps (persist_schedule e s) s now stored.bounds) in
    Keeps-trans armed (announced-Keeps _ s armed.bounds)

create_prepared-Keeps :
    (e : Engine) (params : ScheduleCreate) (trigger : Result ScheduleError ScheduleTrigger)
    (sid : ℕ) (fresh : List ℕ) (now : ℕ)
    → bounded e.runtimes ≡ true
    → Keeps e (create_prepared e params trigger sid fresh now).0
unfolding create_prepared
create_prepared-Keeps e params (err thrown) sid fresh now b = unchanged e e b refl refl refl
create_prepared-Keeps e params (ok trigger) sid fresh now b = store_created-Keeps e _ now b

pub create-Keeps :
    (e : Engine) (params : ScheduleCreate) (sid : ℕ) (fresh : List ℕ) (now : ℕ)
    → bounded e.runtimes ≡ true
    → Keeps e (create e params sid fresh now).0
unfolding create
create-Keeps e params sid fresh now b = create_prepared-Keeps e params _ sid fresh now b
