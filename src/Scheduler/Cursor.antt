-- ===== src/Scheduler/Cursor.antt =====
-- How the cron clock of packages/core/src/scheduler-engine.ts moves the cursor of a schedule: the next
-- occurrence that the table of schedules has for it.
use agent_phonon.Base.{
  ℕ, ◌+◌, ◌<◌, ◌≤◌, if◌then◌else◌, ◌%◌, ◌≡◌, refl, ap, Bool, true, false, not, ◌&&◌, ◌||◌, List, [],
  ◌∷◌, Option, none, some, arith, Result, ok, err, if_both,
}
use agent_phonon.Cron.Parse.{CronError}
use agent_phonon.Cron.Next.{next_cron_after}
use agent_phonon.Cron.Next.Bounds.{next_cron_after_sound}
use agent_phonon.Store.Runs.Rows.{RunRow, RunTriggerSource, cron, RuntimePhase, queued, launching}
use agent_phonon.Store.Runs.{upsert_run}
use agent_phonon.Scheduler.State.{
  overlap_of, ScheduleTrigger, cron_trigger, webhook_trigger, manual_trigger, Schedule, RunRuntime,
  Options, Engine,
}
use agent_phonon.Scheduler.Tables.{has_active, find_schedule}
use agent_phonon.Scheduler.Shape.{runtime_record}
use agent_phonon.Scheduler.Finish.{safe_emit}
use agent_phonon.Scheduler.Launch.{is_dispatch}
use agent_phonon.Scheduler.Triggers.{due, compute_next_run, is_cron}
use agent_phonon.Scheduler.Requests.{
  RequestError, new_runtime, consume_cursor, accept_cron_run, accept_runtime, add_runtime,
  create_runtime, skipped_record, accept_skipped, announce_skipped, persist_skipped, enqueue,
  enqueue_new, launch_new, expired, dispatch_full, is_skip, is_queue, admit_run,
}
use agent_phonon.Scheduler.Calls.{launch_run}
use agent_phonon.Scheduler.Schedules.{given}
use agent_phonon.Scheduler.Clock.{
  Firing, over, awaits, is_early, cron_base, launch_awaited, fire_at, fire_found, on_cron_fire,
}
use agent_phonon.Scheduler.Counts.{bounded}
use agent_phonon.Scheduler.Teardown.{arm_cron-Keeps, set_enabled-Keeps}
use agent_phonon.Scheduler.Untouched.{launch_attempt-Untouched}

-- The schedule once its run is accepted.
abbrev pub moved : Schedule → ℕ → ℕ → Schedule
moved s next now = record s { next_run_at = some next; last_run_at = some now }

consume_cursor-moves :
    (schedules : List Schedule) (schedule tenant next now : ℕ) (s : Schedule)
    → find_schedule schedules schedule tenant ≡ some s
    → find_schedule (consume_cursor schedules schedule tenant next now).0 schedule tenant
      ≡ some (moved s next now)
unfolding find_schedule consume_cursor
consume_cursor-moves [] schedule tenant next now s h = ground (arith, h)
consume_cursor-moves (o ∷ schedules) schedule tenant next now s h =
    ground (arith, h, consume_cursor-moves schedules schedule tenant next now s)

pub find_schedule-id :
    (schedules : List Schedule) (schedule tenant : ℕ) (s : Schedule)
    → find_schedule schedules schedule tenant ≡ some s
    → s.sid ≡ schedule
unfolding find_schedule
find_schedule-id [] schedule tenant s h = ground (arith, h)
find_schedule-id (o ∷ schedules) schedule tenant s h =
    ground (arith, h, find_schedule-id schedules schedule tenant s)

due-some :
    (result : Result CronError (Option ℕ)) {r : ℕ} → due result ≡ some r → result ≡ ok (some r)
due-some (err thrown) h = ground (arith, h)
due-some (ok next) h = ap ok h

-- The next occurrence is later, and a whole minute.
compute_next_run-later :
    (options : Options) (trigger : ScheduleTrigger) (after : ℕ) {next : ℕ}
    → compute_next_run options trigger after ≡ some next
    → (after < next) × (next % 60000 ≡ 0)
unfolding compute_next_run
compute_next_run-later options (cron_trigger expr tz) after h =
    let (parsed, _, _, later, whole, _) =
      next_cron_after_sound (options.format tz) expr after
        (due-some (next_cron_after (options.format tz) expr after) h) in
    (later, whole)
compute_next_run-later options (webhook_trigger token) after h = ground (arith, h)
compute_next_run-later options manual_trigger after h = ground (arith, h)

-- A request of the clock gives out one id and moves the cursor, or it throws and gives out none.
unfoldable Takes : Engine → Schedule → ℕ → ℕ → Engine × Option RequestError → Type 0
Takes e s next now (q, some thrown) = q.next_run ≡ e.next_run
Takes e s next now (q, none) =
    (q.next_run ≡ e.next_run + 1)
    × (q.schedules ≡ (consume_cursor e.schedules s.sid e.tenant_id next now).0)

-- A receipt moves the cursor and gives out no id yet.
unfoldable Receipt : Engine → Schedule → ℕ → ℕ → Option Engine → Type 0
Receipt e s next now none = Unit
Receipt e s next now (some q) =
    (q.next_run ≡ e.next_run)
    × (q.schedules ≡ (consume_cursor e.schedules s.sid e.tenant_id next now).0)

accept_cron_run-Receipt :
    (e : Engine) (run : RunRow) (s : Schedule) (next now : ℕ)
    → run.schedule_id ≡ s.sid
    → run.tenant_id ≡ e.tenant_id
    → run.created_at ≡ now
    → Receipt e s next now (accept_cron_run e run next)
unfolding accept_cron_run Receipt
accept_cron_run-Receipt e run s next now here tenant at =
    let (db, wrote) = upsert_run e.db run in
    let (schedules, found) =
      consume_cursor e.schedules run.schedule_id run.tenant_id next run.created_at in
    if_both (Receipt e s next now) (wrote && found) (λ _. (refl, cc (here, tenant, at))) (λ _. tt)

announce_skipped-Takes :
    (e : Engine) (accepted : Option Engine) (s : Schedule) (source : RunTriggerSource)
    (next now : ℕ)
    → Receipt e s next now accepted
    → Takes e s next now (announce_skipped e accepted s source now)
unfolding announce_skipped Receipt Takes safe_emit
announce_skipped-Takes e none s source next now r = refl
announce_skipped-Takes e (some q) s source next now (given, moves) =
    (ground (arith, given), ground (arith, moves))

persist_skipped-Takes :
    (e : Engine) (s : Schedule) (source : RunTriggerSource) (next now : ℕ)
    → Takes e s next now (persist_skipped e s source (some next) now)
unfolding persist_skipped accept_skipped skipped_record
persist_skipped-Takes e s source next now =
    announce_skipped-Takes e _ s source next now
      (accept_cron_run-Receipt e (skipped_record e s source now) s next now refl refl refl)

-- A runtime that was made with its receipt.
unfoldable Makes : Engine → Schedule → ℕ → ℕ → Option (Engine × RunRuntime) → Type 0
Makes e s next now none = Unit
Makes e s next now (some (q, rt)) =
    (q.next_run ≡ e.next_run + 1)
    × (q.schedules ≡ (consume_cursor e.schedules s.sid e.tenant_id next now).0)

add_runtime-Makes :
    (e : Engine) (accepted : Option Engine) (rt : RunRuntime) (s : Schedule) (next now : ℕ)
    → Receipt e s next now accepted
    → Makes e s next now (add_runtime accepted rt)
unfolding add_runtime Receipt Makes
add_runtime-Makes e none rt s next now r = tt
add_runtime-Makes e (some q) rt s next now (given, moves) = (omega (arith, given), moves)

create_runtime-Makes :
    (e : Engine) (s : Schedule) (source : RunTriggerSource) (input : Option (List ℕ))
    (phase : RuntimePhase) (next now : ℕ)
    → Makes e s next now (create_runtime e s source input phase (some next) now)
unfolding create_runtime accept_runtime runtime_record new_runtime
create_runtime-Makes e s source input phase next now =
    let rt = new_runtime e.next_run s source input phase now in
    add_runtime-Makes e (accept_runtime e rt (some next) now) rt s next now
      (accept_cron_run-Receipt e (runtime_record e rt none none now) s next now refl refl refl)

enqueue_new-Takes :
    (e : Engine) (made : Option (Engine × RunRuntime)) (s : Schedule) (next now : ℕ)
    → Makes e s next now made
    → Takes e s next now (enqueue_new e made)
unfolding enqueue_new enqueue Makes Takes
enqueue_new-Takes e none s next now m = refl
enqueue_new-Takes e (some (q, rt)) s next now m = m

launch_new-Takes :
    (e : Engine) (made : Option (Engine × RunRuntime)) (s : Schedule) (next now : ℕ)
    → Makes e s next now made
    → Takes e s next now (launch_new e made s now)
unfolding launch_new Makes Takes
launch_new-Takes e none s next now m = refl
launch_new-Takes e (some (q, rt)) s next now (given, moves) =
    let kept = launch_attempt-Untouched q rt (some s) now in
    (cc (kept.next_run, given), cc (kept.schedules, moves))

admit_run-Takes :
    (e : Engine) (s : Schedule) (source : RunTriggerSource) (input : Option (List ℕ)) (next now : ℕ)
    → Takes e s next now (admit_run e s source input (some next) now)
unfolding admit_run
admit_run-Takes e s source input next now =
    let P = Takes e s next now in
    if_both P (dispatch_full e s || (has_active e.runtimes s.sid && is_skip (overlap_of s.policy)))
      (λ _. persist_skipped-Takes e s source next now)
      (λ _.
        if_both P (has_active e.runtimes s.sid && is_queue (overlap_of s.policy))
          (λ _.
            enqueue_new-Takes e _ s next now
              (create_runtime-Makes e s source input queued next now))
          (λ _.
            launch_new-Takes e _ s next now
              (create_runtime-Makes e s source input launching next now)))

launch_run-Takes :
    (e : Engine) (s : Schedule) (source : RunTriggerSource) (input : Option (List ℕ)) (next : ℕ)
    (admits allows : Bool) (fresh : List ℕ) (now : ℕ)
    → bounded e.runtimes ≡ true
    → Takes e s next now (launch_run e s source input (some next) admits allows fresh now)
unfolding launch_run Takes
launch_run-Takes e s source input next admits allows fresh now b =
    let P = Takes e s next now in
    if_both P e.disposed (λ _. refl)
      (λ _.
        if_both P (e.dispatch_only && not (is_dispatch s.target.run_kind)) (λ _. refl)
          (λ _.
            if_both P (expired s.target.dispatch now)
              (λ _. (set_enabled-Keeps e s.sid false fresh now b).next)
              (λ _.
                if_both P (not admits) (λ _. refl)
                  (λ _.
                    if_both P (not allows) (λ _. refl)
                      (λ _. admit_run-Takes e s source input next now)))))

-- What a round of the clock comes to, from `e` at `now`.
unfoldable pub Moves : Engine → ℕ → Bool → ℕ → Engine × Firing → Type 0
Moves e schedule down now (q, over) = q.next_run ≡ e.next_run
Moves e schedule down now (q, awaits next (some thrown)) = q.next_run ≡ e.next_run
Moves e schedule down now (q, awaits next none) =
    (s : Schedule) × (find_schedule e.schedules schedule e.tenant_id ≡ some s)
    × (s.enabled ≡ true)
    × (given s.next_run_at now ≤ now + 1000)
    × ((if is_dispatch s.target.run_kind && not down then given s.next_run_at now else now) < next)
    × (next % 60000 ≡ 0)
    × (q.next_run ≡ e.next_run + 1)
    × (find_schedule q.schedules schedule e.tenant_id ≡ some (moved s next now))

-- What is not too early is due within a second.
due_soon :
    (cursor : Option ℕ) (now : ℕ) → is_early cursor now ≡ false → given cursor now ≤ now + 1000
due_soon none now near = ground arith
due_soon (some at) now near = ground arith

launch_awaited-Moves :
    (e : Engine) (s : Schedule) (schedule : ℕ) (down : Bool) (next now : ℕ)
    (launched : Engine × Option RequestError)
    → find_schedule e.schedules schedule e.tenant_id ≡ some s
    → s.enabled ≡ true
    → is_early s.next_run_at now ≡ false
    → cron_base s down now < next
    → next % 60000 ≡ 0
    → Takes e s next now launched
    → Moves e schedule down now (launch_awaited next launched)
unfolding launch_awaited Takes Moves cron_base
launch_awaited-Moves e s schedule down next now (q, some thrown) h on near later whole t = t
launch_awaited-Moves e s schedule down next now (q, none) h on near later whole (taken, moves) =
    let here = find_schedule-id e.schedules schedule e.tenant_id s h in
    let kept = consume_cursor-moves e.schedules schedule e.tenant_id next now s h in
    (s, h, on, due_soon s.next_run_at now near, later, whole, taken, cc (moves, here, kept))

fire_at-Moves :
    (e : Engine) (s : Schedule) (schedule : ℕ) (down : Bool) (next : Option ℕ)
    (admits allows : Bool) (fresh : List ℕ) (now : ℕ)
    → bounded e.runtimes ≡ true
    → find_schedule e.schedules schedule e.tenant_id ≡ some s
    → s.enabled ≡ true
    → is_early s.next_run_at now ≡ false
    → compute_next_run e.options s.trigger (cron_base s down now) ≡ next
    → Moves e schedule down now (fire_at e s next admits allows fresh now)
unfolding fire_at Moves
fire_at-Moves e s schedule down none admits allows fresh now b h on due computed = refl
fire_at-Moves e s schedule down (some next) admits allows fresh now b h on due computed =
    let (later, whole) =
      compute_next_run-later e.options s.trigger (cron_base s down now) computed in
    launch_awaited-Moves e s schedule down next now
      (launch_run e s cron none (some next) admits allows fresh now) h on due later whole
      (launch_run-Takes e s cron none next admits allows fresh now b)

fire_found-Moves :
    (e : Engine) (found : Option Schedule) (schedule : ℕ) (down admits allows : Bool)
    (fresh : List ℕ) (now : ℕ)
    → bounded e.runtimes ≡ true
    → find_schedule e.schedules schedule e.tenant_id ≡ found
    → Moves e schedule down now (fire_found e found down admits allows fresh now)
unfolding fire_found Moves
fire_found-Moves e none schedule down admits allows fresh now b h = refl
fire_found-Moves e (some s) schedule down admits allows fresh now b h =
    let P = Moves e schedule down now in
    if_both P (not s.enabled || not (is_cron s.trigger)) (λ _. refl)
      (λ on.
        if_both P (e.dispatch_only && not (is_dispatch s.target.run_kind)) (λ _. refl)
          (λ _.
            if_both P (is_early s.next_run_at now) (λ _. (arm_cron-Keeps e s now b).next)
              (λ due.
                fire_at-Moves e s schedule down _ admits allows fresh now b h (ground (arith, on))
                  due refl)))

pub on_cron_fire-Moves :
    (e : Engine) (schedule : ℕ) (down admits allows : Bool) (fresh : List ℕ) (now : ℕ)
    → bounded e.runtimes ≡ true
    → Moves e schedule down now (on_cron_fire e schedule down admits allows fresh now)
unfolding on_cron_fire Moves
on_cron_fire-Moves e schedule down admits allows fresh now b =
    if_both (Moves e schedule down now) (e.started && not e.disposed)
      (λ _.
        fire_found-Moves e (find_schedule e.schedules schedule e.tenant_id) schedule down admits
          allows fresh now b refl)
      (λ _. refl)
