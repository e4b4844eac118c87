-- ===== src/Scheduler/Repeats.antt =====
-- What replays, reconnections and resolutions do to the account of the runs, in
-- packages/core/src/scheduler-engine.ts.
use agent_phonon.Base.{
  ℕ, ◌≡◌, refl, Bool, true, false, not, ◌&&◌, List, [], ◌∷◌, Option, none, some, if_both,
}
use agent_phonon.Store.Runs.Rows.{RunStatus, Reason, RunRow, RunEventRow, ScheduleDispatch}
use agent_phonon.Store.Runs.{get_run, is_terminal, unacked_run_events, list_unacked_finished_runs}
use agent_phonon.Scheduler.State.{Schedule, RunRuntime, Engine, event_repeated, run_repeated}
use agent_phonon.Scheduler.Tables.{is_queued, find_runtime, find_schedule}
use agent_phonon.Scheduler.Shape.{shape_run_for_push}
use agent_phonon.Scheduler.Finish.{safe_emit, assert_run_owner}
use agent_phonon.Scheduler.Launch.{change_runtime, is_dispatch}
use agent_phonon.Scheduler.Triggers.{is_cron, disarm}
use agent_phonon.Scheduler.Requests.{RequestError}
use agent_phonon.Scheduler.Clock.{Firing}
use agent_phonon.Scheduler.Replay.{
  row_to_run, push_or_summary, repeat_run, repeat_runs, repeat_events, replay_unacked, is_due,
  reconnect_schedule, text_or_empty, gives_up, same_binding, resolve_owned, resolve_runtime,
  resolve_found, resolve,
}
use agent_phonon.Scheduler.Counts.{discreet, shape_run_for_push-says_within, attempts_ok, bounded}
use agent_phonon.Scheduler.Keeps.{
  Keeps, Keeps-trans, unchanged, safe_emit-Keeps, assert_run_owner-Keeps,
}
use agent_phonon.Scheduler.Attempts.{change_runtime-Keeps}
use agent_phonon.Scheduler.Outside.{Good, find_runtime-Good, finish_run-Keeps}
use agent_phonon.Scheduler.Admitted.{IsAccounted}
use agent_phonon.Scheduler.Ticks.{on_cron_fire-IsAccounted}

repeat_run-Keeps : (e : Engine) (r : RunRow) → bounded e.runtimes ≡ true → Keeps e (repeat_run e r)
unfolding repeat_run discreet
repeat_run-Keeps e r b =
    let consent = push_or_summary (find_schedule e.schedules r.schedule_id e.tenant_id) in
    safe_emit-Keeps e (run_repeated (shape_run_for_push (row_to_run r) consent) consent) b
      (λ id. refl) (shape_run_for_push-says_within (row_to_run r) consent)

repeat_runs-Keeps :
    (e : Engine) (rows : List RunRow) → bounded e.runtimes ≡ true → Keeps e (repeat_runs e rows)
unfolding repeat_runs
repeat_runs-Keeps e [] b = unchanged e e b refl refl refl
repeat_runs-Keeps e (r ∷ rows) b =
    let one = repeat_run-Keeps e r b in
    Keeps-trans one (repeat_runs-Keeps (repeat_run e r) rows one.bounds)

repeat_events-Keeps :
    (e : Engine) (rows : List RunEventRow)
    → bounded e.runtimes ≡ true
    → Keeps e (repeat_events e rows)
unfolding repeat_events discreet
repeat_events-Keeps e [] b = unchanged e e b refl refl refl
repeat_events-Keeps e (row ∷ rows) b =
    let one = safe_emit-Keeps e (event_repeated row) b (λ id. refl) refl in
    Keeps-trans one (repeat_events-Keeps (safe_emit e (event_repeated row)) rows one.bounds)

pub replay_unacked-Keeps : (e : Engine) → bounded e.runtimes ≡ true → Keeps e (replay_unacked e)
unfolding replay_unacked
replay_unacked-Keeps e b =
    let events = unacked_run_events e.db.runs e.db.run_events e.tenant_id in
    let told = repeat_events e events in
    let one = repeat_events-Keeps e events b in
    Keeps-trans one
      (repeat_runs-Keeps told (list_unacked_finished_runs told.db.runs told.tenant_id) one.bounds)

pub reconnect_schedule-IsAccounted :
    (e : Engine) (s : Schedule) (admits allows : Bool) (fresh : List ℕ) (now : ℕ)
    → IsAccounted e
    → IsAccounted (reconnect_schedule e s admits allows fresh now).0
unfolding reconnect_schedule disarm
reconnect_schedule-IsAccounted e s admits allows fresh now a =
    if_both (λ (q : Engine × Firing). IsAccounted q.0)
      (s.enabled && is_cron s.trigger && is_dispatch s.target.run_kind && is_due s.next_run_at now)
      (λ _.
        on_cron_fire-IsAccounted (disarm e s.sid) s.sid false admits allows fresh now
          (record { total = a.total; bounds = a.bounds; private = a.private }))
      (λ _. a)

text-ok :
    (rt : RunRuntime) (text : List ℕ)
    → attempts_ok rt ≡ true
    → attempts_ok (record rt { result_text = text }) ≡ true
unfolding attempts_ok
text-ok rt text good = good

resolve_owned-Keeps :
    (e : Engine) (next : Engine × Bool) (rt : RunRuntime) (status : RunStatus)
    (text : Option (List ℕ)) (reason : Reason) (now : ℕ)
    → Keeps e next.0
    → attempts_ok rt ≡ true
    → Keeps e (resolve_owned next rt status text reason now).0
unfolding resolve_owned
resolve_owned-Keeps e (f, false) rt status text reason now k good = k
resolve_owned-Keeps e (f, true) rt status text reason now k good =
    let told = record rt { result_text = text_or_empty text } in
    if_both (λ (q : Engine × Option RequestError). Keeps e q.0)
      (is_queued rt.phase && not (gives_up status)) (λ _. k)
      (λ _.
        let changed = change_runtime-Keeps f told k.bounds (text-ok rt (text_or_empty text) good) in
        Keeps-trans k (
          Keeps-trans changed (
            finish_run-Keeps (change_runtime f told) told status (some reason) none now
              changed.bounds)))

resolve_runtime-Keeps :
    (e : Engine) (found : Option RunRuntime) (status : RunStatus) (text : Option (List ℕ))
    (reason : Reason) (now : ℕ)
    → bounded e.runtimes ≡ true
    → Good found
    → Keeps e (resolve_runtime e found status text reason now).0
unfolding resolve_runtime
resolve_runtime-Keeps e none status text reason now b good = unchanged e e b refl refl refl
resolve_runtime-Keeps e (some rt) status text reason now b good =
    resolve_owned-Keeps e (assert_run_owner e rt now) rt status text reason now
      (assert_run_owner-Keeps e rt now b) good

resolve_found-Keeps :
    (e : Engine) (found : Option RunRow) (d : ScheduleDispatch) (status : RunStatus)
    (text : Option (List ℕ)) (reason : Reason) (same_reason : Bool) (now : ℕ)
    → bounded e.runtimes ≡ true
    → Keeps e (resolve_found e found d status text reason same_reason now).0
unfolding resolve_found
resolve_found-Keeps e none d status text reason same_reason now b = unchanged e e b refl refl refl
resolve_found-Keeps e (some r) d status text reason same_reason now b =
    let P = λ (q : Engine × Option RequestError). Keeps e q.0 in
    if_both P (not (same_binding r.dispatch d)) (λ _. unchanged e e b refl refl refl)
      (λ _.
        if_both P (is_terminal r.status) (λ _. unchanged e e b refl refl refl)
          (λ _.
            resolve_runtime-Keeps e (find_runtime e.runtimes r.id) status text reason now b
              (find_runtime-Good e.runtimes r.id _ b refl)))

pub resolve-Keeps :
    (e : Engine) (run : ℕ) (d : ScheduleDispatch) (status : RunStatus) (text : Option (List ℕ))
    (reason : Reason) (same_reason : Bool) (now : ℕ)
    → bounded e.runtimes ≡ true
    → Keeps e (resolve e run d status text reason same_reason now).0
unfolding resolve
resolve-Keeps e run d status text reason same_reason now b =
    resolve_found-Keeps e (get_run e.db run e.tenant_id) d status text reason same_reason now b
