-- ===== src/Scheduler/Consent.antt =====
-- Under which consent packages/core/src/scheduler-engine.ts pushes what a run has to say.
use agent_phonon.Base.{
  ◌+◌, ℕ, ◌≡◌, refl, ◌⊎◌, inl, inr, Bool, true, false, ◌&&◌, List, ◌∷◌, Option, none, some, arith,
  if_both,
}
use agent_phonon.Store.Runs.Rows.{RunStatus, Reason, RunTriggerSource}
use agent_phonon.Store.Runs.{is_terminal, upsert_run, append_event}
use agent_phonon.Scheduler.State.{
  SchedulePushConsent, Schedule, RunRuntime, Engine, Emission, run_started, run_event, run_finished,
  schedule_changed, schedule_removed, event_repeated, run_repeated,
}
use agent_phonon.Scheduler.Tables.{find_runtime}
use agent_phonon.Scheduler.Shape.{
  runtime_record, finished_record, finished_run, runtime_to_run, shape_run_for_push, is_full,
}
use agent_phonon.Scheduler.Finish.{
  safe_emit, persist_runtime, detach_mappings, remove_from_queue, release, write_finished,
  finish_found, finish_core,
}
use agent_phonon.Scheduler.Launch.{change_runtime, running_runtime, mark_running}
use agent_phonon.Scheduler.Resume.{forward_run_event}
use agent_phonon.Scheduler.Requests.{
  skipped_record, skipped_run, accept_skipped, announce_skipped, persist_skipped,
}
use agent_phonon.Scheduler.Counts.{says_within, shape_run_for_push-says_within}

-- What is pushed of a run keeps within a consent, whatever consent is written beside it.
abbrev pub within : SchedulePushConsent → Emission → Bool
within consent (run_started run written) = says_within run consent
within consent (run_event run schedule seq payload written) = is_full consent
within consent (run_finished run written) = says_within run consent
within consent (schedule_changed s) = false
within consent (schedule_removed schedule) = false
within consent (event_repeated row) = false
within consent (run_repeated run written) = says_within run consent

-- Nothing is pushed, or one thing about a run, within the consent.
abbrev pub Tells : SchedulePushConsent → Engine → Engine → Type 0
Tells consent e f =
    (f.emitted ≡ e.emitted)
    ⊎ ((told : Emission) × (f.emitted ≡ told ∷ e.emitted) × (within consent told ≡ true))

safe_emit-Tells :
    (consent : SchedulePushConsent) (e : Engine) (told : Emission)
    → within consent told ≡ true
    → Tells consent e (safe_emit e told)
unfolding safe_emit
safe_emit-Tells consent e told h =
    if_both (λ (q : Engine). Tells consent e q) e.dispatch_only (λ _. inl refl)
      (λ _. inr (told, refl, h))

write_finished-Tells :
    (e : Engine) (rt : RunRuntime) (status : RunStatus) (reason : Option Reason)
    (usage : Option (List ℕ)) (emits : Bool) (now : ℕ)
    → Tells rt.consent e (write_finished e rt status reason usage emits now)
unfolding write_finished release
write_finished-Tells e rt status reason usage emits now =
    let (db, persisted) = upsert_run e.db (finished_record e rt status reason usage now) in
    let written = record e { db = db } in
    let whole = finished_run e rt status reason usage now in
    let P = λ (q : Engine). Tells rt.consent e q in
    if_both P persisted
      (λ _.
        if_both P emits
          (λ _.
            safe_emit-Tells rt.consent written
              (run_finished (shape_run_for_push whole rt.consent) rt.consent)
              (shape_run_for_push-says_within whole rt.consent))
          (λ _. inl refl))
      (λ _. inl refl)

pub finish_found-Tells :
    (e : Engine) (rt : RunRuntime) (status : RunStatus) (reason : Option Reason)
    (usage : Option (List ℕ)) (emits : Bool) (now : ℕ)
    → Tells rt.consent e (finish_found e (some rt) status reason usage emits now).0
unfolding finish_found detach_mappings remove_from_queue
finish_found-Tells e rt status reason usage emits now =
    let left = remove_from_queue (detach_mappings e rt) rt in
    if_both (λ (q : Engine × Bool). Tells rt.consent e q.0) (is_terminal rt.status) (λ _. inl refl)
      (λ _. write_finished-Tells left rt status reason usage emits now)

pub finish_core-Tells :
    (e : Engine) (run : ℕ) (rt : RunRuntime) (status : RunStatus) (reason : Option Reason)
    (usage : Option (List ℕ)) (emits : Bool) (now : ℕ)
    → find_runtime e.runtimes run ≡ some rt
    → Tells rt.consent e (finish_core e run status reason usage emits now).0
unfolding finish_core
finish_core-Tells e run rt status reason usage emits now h =
    rw h (finish_found-Tells e rt status reason usage emits now)

pub mark_running-Tells :
    (e : Engine) (rt : RunRuntime) (now : ℕ) → Tells rt.consent e (mark_running e rt now)
unfolding mark_running change_runtime persist_runtime
mark_running-Tells e rt now =
    let on = running_runtime rt in
    safe_emit-Tells rt.consent (persist_runtime (change_runtime e on) on none none now)
      (run_started (shape_run_for_push (runtime_to_run e on) on.consent) on.consent)
      (shape_run_for_push-says_within (runtime_to_run e on) rt.consent)

pub forward_run_event-Tells :
    (e : Engine) (rt : RunRuntime) (payload : List ℕ) (now : ℕ)
    → Tells rt.consent e (forward_run_event e rt payload now).0
unfolding forward_run_event change_runtime
forward_run_event-Tells e rt payload now =
    let numbered = record rt { seq = rt.seq + 1 } in
    let (db, persisted) =
      append_event e.db (runtime_record e numbered none none now) rt.seq payload in
    let written = record (change_runtime e numbered) { db = db } in
    if_both (λ (q : Engine × RunRuntime). Tells rt.consent e q.0)
      (rt.subscribed && is_full rt.consent)
      (λ open_to.
        if_both (λ (q : Engine). Tells rt.consent e q) persisted
          (λ _.
            safe_emit-Tells rt.consent written
              (run_event rt.run_id rt.schedule_id rt.seq payload rt.consent)
              (ground (arith, open_to)))
          (λ _. inl refl))
      (λ _. inl refl)

pub persist_skipped-Tells :
    (e : Engine) (s : Schedule) (source : RunTriggerSource) (now : ℕ)
    → Tells s.push e (persist_skipped e s source none now).0
unfolding persist_skipped accept_skipped announce_skipped
persist_skipped-Tells e s source now =
    safe_emit-Tells s.push
      (record e {
        db = (upsert_run e.db (skipped_record e s source now)).0;
        next_run = e.next_run + 1;
      })
      (run_finished (shape_run_for_push (skipped_run e s source now) s.push) s.push)
      (shape_run_for_push-says_within (skipped_run e s source now) s.push)
