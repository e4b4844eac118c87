-- ===== src/Scheduler/Streams.antt =====
-- What the events of sessions and workflows keep, in packages/core/src/scheduler-engine.ts.
use agent_phonon.Base.{
  ℕ, ◌+◌, ◌≡◌, refl, Bool, true, false, ◌&&◌, List, [], ◌∷◌, ◌++◌, Option, none, some, arith,
  if_both,
}
use agent_phonon.Store.Runs.Rows.{success, timeout, cancelled}
use agent_phonon.Store.Runs.{append_event}
use agent_phonon.Scheduler.State.{RunRuntime, Engine, run_event}
use agent_phonon.Scheduler.Tables.{find_runtime, get, set}
use agent_phonon.Scheduler.Shape.{runtime_record, is_full}
use agent_phonon.Scheduler.Launch.{change_runtime}
use agent_phonon.Scheduler.Resume.{
  forward_run_event, text_or, stream_event_on, mapped_run, runtime_for_mapping, stream_event_owned,
  stream_event_for, on_stream_event, StreamEvent, message, succeeded, unsuccessful, session_error,
  other_event,
}
use agent_phonon.Scheduler.Flows.{
  is_launching, names, lacks_workflow, launching_run, found_or, with_text, correlate,
  flow_status_on, flow_event_on, workflow_event_owned, workflow_event_for, on_workflow_event,
  WorkflowEvent, FlowStatus, flow_completed, flow_other, flow_failed, flow_timeout, flow_cancelled,
}
use agent_phonon.Scheduler.Counts.{discreet, attempts_ok, bounded}
use agent_phonon.Scheduler.Keeps.{
  Keeps-trans, unchanged, safe_emit-Keeps, assert_run_owner-Keeps, Keeps,
}
use agent_phonon.Scheduler.Attempts.{change_runtime-Keeps}
use agent_phonon.Scheduler.Outside.{
  finish_run-Keeps, fail_attempt-Keeps, Good, find_runtime-Good, live-Good,
}

seq-ok :
    (rt : RunRuntime) (seq : ℕ)
    → attempts_ok rt ≡ true
    → attempts_ok (record rt { seq = seq }) ≡ true
unfolding attempts_ok
seq-ok rt seq good = good

text-ok :
    (rt : RunRuntime) (text : List ℕ)
    → attempts_ok rt ≡ true
    → attempts_ok (record rt { result_text = text }) ≡ true
unfolding attempts_ok
text-ok rt text good = good

-- A forwarded event keeps the engine, and the runtime that comes back is as good.
abbrev KeepsBoth : Engine → Engine × RunRuntime → Type 0
KeepsBoth e next = Keeps e next.0 × (attempts_ok next.1 ≡ true)

forward_run_event-Keeps :
    (e : Engine) (rt : RunRuntime) (payload : List ℕ) (now : ℕ)
    → bounded e.runtimes ≡ true
    → attempts_ok rt ≡ true
    → KeepsBoth e (forward_run_event e rt payload now)
unfolding forward_run_event discreet
forward_run_event-Keeps e rt payload now b good =
    let numbered = record rt { seq = rt.seq + 1 } in
    let fine = seq-ok rt (rt.seq + 1) good in
    let (db, persisted) =
      append_event e.db (runtime_record e numbered none none now) rt.seq payload in
    let one = change_runtime-Keeps e numbered b fine in
    let written = record (change_runtime e numbered) { db = db } in
    let two =
      Keeps-trans one (unchanged (change_runtime e numbered) written one.bounds refl refl refl) in
    if_both (λ (q : Engine × RunRuntime). KeepsBoth e q) (rt.subscribed && is_full rt.consent)
      (λ open_to. (
        if_both (λ (q : Engine). Keeps e q) persisted
            (λ _. Keeps-trans two (
              safe_emit-Keeps written (run_event rt.run_id rt.schedule_id rt.seq payload rt.consent)
                two.bounds (λ id. refl) (ground (arith, open_to))))
            (λ _. two),
        fine,
      ))
      (λ _. (unchanged e e b refl refl refl, good))

stream_event_on-Keeps :
    (e : Engine) (rt : RunRuntime) (event : StreamEvent) (now : ℕ)
    → bounded e.runtimes ≡ true
    → attempts_ok rt ≡ true
    → Keeps e (stream_event_on e rt event now)
unfolding stream_event_on
stream_event_on-Keeps e rt (message none) now b good = unchanged e e b refl refl refl
stream_event_on-Keeps e rt (message (some text)) now b good =
    change_runtime-Keeps e _ b (text-ok rt (rt.result_text ++ text) good)
stream_event_on-Keeps e rt (succeeded text usage) now b good =
    let told = record rt { result_text = text_or text rt.result_text } in
    let one = change_runtime-Keeps e told b (text-ok rt (text_or text rt.result_text) good) in
    Keeps-trans one
      (finish_run-Keeps (change_runtime e told) told success none usage now one.bounds)
stream_event_on-Keeps e rt (unsuccessful text error) now b good =
    let told = record rt { result_text = text_or text rt.result_text } in
    let one = change_runtime-Keeps e told b (text-ok rt (text_or text rt.result_text) good) in
    Keeps-trans one (fail_attempt-Keeps (change_runtime e told) told error now one.bounds)
stream_event_on-Keeps e rt (session_error error) now b good = fail_attempt-Keeps e rt error now b
stream_event_on-Keeps e rt other_event now b good = unchanged e e b refl refl refl

stream_event_owned-Keeps :
    (e : Engine) (next : Engine × Bool) (rt : RunRuntime) (event : StreamEvent) (payload : List ℕ)
    (now : ℕ)
    → Keeps e next.0
    → attempts_ok rt ≡ true
    → Keeps e (stream_event_owned next rt event payload now)
unfolding stream_event_owned
stream_event_owned-Keeps e (f, false) rt event payload now k good = k
stream_event_owned-Keeps e (f, true) rt event payload now k good =
    let (forwarded, numbered) = forward_run_event f rt payload now in
    let (one, fine) = forward_run_event-Keeps f rt payload now k.bounds good in
    Keeps-trans k
      (Keeps-trans one (stream_event_on-Keeps forwarded numbered event now one.bounds fine))

stream_event_for-Keeps :
    (e : Engine) (found : Option RunRuntime) (event : StreamEvent) (payload : List ℕ) (now : ℕ)
    → bounded e.runtimes ≡ true
    → Good found
    → Keeps e (stream_event_for e found event payload now)
unfolding stream_event_for
stream_event_for-Keeps e none event payload now b good = unchanged e e b refl refl refl
stream_event_for-Keeps e (some rt) event payload now b good =
    stream_event_owned-Keeps e _ rt event payload now (assert_run_owner-Keeps e rt now b) good

mapped_run-Good :
    (runtimes : List RunRuntime) (run : Option ℕ)
    → bounded runtimes ≡ true
    → Good (mapped_run runtimes run)
mapped_run-Good runtimes none b = tt
mapped_run-Good runtimes (some run) b =
    live-Good (find_runtime runtimes run) (find_runtime-Good runtimes run _ b refl)

pub on_stream_event-Keeps :
    (e : Engine) (session : ℕ) (event : StreamEvent) (payload : List ℕ) (now : ℕ)
    → bounded e.runtimes ≡ true
    → Keeps e (on_stream_event e session event payload now)
unfolding on_stream_event runtime_for_mapping
on_stream_event-Keeps e session event payload now b =
    if_both (λ (q : Engine). Keeps e q) e.disposed (λ _. unchanged e e b refl refl refl)
      (λ _.
        stream_event_for-Keeps e _ event payload now b
          (mapped_run-Good e.runtimes (get e.session_to_run session) b))

with_text-ok :
    (rt : RunRuntime) (text : Option (List ℕ))
    → attempts_ok rt ≡ true
    → attempts_ok (with_text rt text) ≡ true
with_text-ok rt none good = good
with_text-ok rt (some text) good = text-ok rt text good

workflow-ok :
    (rt : RunRuntime) (workflow : Option ℕ)
    → attempts_ok rt ≡ true
    → attempts_ok (record rt { workflow_id = workflow }) ≡ true
unfolding attempts_ok
workflow-ok rt workflow good = good

correlate-Keeps :
    (e : Engine) (rt : RunRuntime) (workflow : ℕ) (known : Option ℕ)
    → bounded e.runtimes ≡ true
    → attempts_ok rt ≡ true
    → KeepsBoth e (correlate e rt workflow known)
unfolding correlate
correlate-Keeps e rt workflow (some w) b good = (unchanged e e b refl refl refl, good)
correlate-Keeps e rt workflow none b good =
    let mapped = record e { workflow_to_run = set e.workflow_to_run workflow rt.run_id } in
    let fine = workflow-ok rt (some workflow) good in
    (Keeps-trans (unchanged e mapped b refl refl refl) (change_runtime-Keeps mapped _ b fine), fine)

flow_status_on-Keeps :
    (e : Engine) (rt : RunRuntime) (status : FlowStatus) (now : ℕ)
    → bounded e.runtimes ≡ true
    → Keeps e (flow_status_on e rt status now)
unfolding flow_status_on
flow_status_on-Keeps e rt flow_completed now b = finish_run-Keeps e rt success none none now b
flow_status_on-Keeps e rt (flow_failed error) now b = fail_attempt-Keeps e rt error now b
flow_status_on-Keeps e rt (flow_timeout error) now b =
    finish_run-Keeps e rt timeout (some error) none now b
flow_status_on-Keeps e rt (flow_cancelled reason) now b =
    finish_run-Keeps e rt cancelled (some reason) none now b
flow_status_on-Keeps e rt flow_other now b = unchanged e e b refl refl refl

flow_event_on-Keeps :
    (e : Engine) (rt : RunRuntime) (flow : Option (Option (List ℕ) × FlowStatus)) (now : ℕ)
    → bounded e.runtimes ≡ true
    → attempts_ok rt ≡ true
    → Keeps e (flow_event_on e rt flow now)
unfolding flow_event_on
flow_event_on-Keeps e rt none now b good = unchanged e e b refl refl refl
flow_event_on-Keeps e rt (some (final, status)) now b good =
    let told = with_text rt final in
    let one = change_runtime-Keeps e told b (with_text-ok rt final good) in
    Keeps-trans one (flow_status_on-Keeps (change_runtime e told) told status now one.bounds)

workflow_event_owned-Keeps :
    (e : Engine) (next : Engine × Bool) (rt : RunRuntime) (event : WorkflowEvent) (now : ℕ)
    → Keeps e next.0
    → attempts_ok rt ≡ true
    → Keeps e (workflow_event_owned next rt event now)
unfolding workflow_event_owned
workflow_event_owned-Keeps e (f, false) rt event now k good = k
workflow_event_owned-Keeps e (f, true) rt event now k good =
    let (known, held) = correlate f rt event.workflow rt.workflow_id in
    let (one, held_fine) = correlate-Keeps f rt event.workflow rt.workflow_id k.bounds good in
    let (forwarded, numbered) = forward_run_event known held event.payload now in
    let (two, fine) = forward_run_event-Keeps known held event.payload now one.bounds held_fine in
    let told = with_text numbered event.text in
    let told_fine = with_text-ok numbered event.text fine in
    let three = change_runtime-Keeps forwarded told two.bounds told_fine in
    let four =
      flow_event_on-Keeps (change_runtime forwarded told) told event.flow_status now three.bounds
        told_fine in
    Keeps-trans k (Keeps-trans one (Keeps-trans two (Keeps-trans three four)))

workflow_event_for-Keeps :
    (e : Engine) (found : Option RunRuntime) (event : WorkflowEvent) (now : ℕ)
    → bounded e.runtimes ≡ true
    → Good found
    → Keeps e (workflow_event_for e found event now)
unfolding workflow_event_for
workflow_event_for-Keeps e none event now b good = unchanged e e b refl refl refl
workflow_event_for-Keeps e (some rt) event now b good =
    workflow_event_owned-Keeps e _ rt event now (assert_run_owner-Keeps e rt now b) good

launching_run-Good :
    (runtimes : List RunRuntime) (named : Option ℕ)
    → bounded runtimes ≡ true
    → Good (launching_run runtimes named)
unfolding launching_run bounded
launching_run-Good [] named b = tt
launching_run-Good (rt ∷ runtimes) named b =
    if_both Good (is_launching rt.phase && lacks_workflow rt.workflow_id && names named rt.run_id)
      (λ _. ground (arith, b)) (λ _. launching_run-Good runtimes named (ground (arith, b)))

found_or-Good :
    (found later : Option RunRuntime) → Good found → Good later → Good (found_or found later)
found_or-Good none later f l = l
found_or-Good (some rt) later f l = f

pub on_workflow_event-Keeps :
    (e : Engine) (event : WorkflowEvent) (now : ℕ)
    → bounded e.runtimes ≡ true
    → Keeps e (on_workflow_event e event now)
unfolding on_workflow_event runtime_for_mapping
on_workflow_event-Keeps e event now b =
    let mapped = mapped_run e.runtimes (get e.workflow_to_run event.workflow) in
    let later = launching_run e.runtimes event.metadata_run in
    if_both (λ (q : Engine). Keeps e q) e.disposed (λ _. unchanged e e b refl refl refl)
      (λ _. workflow_event_for-Keeps e (found_or mapped later) event now b (
        found_or-Good mapped later
          (mapped_run-Good e.runtimes (get e.workflow_to_run event.workflow) b)
          (launching_run-Good e.runtimes event.metadata_run b)))
