-- ===== src/Scheduler/Keeps.antt =====
-- What ending a run keeps, in packages/core/src/scheduler-engine.ts.
use agent_phonon.Base.{
  ℕ, ◌+◌, ◌≤◌, ◌≡◌, refl, sym, subst, Bool, true, List, Option, none, some, arith, if◌then◌else◌,
  if_both, ◌==◌,
}
use agent_phonon.Store.Runs.Rows.{RunStatus, Reason}
use agent_phonon.Store.Runs.{is_terminal, renew_run_lease, upsert_run}
use agent_phonon.Scheduler.State.{RunRuntime, Engine, Emission, run_finished}
use agent_phonon.Scheduler.Tables.{find_runtime, delete_runtime}
use agent_phonon.Scheduler.Shape.{finished_record, runtime_to_run, finished_run, shape_run_for_push}
use agent_phonon.Scheduler.Finish.{
  safe_emit, detach_mappings, remove_from_queue, drop_runtime, assert_run_owner, release,
  write_finished, finish_found, finish_core, cancel_execution,
}
use agent_phonon.Scheduler.Counts.{
  announces, finished, discreet, all_discreet, shape_run_for_push-says_within, alive, bounded,
  shape_run_for_push-id, alive-delete_runtime, alive-delete_found, find_runtime-id,
  bounded-delete_runtime,
}

-- A run's announcement is paid for by its runtime, no id is used, and the attempts stay within bounds.
pub record Keeps (e e' : Engine) : Type 0 where
  pub total :
      (id : ℕ)
      → finished e'.emitted id + alive e'.runtimes id ≤ finished e.emitted id + alive e.runtimes id
  pub next : e'.next_run ≡ e.next_run
  pub bounds : bounded e'.runtimes ≡ true
  pub private : all_discreet e.emitted ≡ true → all_discreet e'.emitted ≡ true

pub Keeps-trans : {e f g : Engine} → Keeps e f → Keeps f g → Keeps e g
Keeps-trans h k = record {
  total = λ id. omega (arith, h.total id, k.total id);
  next = omega (arith, h.next, k.next);
  bounds = k.bounds;
  private = λ d. k.private (h.private d);
}

pub unchanged :
    (e e' : Engine)
    → bounded e.runtimes ≡ true
    → e'.emitted ≡ e.emitted
    → e'.runtimes ≡ e.runtimes
    → e'.next_run ≡ e.next_run
    → Keeps e e'
unchanged e e' b emitted runtimes next = record {
  total = λ id. rw (emitted, runtimes) (omega arith);
  next = next;
  bounds = rw runtimes b;
  private = λ d. rw emitted d;
}

pub safe_emit-Keeps :
    (e : Engine) (emission : Emission)
    → bounded e.runtimes ≡ true
    → ((id : ℕ) → announces emission id ≡ 0)
    → discreet emission ≡ true
    → Keeps e (safe_emit e emission)
unfolding safe_emit finished all_discreet
safe_emit-Keeps e emission b silent quiet =
    if_both (λ (q : Engine). Keeps e q) e.dispatch_only (λ _. unchanged e e b refl refl refl)
      (λ _. record {
        total = λ id. omega (arith, silent id);
        next = refl;
        bounds = b;
        private = λ d. ground (arith, d, quiet);
      })

drop_runtime-Keeps :
    (e : Engine) (rt : RunRuntime) → bounded e.runtimes ≡ true → Keeps e (drop_runtime e rt)
unfolding drop_runtime detach_mappings remove_from_queue
drop_runtime-Keeps e rt b = record {
  total = λ id. omega (arith, alive-delete_runtime e.runtimes rt.run_id id);
  next = refl;
  bounds = bounded-delete_runtime e.runtimes rt.run_id b;
  private = λ d. d;
}

pub assert_run_owner-Keeps :
    (e : Engine) (rt : RunRuntime) (now : ℕ)
    → bounded e.runtimes ≡ true
    → Keeps e (assert_run_owner e rt now).0
unfolding assert_run_owner
assert_run_owner-Keeps e rt now b =
    let (db, owned) =
      renew_run_lease e.db rt.run_id e.tenant_id e.owner_id rt.owner_epoch now e.lease_ms in
    if_both (λ (q : Engine × Bool). Keeps e q.0) owned (λ _. unchanged e _ b refl refl refl)
      (λ _.
        Keeps-trans (unchanged e (record e { db = db }) b refl refl refl)
          (drop_runtime-Keeps (record e { db = db }) rt b))

safe_emit-finished :
    (e : Engine) (emission : Emission) (id : ℕ)
    → finished (safe_emit e emission).emitted id ≤ announces emission id + finished e.emitted id
unfolding safe_emit finished
safe_emit-finished e emission id =
    if_both (λ (q : Engine). finished q.emitted id ≤ announces emission id + finished e.emitted id)
      e.dispatch_only (λ _. omega arith) (λ _. omega arith)

-- The announcement of the end of a run is that of its runtime.
write_finished-finished :
    (e : Engine) (rt : RunRuntime) (status : RunStatus) (reason : Option Reason)
    (usage : Option (List ℕ)) (emits : Bool) (now id : ℕ)
    → finished (write_finished e rt status reason usage emits now).emitted id
      ≤ (if rt.run_id == id then 1 else 0) + finished e.emitted id
unfolding write_finished release finished_run runtime_to_run
write_finished-finished e rt status reason usage emits now id =
    let (db, persisted) = upsert_run e.db (finished_record e rt status reason usage now) in
    let written = record e { db = db } in
    let run = shape_run_for_push (finished_run e rt status reason usage now) rt.consent in
    let same = shape_run_for_push-id (finished_run e rt status reason usage now) rt.consent in
    let P = λ (q : Engine).
      finished q.emitted id ≤ (if rt.run_id == id then 1 else 0) + finished e.emitted id in
    if_both P persisted
      (λ _.
        if_both P emits
          (λ _. ground (arith, same, safe_emit-finished written (run_finished run rt.consent) id))
          (λ _. omega arith))
      (λ _. omega arith)

safe_emit-private :
    (e : Engine) (emission : Emission)
    → discreet emission ≡ true
    → all_discreet e.emitted ≡ true
    → all_discreet (safe_emit e emission).emitted ≡ true
unfolding safe_emit all_discreet
safe_emit-private e emission quiet d =
    if_both (λ (q : Engine). all_discreet q.emitted ≡ true) e.dispatch_only (λ _. d)
      (λ _. ground (arith, d, quiet))

write_finished-private :
    (e : Engine) (rt : RunRuntime) (status : RunStatus) (reason : Option Reason)
    (usage : Option (List ℕ)) (emits : Bool) (now : ℕ)
    → all_discreet e.emitted ≡ true
    → all_discreet (write_finished e rt status reason usage emits now).emitted ≡ true
unfolding write_finished release discreet
write_finished-private e rt status reason usage emits now d =
    let (db, persisted) = upsert_run e.db (finished_record e rt status reason usage now) in
    let written = record e { db = db } in
    let whole = finished_run e rt status reason usage now in
    let P = λ (q : Engine). all_discreet q.emitted ≡ true in
    if_both P persisted
      (λ _.
        if_both P emits
          (λ _.
            safe_emit-private written
              (run_finished (shape_run_for_push whole rt.consent) rt.consent)
              (shape_run_for_push-says_within whole rt.consent) d)
          (λ _. d))
      (λ _. d)

pub write_finished-same :
    (e : Engine) (rt : RunRuntime) (status : RunStatus) (reason : Option Reason)
    (usage : Option (List ℕ)) (emits : Bool) (now : ℕ)
    → ((write_finished e rt status reason usage emits now).runtimes ≡ e.runtimes)
      × ((write_finished e rt status reason usage emits now).next_run ≡ e.next_run)
unfolding write_finished safe_emit release
write_finished-same e rt status reason usage emits now = (ground arith, ground arith)

finish_found-Keeps :
    (e : Engine) (k : ℕ) (found : Option RunRuntime) (status : RunStatus) (reason : Option Reason)
    (usage : Option (List ℕ)) (emits : Bool) (now : ℕ)
    → bounded e.runtimes ≡ true
    → find_runtime e.runtimes k ≡ found
    → Keeps e (finish_found e found status reason usage emits now).0
unfolding finish_found detach_mappings remove_from_queue
finish_found-Keeps e k none status reason usage emits now b h = unchanged e e b refl refl refl
finish_found-Keeps e k (some rt) status reason usage emits now b h =
    let left = remove_from_queue (detach_mappings e rt) rt in
    let same = write_finished-same left rt status reason usage emits now in
    let told = write_finished-finished left rt status reason usage emits now in
    let here = find_runtime-id e.runtimes k rt h in
    let out =
      subst
        (λ (i : ℕ).
          (id : ℕ)
          → alive (delete_runtime e.runtimes i) id + (if rt.run_id == id then 1 else 0)
            ≡ alive e.runtimes id)
        (sym here) (λ id. alive-delete_found e.runtimes k id rt h) in
    if_both (λ (q : Engine × Bool). Keeps e q.0) (is_terminal rt.status)
      (λ _. unchanged e e b refl refl refl)
      (λ _. record {
        total = λ id. rw same.0 (omega (arith, told id, out id));
        next = same.1;
        bounds = rw same.0 (bounded-delete_runtime e.runtimes rt.run_id b);
        private = λ d. write_finished-private left rt status reason usage emits now d;
      })

pub finish_core-Keeps :
    (e : Engine) (run : ℕ) (status : RunStatus) (reason : Option Reason) (usage : Option (List ℕ))
    (emits : Bool) (now : ℕ)
    → bounded e.runtimes ≡ true
    → Keeps e (finish_core e run status reason usage emits now).0
unfolding finish_core
finish_core-Keeps e run status reason usage emits now b =
    finish_found-Keeps e run (find_runtime e.runtimes run) status reason usage emits now b refl

pub cancel_execution-Keeps :
    (e : Engine) (rt : RunRuntime) (reason : Reason)
    → bounded e.runtimes ≡ true
    → Keeps e (cancel_execution e rt reason)
unfolding cancel_execution
cancel_execution-Keeps e rt reason b = unchanged e _ b refl refl refl
