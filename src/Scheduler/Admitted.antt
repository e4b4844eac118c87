-- ===== src/Scheduler/Admitted.antt =====
-- What starting a run does to the account of the runs, in packages/core/src/scheduler-engine.ts.
use agent_phonon.Base.{
  sym, subst, ℕ, ◌+◌, ◌≤◌, ◌≡◌, refl, Bool, true, false, not, ◌&&◌, ◌||◌, List, [], ◌∷◌, Option,
  none, some, arith, if◌then◌else◌, if_both, ltb,
}
use agent_phonon.Store.Runs.Rows.{RunTriggerSource, RunRow, RuntimePhase, queued, launching}
use agent_phonon.Scheduler.State.{overlap_of, Schedule, RunRuntime, Engine, Emission}
use agent_phonon.Scheduler.Tables.{is_retrying, has_active}
use agent_phonon.Scheduler.Finish.{safe_emit, persist_runtime}
use agent_phonon.Store.Runs.{upsert_run}
use agent_phonon.Scheduler.Requests.{
  consume_cursor, accept_cron_run, accept_runtime, add_runtime, accept_skipped, announce_skipped,
  enqueue_new, launch_new, new_runtime, create_runtime, skipped_run, persist_skipped, enqueue,
  expired, dispatch_full, is_skip, is_queue, admit_run, RequestError,
}
use agent_phonon.Scheduler.Calls.{launch_run, trigger_found}
use agent_phonon.Scheduler.Launches.{may_begin}
use agent_phonon.Scheduler.Launch.{is_dispatch}
use agent_phonon.Scheduler.Counts.{
  finished, discreet, all_discreet, shape_run_for_push-says_within, alive, attempts_ok, bounded,
  shape_run_for_push-id, alive-append, bounded-append,
}
use agent_phonon.Scheduler.Keeps.{Keeps}
use agent_phonon.Scheduler.Outside.{launch_attempt-Keeps}
use agent_phonon.Scheduler.Teardown.{set_enabled-Keeps}

-- Each id that was given out stands for one runtime or one announcement at most, and no attempt is
-- beyond its limit, and nothing was pushed that a consent forbids.
pub record IsAccounted (e : Engine) : Type 0 where
  pub total :
      (id : ℕ) → finished e.emitted id + alive e.runtimes id ≤ (if ltb id e.next_run then 1 else 0)
  pub bounds : bounded e.runtimes ≡ true
  pub private : all_discreet e.emitted ≡ true

pub Keeps-IsAccounted : {e f : Engine} → Keeps e f → IsAccounted e → IsAccounted f
Keeps-IsAccounted k a = record {
  total = λ id. rw k.next (omega (arith, k.total id, a.total id));
  bounds = k.bounds;
  private = k.private a.private;
}

new_runtime-ok :
    (fresh : ℕ) (s : Schedule) (source : RunTriggerSource) (input : Option (List ℕ))
    (phase : RuntimePhase) (now : ℕ)
    → is_retrying phase ≡ false
    → attempts_ok (new_runtime fresh s source input phase now) ≡ true
unfolding attempts_ok new_runtime
new_runtime-ok fresh s source input phase now h = ground (arith, h)

new_runtime-id :
    (fresh : ℕ) (s : Schedule) (source : RunTriggerSource) (input : Option (List ℕ))
    (phase : RuntimePhase) (now : ℕ)
    → (new_runtime fresh s source input phase now).run_id ≡ fresh
unfolding new_runtime
new_runtime-id fresh s source input phase now = refl

new_may_begin :
    (fresh : ℕ) (s : Schedule) (source : RunTriggerSource) (input : Option (List ℕ))
    (phase : RuntimePhase) (now : ℕ)
    → may_begin (new_runtime fresh s source input phase now) ≡ true
unfolding new_runtime
new_may_begin fresh s source input phase now = ground arith

-- A receipt changes no runtime and announces nothing.
unfoldable SameRuns : Engine → Option Engine → Type 0
SameRuns e none = Unit
SameRuns e (some q) =
    (q.emitted ≡ e.emitted) × (q.runtimes ≡ e.runtimes) × (q.next_run ≡ e.next_run)

accept_cron_run-SameRuns :
    (e : Engine) (run : RunRow) (next : ℕ) → SameRuns e (accept_cron_run e run next)
unfolding accept_cron_run SameRuns
accept_cron_run-SameRuns e run next =
    let (db, wrote) = upsert_run e.db run in
    let (schedules, found) =
      consume_cursor e.schedules run.schedule_id run.tenant_id next run.created_at in
    if_both (SameRuns e) (wrote && found) (λ _. (refl, refl, refl)) (λ _. tt)

accept_runtime-SameRuns :
    (e : Engine) (rt : RunRuntime) (cursor : Option ℕ) (now : ℕ)
    → SameRuns e (accept_runtime e rt cursor now)
unfolding accept_runtime persist_runtime SameRuns
accept_runtime-SameRuns e rt none now = (refl, refl, refl)
accept_runtime-SameRuns e rt (some next) now = accept_cron_run-SameRuns e _ next

accept_skipped-SameRuns :
    (e : Engine) (run : RunRow) (cursor : Option ℕ) → SameRuns e (accept_skipped e run cursor)
unfolding accept_skipped SameRuns
accept_skipped-SameRuns e run none = (refl, refl, refl)
accept_skipped-SameRuns e run (some next) = accept_cron_run-SameRuns e run next

announce_skipped-IsAccounted :
    (e : Engine) (accepted : Option Engine) (s : Schedule) (source : RunTriggerSource) (now : ℕ)
    → SameRuns e accepted
    → IsAccounted e
    → IsAccounted (announce_skipped e accepted s source now).0
unfolding announce_skipped SameRuns safe_emit finished skipped_run all_discreet discreet
announce_skipped-IsAccounted e none s source now same a = a
announce_skipped-IsAccounted e (some q) s source now (emitted, runtimes, next) a =
    let shaped = shape_run_for_push-id (skipped_run e s source now) s.push in
    if_both (λ (q : Engine). IsAccounted q) q.dispatch_only
      (λ _. record {
        total = λ id. rw (emitted, runtimes, next) (ground (arith, a.total id));
        bounds = rw runtimes a.bounds;
        private = rw emitted a.private;
      })
      (λ _. record {
        total = λ id. rw (emitted, runtimes, next) (ground (arith, a.total id, shaped));
        bounds = rw runtimes a.bounds;
        private = ground (
          arith,
          subst (λ (told : List Emission). all_discreet told ≡ true) (sym emitted) a.private,
          shape_run_for_push-says_within (skipped_run e s source now) s.push,
        );
      })

persist_skipped-IsAccounted :
    (e : Engine) (s : Schedule) (source : RunTriggerSource) (cursor : Option ℕ) (now : ℕ)
    → IsAccounted e
    → IsAccounted (persist_skipped e s source cursor now).0
unfolding persist_skipped
persist_skipped-IsAccounted e s source cursor now a =
    announce_skipped-IsAccounted e _ s source now (accept_skipped-SameRuns e _ cursor) a

-- The new runtime has the id that was next.
unfoldable IsMade : Option (Engine × RunRuntime) → Type 0
IsMade none = Unit
IsMade (some (made, rt)) = IsAccounted made × (attempts_ok rt ≡ true) × (may_begin rt ≡ true)

add_runtime-IsMade :
    (e : Engine) (accepted : Option Engine) (rt : RunRuntime)
    → SameRuns e accepted
    → rt.run_id ≡ e.next_run
    → attempts_ok rt ≡ true
    → may_begin rt ≡ true
    → IsAccounted e
    → IsMade (add_runtime accepted rt)
unfolding add_runtime SameRuns IsMade alive
add_runtime-IsMade e none rt same named good begin a = tt
add_runtime-IsMade e (some q) rt (emitted, runtimes, next) named good begin a = (
  record {
    total = λ id.
        rw (emitted, runtimes, next)
          (ground (arith, a.total id, alive-append e.runtimes (rt ∷ []) id, named));
    bounds = rw runtimes (bounded-append e.runtimes rt a.bounds good);
    private = rw emitted a.private;
  },
  good,
  begin,
)

create_runtime-IsMade :
    (e : Engine) (s : Schedule) (source : RunTriggerSource) (input : Option (List ℕ))
    (phase : RuntimePhase) (cursor : Option ℕ) (now : ℕ)
    → is_retrying phase ≡ false
    → IsAccounted e
    → IsMade (create_runtime e s source input phase cursor now)
unfolding create_runtime
create_runtime-IsMade e s source input phase cursor now h a =
    add_runtime-IsMade e
      (accept_runtime e (new_runtime e.next_run s source input phase now) cursor now)
      (new_runtime e.next_run s source input phase now)
      (accept_runtime-SameRuns e (new_runtime e.next_run s source input phase now) cursor now)
      (new_runtime-id e.next_run s source input phase now)
      (new_runtime-ok e.next_run s source input phase now h)
      (new_may_begin e.next_run s source input phase now) a

enqueue_new-IsAccounted :
    (e : Engine) (made : Option (Engine × RunRuntime))
    → IsMade made
    → IsAccounted e
    → IsAccounted (enqueue_new e made).0
unfolding enqueue_new enqueue IsMade
enqueue_new-IsAccounted e none m a = a
enqueue_new-IsAccounted e (some (made, rt)) (m, good, begin) a = record {
  total = m.total;
  bounds = m.bounds;
  private = m.private;
}

launch_new-IsAccounted :
    (e : Engine) (made : Option (Engine × RunRuntime)) (s : Schedule) (now : ℕ)
    → IsMade made
    → IsAccounted e
    → IsAccounted (launch_new e made s now).0
unfolding launch_new IsMade
launch_new-IsAccounted e none s now m a = a
launch_new-IsAccounted e (some (made, rt)) s now (m, good, begin) a =
    Keeps-IsAccounted (launch_attempt-Keeps made rt (some s) now m.bounds good begin) m

admit_run-IsAccounted :
    (e : Engine) (s : Schedule) (source : RunTriggerSource) (input : Option (List ℕ))
    (cursor : Option ℕ) (now : ℕ)
    → IsAccounted e
    → IsAccounted (admit_run e s source input cursor now).0
unfolding admit_run
admit_run-IsAccounted e s source input cursor now a =
    let P = λ (q : Engine × Option RequestError). IsAccounted q.0 in
    if_both P (dispatch_full e s || (has_active e.runtimes s.sid && is_skip (overlap_of s.policy)))
      (λ _. persist_skipped-IsAccounted e s source cursor now a)
      (λ _.
        if_both P (has_active e.runtimes s.sid && is_queue (overlap_of s.policy))
          (λ _.
            enqueue_new-IsAccounted e _
              (create_runtime-IsMade e s source input queued cursor now refl a) a)
          (λ _.
            launch_new-IsAccounted e _ s now
              (create_runtime-IsMade e s source input launching cursor now refl a) a))

pub launch_run-IsAccounted :
    (e : Engine) (s : Schedule) (source : RunTriggerSource) (input : Option (List ℕ))
    (cursor : Option ℕ) (admits allows : Bool) (fresh : List ℕ) (now : ℕ)
    → IsAccounted e
    → IsAccounted (launch_run e s source input cursor admits allows fresh now).0
unfolding launch_run
launch_run-IsAccounted e s source input cursor admits allows fresh now a =
    let P = λ (q : Engine × Option RequestError). IsAccounted q.0 in
    if_both P e.disposed (λ _. a)
      (λ _.
        if_both P (e.dispatch_only && not (is_dispatch s.target.run_kind)) (λ _. a)
          (λ _.
            if_both P (expired s.target.dispatch now)
              (λ _. Keeps-IsAccounted (set_enabled-Keeps e s.sid false fresh now a.bounds) a)
              (λ _.
                if_both P (not admits) (λ _. a)
                  (λ _.
                    if_both P (not allows) (λ _. a)
                      (λ _. admit_run-IsAccounted e s source input cursor now a)))))

pub trigger_found-IsAccounted :
    (e : Engine) (found : Option Schedule) (source : RunTriggerSource) (input : Option (List ℕ))
    (admits allows : Bool) (fresh : List ℕ) (now : ℕ)
    → IsAccounted e
    → IsAccounted (trigger_found e found source input admits allows fresh now).0
unfolding trigger_found
trigger_found-IsAccounted e none source input admits allows fresh now a = a
trigger_found-IsAccounted e (some s) source input admits allows fresh now a =
    if_both (λ (q : Engine × Option RequestError). IsAccounted q.0) s.enabled
      (λ _. launch_run-IsAccounted e s source input none admits allows fresh now a) (λ _. a)
