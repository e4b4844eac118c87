-- ===== src/Scheduler/Counts.antt =====
-- How often a run is announced as finished, and how many attempts it has made, in
-- packages/core/src/scheduler-engine.ts: the counts, and what the maps' operations do to them.
use agent_phonon.Base.{
  ℕ, ◌+◌, ◌≤◌, ◌≡◌, refl, subst, Bool, true, not, ◌&&◌, List, [], ◌∷◌, ◌++◌, none, some, arith,
  if◌then◌else◌, ◌==◌, leb, ltb, inl, inr, Bool-cases,
}
use agent_phonon.Scheduler.State.{
  RunRuntime, Run, SchedulePushConsent, full, summary, status_only, ScheduleTrigger, cron_trigger,
  webhook_trigger, manual_trigger, Emission, run_started, run_event, run_finished, schedule_changed,
  schedule_removed, event_repeated, run_repeated,
}
use agent_phonon.Scheduler.Tables.{
  is_queued, is_retrying, find_runtime, put_runtime, delete_runtime,
}
use agent_phonon.Js.Text.{text_eq}
use agent_phonon.Scheduler.Shape.{is_some, is_full, shape_run_for_push}

-- 1 for the announcement that the run has finished.
abbrev pub announces : Emission → ℕ → ℕ
announces (run_started run consent) id = 0
announces (run_event run schedule seq payload consent) id = 0
announces (run_finished run push) id = if run.id == id then 1 else 0
announces (schedule_changed s) id = 0
announces (schedule_removed schedule) id = 0
announces (event_repeated row) id = 0
announces (run_repeated run consent) id = 0

unfoldable pub finished : List Emission → ℕ → ℕ
finished [] id = 0
finished (emission ∷ emitted) id = announces emission id + finished emitted id

-- What a run may say of itself under a consent: under `summary` neither its transcript nor its input,
-- under `status_only` nothing but its identity, its status and its times.
abbrev pub says_within : Run → SchedulePushConsent → Bool
says_within run full = true
says_within run summary = not (is_some run.transcript_path) && not (is_some run.input)
says_within run status_only =
    not (is_some run.dispatch)
    && not (is_some run.input)
    && not (is_some run.session_id)
    && not (is_some run.workflow_id)
    && not (is_some run.exit_reason)
    && not (is_some run.error)
    && not (is_some run.transcript_path)
    && not (is_some run.result_text)
    && not (is_some run.usage)
    && not (is_some run.attempt)
    && not (is_some run.max_attempts)
    && not (is_some run.retry_history)

-- A webhook's token is absent, empty, or the mask.
abbrev pub hides_token : ScheduleTrigger → Bool
hides_token (cron_trigger expr tz) = true
hides_token (webhook_trigger none) = true
hides_token (webhook_trigger (some [])) = true
hides_token (webhook_trigger (some (c ∷ token))) = text_eq (c ∷ token) (42 ∷ 42 ∷ 42 ∷ [])
hides_token manual_trigger = true

unfoldable pub discreet : Emission → Bool
discreet (run_started run consent) = says_within run consent
discreet (run_event run schedule seq payload consent) = is_full consent
discreet (run_finished run consent) = says_within run consent
discreet (schedule_changed s) = hides_token s.trigger
discreet (schedule_removed schedule) = true
discreet (event_repeated row) = true
discreet (run_repeated run consent) = says_within run consent

unfoldable pub all_discreet : List Emission → Bool
all_discreet [] = true
all_discreet (emission ∷ emitted) = discreet emission && all_discreet emitted

pub shape_run_for_push-says_within :
    (run : Run) (push : SchedulePushConsent) → says_within (shape_run_for_push run push) push ≡ true
unfolding shape_run_for_push
shape_run_for_push-says_within run full = refl
shape_run_for_push-says_within run summary = refl
shape_run_for_push-says_within run status_only = refl

unfoldable pub alive : List RunRuntime → ℕ → ℕ
alive [] id = 0
alive (rt ∷ runtimes) id = (if rt.run_id == id then 1 else 0) + alive runtimes id

-- The attempts of a runtime are within its limit, one that waits for a retry has one left, and one that
-- is queued has made none.
unfoldable pub attempts_ok : RunRuntime → Bool
attempts_ok rt =
    leb rt.attempt rt.max_attempts
    && leb 1 rt.max_attempts
    && (if is_retrying rt.phase then ltb rt.attempt rt.max_attempts else true)
    && (if is_queued rt.phase then rt.attempt == 0 else true)

unfoldable pub bounded : List RunRuntime → Bool
bounded [] = true
bounded (rt ∷ runtimes) = attempts_ok rt && bounded runtimes

pub shape_run_for_push-id :
    (run : Run) (push : SchedulePushConsent) → (shape_run_for_push run push).id ≡ run.id
unfolding shape_run_for_push
shape_run_for_push-id run full = refl
shape_run_for_push-id run summary = refl
shape_run_for_push-id run status_only = refl

pub alive-put_runtime :
    (runtimes : List RunRuntime) (rt : RunRuntime) (id : ℕ)
    → alive (put_runtime runtimes rt) id ≡ alive runtimes id
unfolding alive put_runtime
alive-put_runtime [] rt id = refl
alive-put_runtime (old ∷ runtimes) rt id = ground (arith, alive-put_runtime runtimes rt id)

pub alive-append :
    (xs ys : List RunRuntime) (id : ℕ) → alive (xs ++ ys) id ≡ alive xs id + alive ys id
unfolding alive
alive-append [] ys id = ground arith
alive-append (x ∷ xs) ys id = ground (arith, alive-append xs ys id)

pub alive-delete_runtime :
    (runtimes : List RunRuntime) (k id : ℕ)
    → alive (delete_runtime runtimes k) id ≤ alive runtimes id
unfolding alive delete_runtime
alive-delete_runtime [] k id = ground arith
alive-delete_runtime (old ∷ runtimes) k id = ground (arith, alive-delete_runtime runtimes k id)

pub alive-delete_found :
    (runtimes : List RunRuntime) (k id : ℕ) (rt : RunRuntime)
    → find_runtime runtimes k ≡ some rt
    → alive (delete_runtime runtimes k) id + (if rt.run_id == id then 1 else 0) ≡ alive runtimes id
unfolding alive delete_runtime find_runtime
alive-delete_found [] k id rt h = cc
alive-delete_found (old ∷ runtimes) k id rt h =
    ground (arith, h, alive-delete_found runtimes k id rt)

pub find_runtime-id :
    (runtimes : List RunRuntime) (k : ℕ) (rt : RunRuntime)
    → find_runtime runtimes k ≡ some rt
    → rt.run_id ≡ k
unfolding find_runtime
find_runtime-id [] k rt h = cc
find_runtime-id (old ∷ runtimes) k rt h = ground (arith, h, find_runtime-id runtimes k rt)

pub bounded-put_runtime :
    (runtimes : List RunRuntime) (rt : RunRuntime)
    → bounded runtimes ≡ true
    → attempts_ok rt ≡ true
    → bounded (put_runtime runtimes rt) ≡ true
unfolding bounded put_runtime
bounded-put_runtime [] rt b ok = refl
bounded-put_runtime (old ∷ runtimes) rt b ok =
    ground (arith, b, ok, bounded-put_runtime runtimes rt)

pub bounded-delete_runtime :
    (runtimes : List RunRuntime) (k : ℕ)
    → bounded runtimes ≡ true
    → bounded (delete_runtime runtimes k) ≡ true
unfolding bounded delete_runtime
bounded-delete_runtime [] k b = refl
bounded-delete_runtime (old ∷ runtimes) k b = ground (arith, b, bounded-delete_runtime runtimes k)

pub bounded-append :
    (runtimes : List RunRuntime) (rt : RunRuntime)
    → bounded runtimes ≡ true
    → attempts_ok rt ≡ true
    → bounded (runtimes ++ rt ∷ []) ≡ true
unfolding bounded
bounded-append [] rt b ok = ground (arith, ok)
bounded-append (old ∷ runtimes) rt b ok = ground (arith, b, bounded-append runtimes rt)

pub bounded-find_runtime :
    (runtimes : List RunRuntime) (k : ℕ) (rt : RunRuntime)
    → bounded runtimes ≡ true
    → find_runtime runtimes k ≡ some rt
    → attempts_ok rt ≡ true
unfolding bounded find_runtime
bounded-find_runtime [] k rt b h = cc
bounded-find_runtime (old ∷ runtimes) k rt b h = elim (Bool-cases (old.run_id == k)) [
  | inl hit ↦
      let same : old ≡ rt = ground arith in
      subst (λ x. attempts_ok x ≡ true) same (ground (arith, b))
  | inr miss ↦ bounded-find_runtime runtimes k rt (ground (arith, b)) (rw miss at h)
]
