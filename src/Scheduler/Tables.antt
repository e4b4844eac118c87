-- ===== src/Scheduler/Tables.antt =====
-- The maps of packages/core/src/scheduler-engine.ts: the runtimes in the order of their insertion, the
-- mappings from an execution to its run, and the queues.
use agent_phonon.Base.{
  ℕ, Bool, true, false, not, ◌&&◌, List, [], ◌∷◌, Option, none, some, if◌then◌else◌, ◌==◌,
}
use agent_phonon.Store.Runs.{is_terminal}
use agent_phonon.Store.Runs.Rows.{RuntimePhase, queued, launching, phase_running, retry_wait}
use agent_phonon.Scheduler.State.{Schedule, RunRuntime}

abbrev pub is_queued : RuntimePhase → Bool
is_queued queued = true
is_queued launching = false
is_queued phase_running = false
is_queued retry_wait = false

abbrev pub is_retrying : RuntimePhase → Bool
is_retrying queued = false
is_retrying launching = false
is_retrying phase_running = false
is_retrying retry_wait = true

unfoldable pub find_runtime : List RunRuntime → ℕ → Option RunRuntime
find_runtime [] run = none
find_runtime (rt ∷ runtimes) run = if rt.run_id == run then some rt else find_runtime runtimes run

-- The object in the map is changed in place.
unfoldable pub put_runtime : List RunRuntime → RunRuntime → List RunRuntime
put_runtime [] rt = []
put_runtime (old ∷ runtimes) rt =
    let rest = put_runtime runtimes rt in
    if old.run_id == rt.run_id then rt ∷ runtimes else old ∷ rest

unfoldable pub delete_runtime : List RunRuntime → ℕ → List RunRuntime
delete_runtime [] run = []
delete_runtime (rt ∷ runtimes) run =
    let rest = delete_runtime runtimes run in if rt.run_id == run then runtimes else rt ∷ rest

-- `hasActive`.
unfoldable pub has_active : List RunRuntime → ℕ → Bool
has_active [] schedule = false
has_active (rt ∷ runtimes) schedule =
    if rt.schedule_id == schedule && not (is_queued rt.phase) && not (is_terminal rt.status)
    then true
    else has_active runtimes schedule

module _ {A : Type 0} where
  unfoldable pub get : List (ℕ × A) → ℕ → Option A
  get [] k = none
  get ((i, a) ∷ table) k = if i == k then some a else get table k

  unfoldable pub delete : List (ℕ × A) → ℕ → List (ℕ × A)
  delete [] k = []
  delete ((i, a) ∷ table) k = let rest = delete table k in if i == k then rest else (i, a) ∷ rest

  unfoldable pub set : List (ℕ × A) → ℕ → A → List (ℕ × A)
  set [] k a = (k, a) ∷ []
  set ((i, b) ∷ table) k a =
      let rest = set table k a in if i == k then (i, a) ∷ table else (i, b) ∷ rest

  abbrev pub delete_some : List (ℕ × A) → Option ℕ → List (ℕ × A)
  delete_some table none = table
  delete_some table (some k) = delete table k

-- `queues.get(id) ?? []`.
abbrev pub queue_or_empty : Option (List ℕ) → List ℕ
queue_or_empty none = []
queue_or_empty (some ids) = ids

unfoldable pub queue_of : List (ℕ × List ℕ) → ℕ → List ℕ
unfolding get
queue_of queues schedule = queue_or_empty (get queues schedule)

-- `queues.set`, or `delete` where nothing is left.
unfoldable pub store_queue : List (ℕ × List ℕ) → ℕ → List ℕ → List (ℕ × List ℕ)
unfolding set delete
store_queue queues schedule [] = delete queues schedule
store_queue queues schedule (i ∷ ids) = set queues schedule (i ∷ ids)

unfoldable pub without : List ℕ → ℕ → List ℕ
without [] run = []
without (i ∷ ids) run = let rest = without ids run in if i == run then rest else i ∷ rest

-- `getSchedule`.
unfoldable pub find_schedule : List Schedule → ℕ → ℕ → Option Schedule
find_schedule [] schedule tenant = none
find_schedule (s ∷ schedules) schedule tenant =
    if s.sid == schedule
    then (if s.tenant == tenant then some s else none)
    else find_schedule schedules schedule tenant
