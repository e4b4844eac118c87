-- ===== src/Store/Runs.antt =====
-- The tables runs and run_events of packages/core/src/store.ts, and the operations on them. A statement's
-- effect is a function of the rows; `deliveryWrite` and its disk are in Store/Write.
pub mod Rows
pub mod Traces
pub mod Fencing
pub mod Replays
pub mod Recorded
mod Tests
use agent_phonon.Base.{
  ℕ, suc, ◌+◌, Bool, true, false, not, ◌&&◌, ◌||◌, List, [], ◌∷◌, ◌++◌, Option, none, some, Result,
  ok, err, if◌then◌else◌, ltb, leb, ◌==◌, min, max,
}
use agent_phonon.Store.Write.{Disk, StoreError, delivery_write, io_error}
use agent_phonon.Store.Runs.Rows.{
  RunStatus, pending, running, success, failed, timeout, cancelled, skipped, PushState,
  push_pending, acked_push, ScheduleDispatch, RunRow, RunEventRow, RunTables,
}

-- `SELECT * FROM runs WHERE id=?`.
unfoldable pub find_run : List RunRow → ℕ → Option RunRow
find_run [] k = none
find_run (r ∷ rows) k = if r.id == k then some r else find_run rows k

-- `=` of SQL on a column that may be NULL, with a value that is not.
abbrev pub owned_by : Option ℕ → ℕ → Bool
owned_by none owner = false
owned_by (some o) owner = o == owner

-- `runs.owner_id IS NULL AND excluded.owner_id IS NULL`, or the two agree in owner and epoch.
abbrev pub same_owner : RunRow → RunRow → Option ℕ → Option ℕ → Bool
same_owner old new none none = true
same_owner old new none (some n) = false
same_owner old new (some o) none = false
same_owner old new (some o) (some n) = o == n && old.owner_epoch == new.owner_epoch

abbrev pub may_update : RunRow → RunRow → Bool
may_update old new = old.tenant_id == new.tenant_id && same_owner old new old.owner_id new.owner_id

abbrev pub keep_acked : PushState → PushState → PushState
keep_acked acked_push new = acked_push
keep_acked push_pending new = new

abbrev pub coalesce : Option ScheduleDispatch → Option ScheduleDispatch → Option ScheduleDispatch
coalesce none new = new
coalesce (some d) new = some d

-- `ON CONFLICT(id) DO UPDATE SET ...`.
unfoldable pub update_run : RunRow → RunRow → RunRow
update_run old new = record old {
  status = new.status;
  session_id = new.session_id;
  workflow_id = new.workflow_id;
  started_at = new.started_at;
  finished_at = new.finished_at;
  exit_reason = new.exit_reason;
  error = new.error;
  transcript_path = new.transcript_path;
  result_text = new.result_text;
  usage = new.usage;
  push_state = keep_acked old.push_state new.push_state;
  acked = max old.acked new.acked;
  attempt = new.attempt;
  max_attempts = new.max_attempts;
  retry_history = new.retry_history;
  input = new.input;
  dispatch = coalesce old.dispatch new.dispatch;
  phase = new.phase;
  retry_at = new.retry_at;
  lease_until = new.lease_until;
  event_seq = max old.event_seq new.event_seq;
}

-- The rows behind the statement, and whether it changed one.
unfoldable pub put_run : List RunRow → RunRow → List RunRow × Bool
unfolding update_run
put_run [] new = (new ∷ [], true)
put_run (old ∷ rows) new =
    let (rest, changed) = put_run rows new in
    if old.id == new.id
    then (if may_update old new then (update_run old new ∷ rows, true) else (old ∷ rows, false))
    else (old ∷ rest, changed)

unfoldable pub upsert_run : RunTables → RunRow → RunTables × Bool
unfolding put_run
upsert_run db row =
    let (rows, changed) = put_run db.runs row in (record db { runs = rows }, changed)

-- `INSERT OR IGNORE` on the key (run_id, tenant_id, seq).
unfoldable pub insert_event : List RunEventRow → RunEventRow → List RunEventRow
insert_event [] e = e ∷ []
insert_event (x ∷ events) e =
    let rest = insert_event events e in
    if x.event_run == e.event_run && x.event_tenant == e.event_tenant && x.seq == e.seq
    then x ∷ events
    else x ∷ rest

unfoldable pub append_event : RunTables → RunRow → ℕ → List ℕ → RunTables × Bool
unfolding upsert_run insert_event
append_event db row seq payload =
    let (written, persisted) = upsert_run db row in
    if persisted
    then (
      record written {
        run_events = insert_event written.run_events (record {
          event_run = row.id;
          event_tenant = row.tenant_id;
          seq = seq;
          payload = payload;
        });
      },
      true,
    )
    else (db, false)

unfoldable pub append_run_event :
    Disk → RunTables → RunRow → ℕ → List ℕ → RunTables × Result StoreError Bool
unfolding append_event delivery_write
append_run_event disk db row seq payload =
    delivery_write disk (λ d. ok (append_event d row seq payload)) db

-- What `ackRun` sets; `last` is `lastSeq` plus one.
unfoldable pub acked_row : RunRow → Option ℕ → Bool → RunRow
acked_row r none finished = record r {
  push_state = (if finished then acked_push else r.push_state);
}
acked_row r (some last) finished = record r {
  acked = max r.acked (min last r.event_seq);
  push_state = (if finished then acked_push else r.push_state);
}

unfoldable pub ack_rows : List RunRow → ℕ → ℕ → Option ℕ → Bool → List RunRow × Bool
unfolding acked_row
ack_rows [] run tenant last finished = ([], false)
ack_rows (r ∷ rows) run tenant last finished =
    let (rest, changed) = ack_rows rows run tenant last finished in
    if r.id == run
    then (if r.tenant_id == tenant
        then (acked_row r last finished ∷ rows, true)
        else (r ∷ rows, false))
    else (r ∷ rest, changed)

unfoldable pub ack_tables : RunTables → ℕ → ℕ → Option ℕ → Bool → RunTables × Bool
unfolding ack_rows
ack_tables db run tenant last finished =
    let (rows, changed) = ack_rows db.runs run tenant last finished in
    (record db { runs = rows }, changed)

unfoldable pub ack_run :
    Disk → RunTables → ℕ → ℕ → Option ℕ → Bool → RunTables × Result StoreError Bool
unfolding ack_tables delivery_write
ack_run disk db run tenant last finished =
    delivery_write disk (λ d. ok (ack_tables d run tenant last finished)) db

-- Another owner holds the run while its lease lasts.
abbrev pub held_by_other : Option ℕ → Option ℕ → ℕ → ℕ → Bool
held_by_other none lease owner now = false
held_by_other (some o) none owner now = false
held_by_other (some o) (some until) owner now = not (o == owner) && ltb now until

abbrev pub claim_epoch : RunRow → ℕ → ℕ
claim_epoch r owner = if owned_by r.owner_id owner then r.owner_epoch else r.owner_epoch + 1

unfoldable pub claim_row : RunRow → ℕ → ℕ → ℕ → ℕ → RunRow × Option ℕ
claim_row r tenant owner now lease_ms =
    if not (r.tenant_id == tenant) || held_by_other r.owner_id r.lease_until owner now
    then (r, none)
    else (
      record r {
        owner_id = some owner;
        owner_epoch = claim_epoch r owner;
        lease_until = some (now + lease_ms);
      },
      some (claim_epoch r owner),
    )

unfoldable pub claim_rows : List RunRow → ℕ → ℕ → ℕ → ℕ → ℕ → List RunRow × Option ℕ
unfolding claim_row
claim_rows [] run tenant owner now lease_ms = ([], none)
claim_rows (r ∷ rows) run tenant owner now lease_ms =
    let (rest, epoch) = claim_rows rows run tenant owner now lease_ms in
    let (row, granted) = claim_row r tenant owner now lease_ms in
    if r.id == run then (row ∷ rows, granted) else (r ∷ rest, epoch)

unfoldable pub claim_run : RunTables → ℕ → ℕ → ℕ → ℕ → ℕ → RunTables × Option ℕ
unfolding claim_rows
claim_run db run tenant owner now lease_ms =
    let (rows, epoch) = claim_rows db.runs run tenant owner now lease_ms in
    (record db { runs = rows }, epoch)

-- `tenant_id=? AND owner_id=? AND owner_epoch=?`, of the one row that has the id.
abbrev pub is_held : RunRow → ℕ → ℕ → ℕ → Bool
is_held r tenant owner epoch =
    r.tenant_id == tenant && owned_by r.owner_id owner && r.owner_epoch == epoch

unfoldable pub renew_rows : List RunRow → ℕ → ℕ → ℕ → ℕ → ℕ → List RunRow × Bool
renew_rows [] run tenant owner epoch until = ([], false)
renew_rows (r ∷ rows) run tenant owner epoch until =
    let (rest, changed) = renew_rows rows run tenant owner epoch until in
    if r.id == run
    then (if is_held r tenant owner epoch
        then (record r { lease_until = some until } ∷ rows, true)
        else (r ∷ rows, false))
    else (r ∷ rest, changed)

unfoldable pub renew_run_lease : RunTables → ℕ → ℕ → ℕ → ℕ → ℕ → ℕ → RunTables × Bool
unfolding renew_rows
renew_run_lease db run tenant owner epoch now lease_ms =
    let (rows, changed) = renew_rows db.runs run tenant owner epoch (now + lease_ms) in
    (record db { runs = rows }, changed)

unfoldable pub release_rows : List RunRow → ℕ → ℕ → ℕ → ℕ → List RunRow × Bool
release_rows [] run tenant owner epoch = ([], false)
release_rows (r ∷ rows) run tenant owner epoch =
    let (rest, changed) = release_rows rows run tenant owner epoch in
    if r.id == run
    then (if is_held r tenant owner epoch
        then (
          record r { owner_id = none; owner_epoch = r.owner_epoch + 1; lease_until = none } ∷ rows,
          true,
        )
        else (r ∷ rows, false))
    else (r ∷ rest, changed)

unfoldable pub release_run : RunTables → ℕ → ℕ → ℕ → ℕ → RunTables × Bool
unfolding release_rows
release_run db run tenant owner epoch =
    let (rows, changed) = release_rows db.runs run tenant owner epoch in
    (record db { runs = rows }, changed)

abbrev pub of_tenant : Option RunRow → ℕ → Option RunRow
of_tenant none tenant = none
of_tenant (some r) tenant = if r.tenant_id == tenant then some r else none

unfoldable pub get_run : RunTables → ℕ → ℕ → Option RunRow
unfolding find_run
get_run db run tenant = of_tenant (find_run db.runs run) tenant

-- The statuses of `TERMINAL`.
abbrev pub is_terminal : RunStatus → Bool
is_terminal pending = false
is_terminal running = false
is_terminal success = true
is_terminal failed = true
is_terminal timeout = true
is_terminal cancelled = true
is_terminal skipped = true

abbrev pub is_acked : PushState → Bool
is_acked push_pending = false
is_acked acked_push = true

-- The rows come in the order in which they were created, which is that of the list.
unfoldable pub list_active_runs : List RunRow → ℕ → List RunRow
list_active_runs [] tenant = []
list_active_runs (r ∷ rows) tenant =
    let rest = list_active_runs rows tenant in
    if r.tenant_id == tenant && not (is_terminal r.status) then r ∷ rest else rest

unfoldable pub list_unacked_finished_runs : List RunRow → ℕ → List RunRow
list_unacked_finished_runs [] tenant = []
list_unacked_finished_runs (r ∷ rows) tenant =
    let rest = list_unacked_finished_runs rows tenant in
    if r.tenant_id == tenant && not (is_acked r.push_state) && is_terminal r.status
    then r ∷ rest
    else rest

-- `JOIN runs r ON r.id=e.run_id AND r.tenant_id=e.tenant_id WHERE e.seq>r.acked_seq`, for one run.
unfoldable pub unacked_events_of : List RunEventRow → RunRow → List RunEventRow
unacked_events_of [] r = []
unacked_events_of (e ∷ events) r =
    let rest = unacked_events_of events r in
    if e.event_run == r.id && e.event_tenant == r.tenant_id && leb r.acked e.seq
    then e ∷ rest
    else rest

unfoldable pub unacked_run_events : List RunRow → List RunEventRow → ℕ → List RunEventRow
unfolding unacked_events_of
unacked_run_events [] events tenant = []
unacked_run_events (r ∷ rows) events tenant =
    let rest = unacked_run_events rows events tenant in
    if r.tenant_id == tenant then unacked_events_of events r ++ rest else rest
