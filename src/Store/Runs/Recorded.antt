-- ===== src/Store/Runs/Recorded.antt =====
-- A run event that packages/core/src/store.ts has recorded comes in every replay until it is acknowledged.
use agent_phonon.Base.{
  ℕ, ◌+◌, ◌≤◌, ◌≡◌, refl, Bool, true, false, List, [], ◌∷◌, ◌++◌, Option, none, some, arith,
  if_both, if◌then◌else◌, ◌==◌, ◌&&◌, ◌||◌, ok,
}
use agent_phonon.Store.Write.{Disk, works, fails, fails_late, delivery_write, settle}
use agent_phonon.Store.Runs.Rows.{RunRow, RunEventRow, RunTables}
use agent_phonon.Store.Runs.{
  update_run, put_run, upsert_run, insert_event, append_event, append_run_event, acked_row,
  ack_rows, ack_tables, ack_run, claim_row, claim_rows, claim_run, renew_rows, renew_run_lease,
  release_rows, release_run, unacked_events_of, unacked_run_events,
}
use agent_phonon.Store.Runs.Traces.{
  RunOp, upserts, appends, acks, claims, renews, releases, run_op, run_ops, column,
}
use agent_phonon.Js.Text.{text_eq}
use agent_phonon.Js.Text.Order.{text_eq_iff}

unfoldable pub has_event : List RunEventRow → ℕ → ℕ → ℕ → List ℕ → Bool
has_event [] run tenant seq said = false
has_event (e ∷ events) run tenant seq said =
    (e.event_run == run && e.event_tenant == tenant && e.seq == seq && text_eq e.payload said)
    || has_event events run tenant seq said

-- The key of an event is in use.
unfoldable pub has_key : List RunEventRow → ℕ → ℕ → ℕ → Bool
has_key [] run tenant seq = false
has_key (e ∷ events) run tenant seq =
    (e.event_run == run && e.event_tenant == tenant && e.seq == seq)
    || has_key events run tenant seq

-- The run is there, and it is the tenant's.
unfoldable pub has_run : List RunRow → ℕ → ℕ → Bool
has_run [] run tenant = false
has_run (r ∷ rows) run tenant =
    if r.id == run then r.tenant_id == tenant else has_run rows run tenant

abbrev pub recorded : RunTables → ℕ → ℕ → ℕ → List ℕ → Bool
recorded db run tenant seq said =
    has_run db.runs run tenant && has_event db.run_events run tenant seq said

has_event-append :
    (xs ys : List RunEventRow) (run tenant seq : ℕ) (said : List ℕ)
    → has_event (xs ++ ys) run tenant seq said
      ≡ (has_event xs run tenant seq said || has_event ys run tenant seq said)
unfolding has_event
has_event-append [] ys run tenant seq said = refl
has_event-append (e ∷ xs) ys run tenant seq said =
    ground (arith, has_event-append xs ys run tenant seq said)

unacked_events_of-has_event :
    (events : List RunEventRow) (r : RunRow) (seq : ℕ) (said : List ℕ)
    → r.acked ≤ seq
    → has_event events r.id r.tenant_id seq said ≡ true
    → has_event (unacked_events_of events r) r.id r.tenant_id seq said ≡ true
unfolding has_event unacked_events_of
unacked_events_of-has_event [] r seq said le h = h
unacked_events_of-has_event (e ∷ events) r seq said le h =
    ground (arith, unacked_events_of-has_event events r seq said le)

unacked_run_events-has_event :
    (rows : List RunRow) (events : List RunEventRow) (run tenant seq : ℕ) (said : List ℕ)
    → has_run rows run tenant ≡ true
    → has_event events run tenant seq said ≡ true
    → column (λ r. r.acked) rows run ≤ seq
    → has_event (unacked_run_events rows events tenant) run tenant seq said ≡ true
unfolding unacked_run_events has_run column
unacked_run_events-has_event [] events run tenant seq said r h le = cc
unacked_run_events-has_event (x ∷ rows) events run tenant seq said r h le = ground (
  arith,
  unacked_events_of-has_event events x seq said,
  unacked_run_events-has_event rows events run tenant seq said,
  has_event-append (unacked_events_of events x) (unacked_run_events rows events tenant) run tenant
      seq said,
)

put_run-has_run :
    (rows : List RunRow) (new : RunRow) (run tenant : ℕ)
    → has_run rows run tenant ≡ true
    → has_run (put_run rows new).0 run tenant ≡ true
unfolding put_run has_run update_run
put_run-has_run [] new run tenant h = cc
put_run-has_run (old ∷ rows) new run tenant h = ground (arith, put_run-has_run rows new run tenant)

ack_rows-has_run :
    (rows : List RunRow) (k owner : ℕ) (last : Option ℕ) (finished : Bool) (run tenant : ℕ)
    → has_run rows run tenant ≡ true
    → has_run (ack_rows rows k owner last finished).0 run tenant ≡ true
unfolding ack_rows has_run acked_row
ack_rows-has_run [] k owner last finished run tenant h = h
ack_rows-has_run (r ∷ rows) k owner none finished run tenant h =
    ground (arith, ack_rows-has_run rows k owner none finished run tenant)
ack_rows-has_run (r ∷ rows) k owner (some last) finished run tenant h =
    ground (arith, ack_rows-has_run rows k owner (some last) finished run tenant)

claim_rows-has_run :
    (rows : List RunRow) (k tenant' owner now lease_ms run tenant : ℕ)
    → has_run rows run tenant ≡ true
    → has_run (claim_rows rows k tenant' owner now lease_ms).0 run tenant ≡ true
unfolding claim_rows claim_row has_run
claim_rows-has_run [] k tenant' owner now lease_ms run tenant h = h
claim_rows-has_run (r ∷ rows) k tenant' owner now lease_ms run tenant h =
    ground (arith, claim_rows-has_run rows k tenant' owner now lease_ms run tenant)

renew_rows-has_run :
    (rows : List RunRow) (k tenant' owner epoch until run tenant : ℕ)
    → has_run rows run tenant ≡ true
    → has_run (renew_rows rows k tenant' owner epoch until).0 run tenant ≡ true
unfolding renew_rows has_run
renew_rows-has_run [] k tenant' owner epoch until run tenant h = h
renew_rows-has_run (r ∷ rows) k tenant' owner epoch until run tenant h =
    ground (arith, renew_rows-has_run rows k tenant' owner epoch until run tenant)

release_rows-has_run :
    (rows : List RunRow) (k tenant' owner epoch run tenant : ℕ)
    → has_run rows run tenant ≡ true
    → has_run (release_rows rows k tenant' owner epoch).0 run tenant ≡ true
unfolding release_rows has_run
release_rows-has_run [] k tenant' owner epoch run tenant h = h
release_rows-has_run (r ∷ rows) k tenant' owner epoch run tenant h =
    ground (arith, release_rows-has_run rows k tenant' owner epoch run tenant)

insert_event-has_event :
    (events : List RunEventRow) (e : RunEventRow) (run tenant seq : ℕ) (said : List ℕ)
    → has_event events run tenant seq said ≡ true
    → has_event (insert_event events e) run tenant seq said ≡ true
unfolding insert_event has_event
insert_event-has_event [] e run tenant seq said h = cc
insert_event-has_event (x ∷ events) e run tenant seq said h =
    ground (arith, insert_event-has_event events e run tenant seq said)

append_event-recorded :
    (db : RunTables) (row : RunRow) (n : ℕ) (payload : List ℕ) (run tenant seq : ℕ) (said : List ℕ)
    → recorded db run tenant seq said ≡ true
    → recorded (append_event db row n payload).0 run tenant seq said ≡ true
unfolding append_event upsert_run
append_event-recorded db row n payload run tenant seq said h =
    let e : RunEventRow = record {
      event_run = row.id;
      event_tenant = row.tenant_id;
      seq = n;
      payload = payload;
    } in
    let kept = put_run-has_run db.runs row run tenant (ground (arith, h)) in
    let found = insert_event-has_event db.run_events e run tenant seq said (ground (arith, h)) in
    if_both (λ (q : RunTables × Bool). recorded q.0 run tenant seq said ≡ true)
      (put_run db.runs row).1 (λ _. ground (arith, kept, found)) (λ _. h)

settle-recorded :
    (disk : Disk) (db next : RunTables) (answer : Bool) (run tenant seq : ℕ) (said : List ℕ)
    → recorded db run tenant seq said ≡ true
    → recorded next run tenant seq said ≡ true
    → recorded (settle disk db (ok (next, answer))).0 run tenant seq said ≡ true
unfolding settle
settle-recorded works db next answer run tenant seq said h n = n
settle-recorded fails db next answer run tenant seq said h n = h
settle-recorded fails_late db next answer run tenant seq said h n = n

run_op-recorded :
    (db : RunTables) (o : RunOp) (run tenant seq : ℕ) (said : List ℕ)
    → recorded db run tenant seq said ≡ true
    → recorded (run_op db o) run tenant seq said ≡ true
unfolding run_op upsert_run append_run_event ack_run ack_tables claim_run renew_run_lease
    release_run delivery_write
run_op-recorded db (upserts row) run tenant seq said h =
    ground (arith, h, put_run-has_run db.runs row run tenant)
run_op-recorded db (appends disk row n payload) run tenant seq said h =
    settle-recorded disk db _ _ run tenant seq said h
      (append_event-recorded db row n payload run tenant seq said h)
run_op-recorded db (acks disk k t last finished) run tenant seq said h =
    settle-recorded disk db (ack_tables db k t last finished).0 _ run tenant seq said h
      (ground (arith, h, ack_rows-has_run db.runs k t last finished run tenant))
run_op-recorded db (claims k t owner now lease_ms) run tenant seq said h =
    ground (arith, h, claim_rows-has_run db.runs k t owner now lease_ms run tenant)
run_op-recorded db (renews k t owner epoch now lease_ms) run tenant seq said h =
    ground (arith, h, renew_rows-has_run db.runs k t owner epoch (now + lease_ms) run tenant)
run_op-recorded db (releases k t owner epoch) run tenant seq said h =
    ground (arith, h, release_rows-has_run db.runs k t owner epoch run tenant)

run_ops-recorded :
    (db : RunTables) (ops : List RunOp) (run tenant seq : ℕ) (said : List ℕ)
    → recorded db run tenant seq said ≡ true
    → recorded (run_ops db ops) run tenant seq said ≡ true
unfolding run_ops
run_ops-recorded db [] run tenant seq said h = h
run_ops-recorded db (o ∷ ops) run tenant seq said h =
    run_ops-recorded (run_op db o) ops run tenant seq said
      (run_op-recorded db o run tenant seq said h)

put_run-changed :
    (rows : List RunRow) (new : RunRow)
    → (put_run rows new).1 ≡ true
    → has_run (put_run rows new).0 new.id new.tenant_id ≡ true
unfolding put_run has_run update_run
put_run-changed [] new h = ground arith
put_run-changed (old ∷ rows) new h = ground (arith, put_run-changed rows new)

insert_event-here :
    (events : List RunEventRow) (e : RunEventRow)
    → has_key events e.event_run e.event_tenant e.seq ≡ false
    → has_event (insert_event events e) e.event_run e.event_tenant e.seq e.payload ≡ true
unfolding insert_event has_event has_key
insert_event-here [] e new = ground (arith, text_eq_iff e.payload e.payload)
insert_event-here (x ∷ events) e new = ground (arith, new, insert_event-here events e)

append_event-persisted :
    (db : RunTables) (row : RunRow) (n : ℕ) (payload : List ℕ)
    → has_key db.run_events row.id row.tenant_id n ≡ false
    → (append_event db row n payload).1 ≡ true
    → recorded (append_event db row n payload).0 row.id row.tenant_id n payload ≡ true
unfolding append_event upsert_run
append_event-persisted db row n payload new h =
    let e : RunEventRow = record {
      event_run = row.id;
      event_tenant = row.tenant_id;
      seq = n;
      payload = payload;
    } in
    let kept = put_run-changed db.runs row in
    let found = insert_event-here db.run_events e new in ground (arith, h, kept, found)

-- The tables behind an append and any operations that follow it.
abbrev pub behind : RunTables → RunRow → ℕ → List ℕ → List RunOp → RunTables
behind db row seq payload ops = run_ops (append_event db row seq payload).0 ops

-- An event whose append was persisted under a number that its run had not used comes, with its payload, in
-- the replay behind any later operations on the tables, as long as the run's mark has not been acknowledged
-- beyond it.
pub append_event-replayed :
    (db : RunTables) (row : RunRow) (seq : ℕ) (payload : List ℕ) (ops : List RunOp)
    → has_key db.run_events row.id row.tenant_id seq ≡ false
    → (append_event db row seq payload).1 ≡ true
    → column (λ r. r.acked) (behind db row seq payload ops).runs row.id ≤ seq
    → let later = behind db row seq payload ops in
      has_event
        (unacked_run_events later.runs later.run_events row.tenant_id)
        row.id
        row.tenant_id
        seq
        payload
      ≡ true
append_event-replayed db row seq payload ops new persisted le =
    let later = behind db row seq payload ops in
    let kept =
      run_ops-recorded (append_event db row seq payload).0 ops row.id row.tenant_id seq payload
        (append_event-persisted db row seq payload new persisted) in
    unacked_run_events-has_event later.runs later.run_events row.id row.tenant_id seq payload
      (ground (arith, kept)) (ground (arith, kept)) le
