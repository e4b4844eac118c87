-- ===== src/Store/Runs/Replays.antt =====
-- Which run events packages/core/src/store.ts replays: acknowledged marks stay within what was recorded.
use agent_phonon.Base.{
  ℕ, ◌+◌, ◌≡◌, refl, Bool, true, List, [], ◌∷◌, Option, arith, if_both, leb, ◌&&◌, ok,
}
use agent_phonon.Store.Write.{Disk, works, fails, fails_late, delivery_write, settle}
use agent_phonon.Store.Runs.Rows.{RunRow, RunTables}
use agent_phonon.Store.Runs.{
  update_run, put_run, upsert_run, append_event, append_run_event, acked_row, ack_rows, ack_tables,
  ack_run, claim_row, claim_rows, claim_run, renew_rows, renew_run_lease, release_rows, release_run,
}
use agent_phonon.Store.Runs.Traces.{
  RunOp, upserts, appends, acks, claims, renews, releases, run_op, run_ops,
}

-- No row counts more events as acknowledged than it has.
unfoldable pub within : List RunRow → Bool
within [] = true
within (r ∷ rows) = leb r.acked r.event_seq && within rows

-- The rows that callers write are so: the mark is one of the events that the runtime has numbered.
abbrev pub writes_within : RunOp → Bool
writes_within (upserts row) = leb row.acked row.event_seq
writes_within (appends disk row seq payload) = leb row.acked row.event_seq
writes_within (acks disk run tenant last finished) = true
writes_within (claims run tenant owner now lease_ms) = true
writes_within (renews run tenant owner epoch now lease_ms) = true
writes_within (releases run tenant owner epoch) = true

unfoldable pub write_within : List RunOp → Bool
write_within [] = true
write_within (o ∷ ops) = writes_within o && write_within ops

put_run-within :
    (rows : List RunRow) (new : RunRow)
    → within rows ≡ true
    → leb new.acked new.event_seq ≡ true
    → within (put_run rows new).0 ≡ true
unfolding put_run within update_run
put_run-within [] new w n = ground arith
put_run-within (old ∷ rows) new w n = ground (arith, put_run-within rows new)

ack_rows-within :
    (rows : List RunRow) (run tenant : ℕ) (last : Option ℕ) (finished : Bool)
    → within rows ≡ true
    → within (ack_rows rows run tenant last finished).0 ≡ true
unfolding ack_rows within acked_row
ack_rows-within [] run tenant last finished w = refl
ack_rows-within (r ∷ rows) run tenant last finished w =
    ground (arith, ack_rows-within rows run tenant last finished)

claim_rows-within :
    (rows : List RunRow) (run tenant owner now lease_ms : ℕ)
    → within rows ≡ true
    → within (claim_rows rows run tenant owner now lease_ms).0 ≡ true
unfolding claim_rows claim_row within
claim_rows-within [] run tenant owner now lease_ms w = refl
claim_rows-within (r ∷ rows) run tenant owner now lease_ms w =
    ground (arith, claim_rows-within rows run tenant owner now lease_ms)

renew_rows-within :
    (rows : List RunRow) (run tenant owner epoch until : ℕ)
    → within rows ≡ true
    → within (renew_rows rows run tenant owner epoch until).0 ≡ true
unfolding renew_rows within
renew_rows-within [] run tenant owner epoch until w = refl
renew_rows-within (r ∷ rows) run tenant owner epoch until w =
    ground (arith, renew_rows-within rows run tenant owner epoch until)

release_rows-within :
    (rows : List RunRow) (run tenant owner epoch : ℕ)
    → within rows ≡ true
    → within (release_rows rows run tenant owner epoch).0 ≡ true
unfolding release_rows within
release_rows-within [] run tenant owner epoch w = refl
release_rows-within (r ∷ rows) run tenant owner epoch w =
    ground (arith, release_rows-within rows run tenant owner epoch)

settle-within :
    (disk : Disk) (db next : RunTables) (answer : Bool)
    → within db.runs ≡ true
    → within next.runs ≡ true
    → within (settle disk db (ok (next, answer))).0.runs ≡ true
unfolding settle
settle-within works db next answer w n = n
settle-within fails db next answer w n = w
settle-within fails_late db next answer w n = n

append_event-within :
    (db : RunTables) (row : RunRow) (seq : ℕ) (payload : List ℕ)
    → within db.runs ≡ true
    → leb row.acked row.event_seq ≡ true
    → within (append_event db row seq payload).0.runs ≡ true
unfolding append_event upsert_run
append_event-within db row seq payload w n =
    if_both (λ (q : RunTables × Bool). within q.0.runs ≡ true) (put_run db.runs row).1
      (λ _. put_run-within db.runs row w n) (λ _. w)

run_op-within :
    (db : RunTables) (o : RunOp)
    → within db.runs ≡ true
    → writes_within o ≡ true
    → within (run_op db o).runs ≡ true
unfolding run_op upsert_run append_run_event ack_run ack_tables claim_run renew_run_lease
    release_run delivery_write
run_op-within db (upserts row) w n = put_run-within db.runs row w n
run_op-within db (appends disk row seq payload) w n =
    settle-within disk db _ _ w (append_event-within db row seq payload w n)
run_op-within db (acks disk run tenant last finished) w n =
    settle-within disk db _ _ w (ack_rows-within db.runs run tenant last finished w)
run_op-within db (claims run tenant owner now lease_ms) w n =
    claim_rows-within db.runs run tenant owner now lease_ms w
run_op-within db (renews run tenant owner epoch now lease_ms) w n =
    renew_rows-within db.runs run tenant owner epoch (now + lease_ms) w
run_op-within db (releases run tenant owner epoch) w n =
    release_rows-within db.runs run tenant owner epoch w

-- Through any operations whose written rows are so, no row comes to count more events as acknowledged
-- than it has recorded, whatever the server acknowledges.
pub run_ops-within :
    (db : RunTables) (ops : List RunOp)
    → within db.runs ≡ true
    → write_within ops ≡ true
    → within (run_ops db ops).runs ≡ true
unfolding run_ops write_within
run_ops-within db [] w n = w
run_ops-within db (o ∷ ops) w n =
    run_ops-within (run_op db o) ops (run_op-within db o w (ground (arith, n))) (ground (arith, n))
