-- ===== src/Store/Runs/Traces.antt =====
-- Sequences of the operations on the tables runs and run_events of packages/core/src/store.ts, and what they
-- leave of a row.
use agent_phonon.Base.{
  ℕ, ◌+◌, ◌≤◌, ◌≡◌, Bool, List, [], ◌∷◌, Option, none, some, arith, if_both, ok, if◌then◌else◌,
  ◌==◌,
}
use agent_phonon.Store.Write.{Disk, works, fails, fails_late, delivery_write, settle}
use agent_phonon.Store.Runs.Rows.{RunRow, RunTables}
use agent_phonon.Store.Runs.{
  update_run, put_run, upsert_run, append_event, append_run_event, acked_row, ack_rows, ack_tables,
  ack_run, claim_row, claim_rows, claim_run, renew_rows, renew_run_lease, release_rows, release_run,
}

pub data RunOp : Type 0 where
  upserts : RunRow → RunOp
  appends : Disk → RunRow → ℕ → List ℕ → RunOp
  acks : Disk → ℕ → ℕ → Option ℕ → Bool → RunOp
  claims : ℕ → ℕ → ℕ → ℕ → ℕ → RunOp
  renews : ℕ → ℕ → ℕ → ℕ → ℕ → ℕ → RunOp
  releases : ℕ → ℕ → ℕ → ℕ → RunOp

unfoldable pub run_op : RunTables → RunOp → RunTables
unfolding upsert_run append_run_event ack_run claim_run renew_run_lease release_run
run_op db (upserts row) = (upsert_run db row).0
run_op db (appends disk row seq payload) = (append_run_event disk db row seq payload).0
run_op db (acks disk run tenant last finished) = (ack_run disk db run tenant last finished).0
run_op db (claims run tenant owner now lease_ms) = (claim_run db run tenant owner now lease_ms).0
run_op db (renews run tenant owner epoch now lease_ms) =
    (renew_run_lease db run tenant owner epoch now lease_ms).0
run_op db (releases run tenant owner epoch) = (release_run db run tenant owner epoch).0

unfoldable pub run_ops : RunTables → List RunOp → RunTables
unfolding run_op
run_ops db [] = db
run_ops db (o ∷ ops) = run_ops (run_op db o) ops

-- A column of the row of a run, 0 where there is none.
unfoldable pub column : (RunRow → ℕ) → List RunRow → ℕ → ℕ
column f [] k = 0
column f (r ∷ rows) k = if r.id == k then f r else column f rows k

-- A column that no operation makes less.
pub record IsMonotone (f : RunRow → ℕ) : Type 0 where
  pub updates_up : (old new : RunRow) → f old ≤ f (update_run old new)
  pub acks_up :
      (r : RunRow) (last : Option ℕ) (finished : Bool) → f r ≤ f (acked_row r last finished)
  pub claims_up :
      (r : RunRow) (tenant owner now lease_ms : ℕ)
      → f r ≤ f (claim_row r tenant owner now lease_ms).0
  pub renews_up : (r : RunRow) (lease : Option ℕ) → f r ≤ f (record r { lease_until = lease })
  pub releases_up :
      (r : RunRow)
      → f r ≤ f (record r { owner_id = none; owner_epoch = r.owner_epoch + 1; lease_until = none })

pub claim_row-id :
    (r : RunRow) (tenant owner now lease_ms : ℕ)
    → (claim_row r tenant owner now lease_ms).0.id ≡ r.id
unfolding claim_row
claim_row-id r tenant owner now lease_ms = ground arith

module _ (f : RunRow → ℕ) (m : IsMonotone f) where
  put_run-column :
      (rows : List RunRow) (new : RunRow) (k : ℕ)
      → column f rows k ≤ column f (put_run rows new).0 k
  unfolding put_run column update_run
  put_run-column [] new k = ground arith
  put_run-column (old ∷ rows) new k =
      ground (arith, put_run-column rows new k, m.updates_up old new)

  ack_rows-column :
      (rows : List RunRow) (run tenant : ℕ) (last : Option ℕ) (finished : Bool) (k : ℕ)
      → column f rows k ≤ column f (ack_rows rows run tenant last finished).0 k
  unfolding ack_rows column
  ack_rows-column [] run tenant last finished k = ground arith
  ack_rows-column (r ∷ rows) run tenant last finished k =
      ground (arith, ack_rows-column rows run tenant last finished k, m.acks_up r last finished)

  claim_rows-column :
      (rows : List RunRow) (run tenant owner now lease_ms k : ℕ)
      → column f rows k ≤ column f (claim_rows rows run tenant owner now lease_ms).0 k
  unfolding claim_rows column
  claim_rows-column [] run tenant owner now lease_ms k = ground arith
  claim_rows-column (r ∷ rows) run tenant owner now lease_ms k = ground (
    arith,
    claim_rows-column rows run tenant owner now lease_ms k,
    m.claims_up r tenant owner now lease_ms,
    claim_row-id r tenant owner now lease_ms,
  )

  renew_rows-column :
      (rows : List RunRow) (run tenant owner epoch until k : ℕ)
      → column f rows k ≤ column f (renew_rows rows run tenant owner epoch until).0 k
  unfolding renew_rows column
  renew_rows-column [] run tenant owner epoch until k = ground arith
  renew_rows-column (r ∷ rows) run tenant owner epoch until k =
      ground
        (arith, renew_rows-column rows run tenant owner epoch until k, m.renews_up r (some until))

  release_rows-column :
      (rows : List RunRow) (run tenant owner epoch k : ℕ)
      → column f rows k ≤ column f (release_rows rows run tenant owner epoch).0 k
  unfolding release_rows column
  release_rows-column [] run tenant owner epoch k = ground arith
  release_rows-column (r ∷ rows) run tenant owner epoch k =
      ground (arith, release_rows-column rows run tenant owner epoch k, m.releases_up r)

  append_event-column :
      (db : RunTables) (row : RunRow) (seq : ℕ) (payload : List ℕ) (k : ℕ)
      → column f db.runs k ≤ column f (append_event db row seq payload).0.runs k
  unfolding append_event upsert_run
  append_event-column db row seq payload k =
      if_both (λ (q : RunTables × Bool). column f db.runs k ≤ column f q.0.runs k)
        (put_run db.runs row).1 (λ _. put_run-column db.runs row k) (λ _. omega arith)

  -- What the disk does with a transaction that only makes the column more.
  settle-column :
      (disk : Disk) (db next : RunTables) (answer : Bool) (k : ℕ)
      → column f db.runs k ≤ column f next.runs k
      → column f db.runs k ≤ column f (settle disk db (ok (next, answer))).0.runs k
  unfolding settle
  settle-column works db next answer k h = h
  settle-column fails db next answer k h = omega arith
  settle-column fails_late db next answer k h = h

  pub run_op-column :
      (db : RunTables) (o : RunOp) (k : ℕ) → column f db.runs k ≤ column f (run_op db o).runs k
  unfolding run_op upsert_run append_run_event ack_run ack_tables claim_run renew_run_lease
      release_run delivery_write
  run_op-column db (upserts row) k = put_run-column db.runs row k
  run_op-column db (appends disk row seq payload) k =
      settle-column disk db _ _ k (append_event-column db row seq payload k)
  run_op-column db (acks disk run tenant last finished) k =
      settle-column disk db _ _ k (ack_rows-column db.runs run tenant last finished k)
  run_op-column db (claims run tenant owner now lease_ms) k =
      claim_rows-column db.runs run tenant owner now lease_ms k
  run_op-column db (renews run tenant owner epoch now lease_ms) k =
      renew_rows-column db.runs run tenant owner epoch (now + lease_ms) k
  run_op-column db (releases run tenant owner epoch) k =
      release_rows-column db.runs run tenant owner epoch k

  pub run_ops-column :
      (db : RunTables) (ops : List RunOp) (k : ℕ)
      → column f db.runs k ≤ column f (run_ops db ops).runs k
  unfolding run_ops
  run_ops-column db [] k = omega arith
  run_ops-column db (o ∷ ops) k =
      omega (arith, run_op-column db o k, run_ops-column (run_op db o) ops k)

pub owner_epoch-IsMonotone : IsMonotone (λ r. r.owner_epoch)
unfolding update_run acked_row claim_row
owner_epoch-IsMonotone = record {
  updates_up = λ old new. omega arith;
  acks_up = λ r last finished. ground arith;
  claims_up = λ r tenant owner now lease_ms. ground arith;
  renews_up = λ r lease. omega arith;
  releases_up = λ r. omega arith;
}

pub acked-IsMonotone : IsMonotone (λ r. r.acked)
unfolding update_run acked_row claim_row
acked-IsMonotone = record {
  updates_up = λ old new. ground arith;
  acks_up = λ r last finished. ground arith;
  claims_up = λ r tenant owner now lease_ms. ground arith;
  renews_up = λ r lease. omega arith;
  releases_up = λ r. omega arith;
}

pub event_seq-IsMonotone : IsMonotone (λ r. r.event_seq)
unfolding update_run acked_row claim_row
event_seq-IsMonotone = record {
  updates_up = λ old new. ground arith;
  acks_up = λ r last finished. ground arith;
  claims_up = λ r tenant owner now lease_ms. ground arith;
  renews_up = λ r lease. omega arith;
  releases_up = λ r. omega arith;
}
