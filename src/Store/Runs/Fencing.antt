-- ===== src/Store/Runs/Fencing.antt =====
-- Who may write a row of the table runs of packages/core/src/store.ts.
use agent_phonon.Base.{
  ℕ, ◌+◌, ◌<◌, ◌≡◌, refl, sym, subst, true, false, List, [], ◌∷◌, Option, none, some, arith,
  Bool-cases, inl, inr, ◌==◌,
}
use agent_phonon.Store.Runs.Rows.{RunRow, RunTables}
use agent_phonon.Store.Runs.{
  find_run, owned_by, same_owner, may_update, put_run, upsert_run, append_event, claim_row,
  claim_rows, claim_run, renew_rows, renew_run_lease, release_rows, release_run,
}
use agent_phonon.Store.Runs.Traces.{
  RunOp, run_ops, column, claim_row-id, run_ops-column, owner_epoch-IsMonotone,
}

-- The operations of an owner that wrote the run under an epoch change nothing and say so.
pub record IsFenced (db : RunTables) (run owner epoch : ℕ) : Type 0 where
  pub upsert :
      (row : RunRow)
      → row.id ≡ run
      → row.owner_id ≡ some owner
      → row.owner_epoch ≡ epoch
      → upsert_run db row ≡ (db, false)
  pub append :
      (row : RunRow) (seq : ℕ) (payload : List ℕ)
      → row.id ≡ run
      → row.owner_id ≡ some owner
      → row.owner_epoch ≡ epoch
      → append_event db row seq payload ≡ (db, false)
  pub renew :
      (tenant now lease_ms : ℕ)
      → renew_run_lease db run tenant owner epoch now lease_ms ≡ (db, false)
  pub release : (tenant : ℕ) → release_run db run tenant owner epoch ≡ (db, false)

impossible : {a : ℕ} → a < 0 → ⊥
impossible lt = omega (arith, lt)

abbrev pub epoch_of : RunTables → ℕ → ℕ
epoch_of db run = column (λ r. r.owner_epoch) db.runs run

-- A row of another epoch is not updated.
same_owner-old :
    (old new : RunRow) (o : Option ℕ) (owner : ℕ)
    → new.owner_epoch < old.owner_epoch
    → same_owner old new o (some owner) ≡ false
same_owner-old old new none owner lt = refl
same_owner-old old new (some x) owner lt = ground arith

may_update-old :
    (old new : RunRow) (owner : ℕ)
    → new.owner_id ≡ some owner
    → new.owner_epoch < old.owner_epoch
    → may_update old new ≡ false
may_update-old old new owner h lt =
    rw (h, same_owner-old old new old.owner_id owner lt) (ground arith)

put_run-old :
    (rows : List RunRow) (row : RunRow) (owner : ℕ)
    → row.owner_id ≡ some owner
    → row.owner_epoch < column (λ r. r.owner_epoch) rows row.id
    → put_run rows row ≡ (rows, false)
unfolding put_run column
put_run-old [] row owner h lt = elim (impossible lt) [ ]
put_run-old (r ∷ rows) row owner h lt = elim (Bool-cases (r.id == row.id)) [
  | inl hit ↦ let no = may_update-old r row owner h (ground (arith, hit, lt)) in rw (hit, no) refl
  | inr miss ↦ rw (miss, put_run-old rows row owner h (ground (arith, miss, lt))) refl
]

renew_rows-old :
    (rows : List RunRow) (run tenant owner epoch until : ℕ)
    → epoch < column (λ r. r.owner_epoch) rows run
    → renew_rows rows run tenant owner epoch until ≡ (rows, false)
unfolding renew_rows column
renew_rows-old [] run tenant owner epoch until lt = elim (impossible lt) [ ]
renew_rows-old (r ∷ rows) run tenant owner epoch until lt =
    ground (arith, lt, renew_rows-old rows run tenant owner epoch until)

release_rows-old :
    (rows : List RunRow) (run tenant owner epoch : ℕ)
    → epoch < column (λ r. r.owner_epoch) rows run
    → release_rows rows run tenant owner epoch ≡ (rows, false)
unfolding release_rows column
release_rows-old [] run tenant owner epoch lt = elim (impossible lt) [ ]
release_rows-old (r ∷ rows) run tenant owner epoch lt =
    ground (arith, lt, release_rows-old rows run tenant owner epoch)

append_event-old :
    (db : RunTables) (row : RunRow) (seq : ℕ) (payload : List ℕ)
    → put_run db.runs row ≡ (db.runs, false)
    → append_event db row seq payload ≡ (db, false)
unfolding append_event upsert_run
append_event-old db row seq payload h = rw h refl

pub epoch_of-IsFenced :
    (db : RunTables) (run owner epoch : ℕ) → epoch < epoch_of db run → IsFenced db run owner epoch
unfolding upsert_run renew_run_lease release_run
epoch_of-IsFenced db run owner epoch lt = record {
  upsert = λ row i o e.
      rw
        (put_run-old db.runs row owner o
          (subst (λ k. row.owner_epoch < epoch_of db k) (sym i) (omega (arith, e, lt))))
        refl;
  append = λ row seq payload i o e. append_event-old db row seq payload (
      put_run-old db.runs row owner o
        (subst (λ k. row.owner_epoch < epoch_of db k) (sym i) (omega (arith, e, lt))));
  renew = λ tenant now lease_ms.
      rw (renew_rows-old db.runs run tenant owner epoch (now + lease_ms) lt) refl;
  release = λ tenant. rw (release_rows-old db.runs run tenant owner epoch lt) refl;
}

-- A claim that is granted to another than the owner raises the epoch.
claim_row-epoch :
    (r : RunRow) (tenant owner now lease_ms epoch : ℕ)
    → owned_by r.owner_id owner ≡ false
    → (claim_row r tenant owner now lease_ms).1 ≡ some epoch
    → r.owner_epoch < (claim_row r tenant owner now lease_ms).0.owner_epoch
unfolding claim_row
claim_row-epoch r tenant owner now lease_ms epoch other granted = ground arith

claim_rows-epoch :
    (rows : List RunRow) (run tenant owner now lease_ms epoch : ℕ) (before : RunRow)
    → find_run rows run ≡ some before
    → owned_by before.owner_id owner ≡ false
    → (claim_rows rows run tenant owner now lease_ms).1 ≡ some epoch
    → before.owner_epoch
      < column (λ r. r.owner_epoch) (claim_rows rows run tenant owner now lease_ms).0 run
unfolding claim_rows column find_run
claim_rows-epoch [] run tenant owner now lease_ms epoch before found other granted = cc
claim_rows-epoch (r ∷ rows) run tenant owner now lease_ms epoch before found other granted =
    elim (Bool-cases (r.id == run)) [
      | inl hit ↦
          let same : r ≡ before = ground arith in
          let lt =
            claim_row-epoch r tenant owner now lease_ms epoch
              (subst (λ b. owned_by b.owner_id owner ≡ false) (sym same) other)
              (rw hit at granted) in
          subst
            (λ (b : RunRow).
              b.owner_epoch
              < column (λ x. x.owner_epoch) (claim_rows (r ∷ rows) run tenant owner now lease_ms).0
                  run)
            same (ground (arith, hit, lt, claim_row-id r tenant owner now lease_ms))
      | inr miss ↦ ground (
        arith,
        miss,
        claim_rows-epoch rows run tenant owner now lease_ms epoch before (rw miss at found) other
            (rw miss at granted),
      )
    ]

-- Where a claim of a run is granted to an owner that did not hold it, the owner before is fenced for good:
-- through any later operations on the tables, its writes, appends, renewals and releases under its
-- epoch change nothing and report that. This holds of any earlier owner with that epoch.
pub claim_run-IsFenced :
    (db : RunTables) (run tenant owner now lease_ms epoch : ℕ) (before : RunRow) (ops : List RunOp)
    (old_owner : ℕ)
    → find_run db.runs run ≡ some before
    → owned_by before.owner_id owner ≡ false
    → (claim_run db run tenant owner now lease_ms).1 ≡ some epoch
    → IsFenced
        (run_ops (claim_run db run tenant owner now lease_ms).0 ops)
        run
        old_owner
        before.owner_epoch
unfolding claim_run
claim_run-IsFenced db run tenant owner now lease_ms epoch before ops old_owner found other granted =
    let (claimed, _) = claim_run db run tenant owner now lease_ms in
    let up =
      claim_rows-epoch db.runs run tenant owner now lease_ms epoch before found other granted in
    let later = run_ops-column (λ r. r.owner_epoch) owner_epoch-IsMonotone claimed ops run in
    epoch_of-IsFenced (run_ops claimed ops) run old_owner before.owner_epoch
      (omega (arith, up, later))

release_rows-epoch :
    (rows : List RunRow) (run tenant owner epoch : ℕ)
    → (release_rows rows run tenant owner epoch).1 ≡ true
    → epoch < column (λ r. r.owner_epoch) (release_rows rows run tenant owner epoch).0 run
unfolding release_rows column
release_rows-epoch [] run tenant owner epoch done = cc
release_rows-epoch (r ∷ rows) run tenant owner epoch done =
    ground (arith, done, release_rows-epoch rows run tenant owner epoch)

-- An owner that has released a run is fenced for good in the same way.
pub release_run-IsFenced :
    (db : RunTables) (run tenant owner epoch : ℕ) (ops : List RunOp)
    → (release_run db run tenant owner epoch).1 ≡ true
    → IsFenced (run_ops (release_run db run tenant owner epoch).0 ops) run owner epoch
unfolding release_run
release_run-IsFenced db run tenant owner epoch ops done =
    let (released, _) = release_run db run tenant owner epoch in
    let up = release_rows-epoch db.runs run tenant owner epoch done in
    let later = run_ops-column (λ r. r.owner_epoch) owner_epoch-IsMonotone released ops run in
    epoch_of-IsFenced (run_ops released ops) run owner epoch (omega (arith, up, later))
