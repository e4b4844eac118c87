-- ===== src/Idempotency/Tests.antt =====
-- Runs of the table of packages/core/src/idempotency.ts, and the theorems at them.
use agent_phonon.Base.{ℕ, ◌+◌, ◌≤◌, ◌≡◌, refl, true, List, [], ◌∷◌, none, some}
use agent_phonon.Js.Text.{codes, text_eq}
use agent_phonon.Idempotency.{
  Table, Stored, stored, mismatch, run, fulfilled, rejected, request_key, lookup_store,
}
use agent_phonon.Idempotency.Counts.{count, count_keys}
use agent_phonon.Idempotency.Executions.{
  Event, runs, fulfils, rejects, run_all, start, run_all-executions,
}
use agent_phonon.Idempotency.Restarts.{run_all_stored}
use agent_phonon.Idempotency.Keys.{has_no_nul, request_key_injective}

abbrev asks : ℕ → List ℕ → Event
asks now id = runs now (codes "t") (codes "m") id (some 7)

abbrev key : List ℕ → List ℕ
key id = request_key (codes "t") (codes "m") id

-- A repeated call shares the promise; after a rejection the request is executed again.
abbrev retried : List Event
retried =
    asks 1 (codes "a")
    ∷ asks 2 (codes "a")
    ∷ rejects (key (codes "a"))
    ∷ asks 3 (codes "a")
    ∷ fulfils true (key (codes "a")) (codes "1") (some 7)
    ∷ []

executions_run :
    (run_all (start 600000 5000 (some [])) retried).executions
    ≡ (key (codes "a"), 1) ∷ (key (codes "a"), 0) ∷ []
unfolding run_all run fulfilled rejected text_eq
executions_run = refl

-- With room for two, the oldest entry makes place for the third request.
removals_run :
    (run_all
      (start 600000 2 none)
      (asks 1 (codes "a") ∷ asks 2 (codes "b") ∷ asks 3 (codes "c") ∷ [])).removals
    ≡ key (codes "a") ∷ []
unfolding run_all run text_eq
removals_run = refl

settled : Table
unfolding run_all run fulfilled rejected text_eq
settled = run_all (start 600000 5000 (some [])) retried

stored_run :
    (run (record settled { map = [] }) 9 (codes "t") (codes "m") (codes "a") (some 7)).1
    ≡ stored (codes "1")
unfolding settled run fulfilled rejected text_eq
stored_run = refl

mismatch_run : (run settled 9 (codes "t") (codes "m") (codes "a") (some 8)).1 ≡ mismatch
unfolding settled run fulfilled rejected text_eq
mismatch_run = refl

run_all-executions_example :
    let t = run_all (start 600000 5000 (some [])) retried in
    count t.executions (key (codes "a")) ≤ 1 + count_keys t.removals (key (codes "a"))
run_all-executions_example = run_all-executions 600000 5000 (some []) retried (key (codes "a"))

abbrev row : Stored
row = record { key = key (codes "a"); result = codes "1"; fingerprint = some 7 }

abbrev later_events : List Event
later_events = rejects (key (codes "a")) ∷ asks 700000 (codes "a") ∷ []

run_all_stored_example :
    (count (run_all settled later_events).executions (key (codes "a"))
      ≡ count settled.executions (key (codes "a")))
    × (lookup_store (run_all settled later_events).store (key (codes "a")) ≡ some row)
unfolding settled fulfilled text_eq
run_all_stored_example = run_all_stored (key (codes "a")) row settled later_events refl

request_key_injective_example :
    (codes "t" ≡ codes "t") × (codes "m" ≡ codes "m") × (codes "a" ≡ codes "a")
unfolding has_no_nul
request_key_injective_example =
    request_key_injective (codes "t") (codes "m") (codes "a") (codes "t") (codes "m") (codes "a")
      refl refl refl refl refl
