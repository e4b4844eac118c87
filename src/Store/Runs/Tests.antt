-- ===== src/Store/Runs/Tests.antt =====
-- Two daemons at one run of packages/core/src/store.ts.
use agent_phonon.Base.{◌≡◌, refl, true, false, List, [], ◌∷◌, none, some, arith}
use agent_phonon.Store.Write.{works, fails, fails_late}
use agent_phonon.Store.Runs.Rows.{RunRow, RunTables, running, manual, push_pending, phase_running}
use agent_phonon.Store.Runs.{find_run, append_event, ack_run, claim_run, unacked_run_events}
use agent_phonon.Store.Runs.Traces.{
  RunOp, upserts, appends, acks, renews, releases, run_ops, column,
}
use agent_phonon.Store.Runs.Fencing.{IsFenced, claim_run-IsFenced}
use agent_phonon.Store.Runs.Replays.{within, write_within, run_ops-within}
use agent_phonon.Store.Runs.Recorded.{has_event, has_key, behind, append_event-replayed}

-- The run 7 of the owner 1, with its lease until 100.
abbrev row : RunRow
row = record {
  id = 7;
  schedule_id = 3;
  tenant_id = 9;
  trigger_source = manual;
  status = running;
  session_id = some 5;
  workflow_id = none;
  started_at = some 20;
  finished_at = none;
  exit_reason = none;
  error = none;
  transcript_path = none;
  result_text = none;
  usage = none;
  push_state = push_pending;
  acked = 0;
  created_at = 20;
  attempt = 1;
  max_attempts = 2;
  retry_history = [];
  input = none;
  phase = some phase_running;
  retry_at = none;
  owner_id = some 1;
  owner_epoch = 0;
  lease_until = some 100;
  event_seq = 0;
  dispatch = none;
}

abbrev numbered : RunRow
numbered = record row { event_seq = 1 }

abbrev tables : RunTables
tables = record { runs = row ∷ []; run_events = [] }

-- While the lease lasts no other owner is granted the run; behind it, the epoch goes up.
not_yet : (claim_run tables 7 9 2 99 50).1 ≡ none
unfolding claim_run
not_yet = refl

taken : (claim_run tables 7 9 2 100 50).1 ≡ some 1
unfolding claim_run
taken = refl

-- What happens behind that: the old owner writes, the new one appends, the server acknowledges.
abbrev later : List RunOp
later =
    upserts row
    ∷ renews 7 9 1 0 120 50
    ∷ appends works (record numbered { owner_id = some 2; owner_epoch = 1 }) 0 (64 ∷ [])
    ∷ acks fails_late 7 9 (some 5) false
    ∷ releases 7 9 2 1
    ∷ []

claim_run-IsFenced_example : IsFenced (run_ops (claim_run tables 7 9 2 100 50).0 later) 7 1 0
unfolding claim_run find_run
claim_run-IsFenced_example = claim_run-IsFenced tables 7 9 2 100 50 1 row later 1 refl refl refl

run_ops-within_example : within (run_ops tables later).runs ≡ true
unfolding within write_within
run_ops-within_example = run_ops-within tables later refl refl

-- Nobody has acknowledged the event 0 behind a failed write of the acknowledgement.
append_event-replayed_example :
    let db = behind tables numbered 0 (64 ∷ []) (acks fails 7 9 (some 1) false ∷ []) in
    has_event (unacked_run_events db.runs db.run_events 9) 7 9 0 (64 ∷ []) ≡ true
unfolding has_key append_event run_ops column ack_run
append_event-replayed_example =
    append_event-replayed tables numbered 0 (64 ∷ []) (acks fails 7 9 (some 1) false ∷ []) refl refl
      (omega arith)
