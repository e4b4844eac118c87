-- ===== src/Outbox/Tests.antt =====
-- Runs of the outbox, and the theorems at concrete inputs.
use mathlib.Core.List.{Perm}
use agent_phonon.Base.{
  ℕ, ◌≤◌, ◌≡◌, refl, ◌⊎◌, true, false, List, [], ◌∷◌, map, none, some, arith, ok, err,
}
use agent_phonon.Js.Text.{codes, text_eq, text_lt, pos}
use agent_phonon.Store.Write.{Disk, works, fails, fails_late, io_error, settle}
use agent_phonon.Store.Outbox.{StreamEvent, Db, outbox_add, outbox_ack, ack_of}
use agent_phonon.Outbox.State.{Outbox, get, is_acked, has_key}
use agent_phonon.Outbox.{blank, enqueue, ack, pending, resume_from}
use agent_phonon.Outbox.Rows.{rows_of}
use agent_phonon.Outbox.Buffer.{in_buffer}
use agent_phonon.Outbox.Invariant.{IsValid, step-IsValid}
use agent_phonon.Outbox.History.{
  Call, enqueues, acks, acknowledges, run, step, run_keeps, run-IsValid, run-is_acked,
  ack_known_only, ack_removes,
}
use agent_phonon.Outbox.Durable.{IsDurable, run-IsDurable}
use agent_phonon.Outbox.Restart.{Restores, construct-Restores}
use agent_phonon.Outbox.Order.{InOrder, pending_all}

abbrev a_id : List ℕ
a_id = codes "a"

abbrev b_id : List ℕ
b_id = codes "b"

abbrev event : List ℕ → ℕ → StreamEvent
event session seq = record { session_id = session; seq = seq; proactive = none; content = [] }

abbrev constant_digest : List ℕ → ℕ
constant_digest content = 7

abbrev fresh_db : Db
fresh_db = record { events = []; acks = []; seen = []; sessions = [] }

abbrev fresh : Outbox
fresh = blank (some fresh_db) (some (codes "t"))

fresh-IsValid : IsValid fresh
unfolding in_buffer has_key get
fresh-IsValid = record {
  keys_match = λ s n. refl;
  fresh = λ s n h. cc;
  distinct = tt;
  labelled = tt;
}

fresh-IsDurable : IsDurable (codes "t") fresh
unfolding rows_of get ack_of
fresh-IsDurable = record {
  tenant = refl;
  store = record { rows = refl; watermarks = λ s. refl; one_row = tt };
}

-- Two sessions, out of order, one event twice, one write that fails.
abbrev sends : List (Disk × Call)
sends =
    (works, enqueues (event b_id 0))
    ∷ (works, enqueues (event a_id 0))
    ∷ (works, enqueues (event a_id 1))
    ∷ (works, enqueues (event a_id 1))
    ∷ (fails, enqueues (event a_id 2))
    ∷ []

two_sessions : Outbox
unfolding run step enqueue outbox_add settle text_eq
two_sessions = run constant_digest fresh sends

abbrev later_calls : List (Disk × Call)
later_calls =
    (works, acks b_id (pos 9)) ∷ (fails, acks a_id (pos 1)) ∷ (works, enqueues (event b_id 1)) ∷ []

pending_run : pending two_sessions [] ≡ event a_id 0 ∷ event a_id 1 ∷ event b_id 0 ∷ []
unfolding two_sessions pending text_lt
pending_run = refl

resume_run : resume_from two_sessions ≡ (a_id, 0) ∷ (b_id, 0) ∷ []
unfolding two_sessions resume_from text_lt
resume_run = refl

requested_run : pending two_sessions ((a_id, 1) ∷ []) ≡ event a_id 1 ∷ event b_id 0 ∷ []
unfolding two_sessions pending text_lt
requested_run = refl

-- A number beyond what was sent acknowledges no future event.
beyond_run : get (ack works two_sessions a_id (pos 100)).0.acked a_id ≡ some 1
unfolding two_sessions ack outbox_ack
beyond_run = refl

-- Behind a late failure the row is in the store and the event is not in memory.
late_run :
    let (o, outcome) = enqueue constant_digest fails_late fresh (event a_id 0) in
    (o.buffer ≡ []) × (outcome ≡ err io_error)
unfolding enqueue outbox_add
late_run = (refl, refl)

two_sessions-IsValid : IsValid two_sessions
unfolding two_sessions
two_sessions-IsValid = run-IsValid constant_digest sends fresh fresh-IsValid

run-IsValid_example : IsValid (run constant_digest fresh sends)
run-IsValid_example = run-IsValid constant_digest sends fresh fresh-IsValid

run_keeps_example :
    in_buffer (run constant_digest two_sessions ((works, acks b_id (pos 9)) ∷ [])).buffer a_id 0
    ≡ true
unfolding two_sessions in_buffer text_eq
run_keeps_example =
    run_keeps constant_digest ((works, acks b_id (pos 9)) ∷ []) two_sessions a_id 0 refl refl

acked_once : Outbox
unfolding two_sessions ack
acked_once = (ack works two_sessions a_id (pos 0)).0

run-is_acked_example :
    (is_acked (get (run constant_digest acked_once later_calls).acked a_id) 0 ≡ true)
    × (in_buffer (run constant_digest acked_once later_calls).buffer a_id 0 ≡ false)
unfolding acked_once outbox_ack
run-is_acked_example =
    run-is_acked constant_digest later_calls acked_once a_id 0
      ((step-IsValid constant_digest works two_sessions two_sessions-IsValid).1 a_id (pos 0)) refl

ack_known_only_example :
    (is_acked (get two_sessions.acked a_id) 1 ≡ true)
    ⊎ ((top : ℕ) × (in_buffer two_sessions.buffer a_id top ≡ true)
        × (1 ≤ top)
        × (acknowledges (acks a_id (pos 100)) a_id 1 ≡ true))
unfolding two_sessions ack outbox_ack
ack_known_only_example = ack_known_only works two_sessions a_id (pos 100) a_id 1 refl

ack_removes_example :
    (in_buffer (ack works two_sessions a_id (pos 1)).0.buffer a_id 0 ≡ false)
    × (is_acked (get (ack works two_sessions a_id (pos 1)).0.acked a_id) 0 ≡ true)
    × ((ack works two_sessions a_id (pos 1)).1 ≡ ok tt)
unfolding two_sessions in_buffer text_eq
ack_removes_example =
    ack_removes two_sessions a_id 1 0 two_sessions-IsValid refl (omega arith) (omega arith)

run-IsDurable_example : IsDurable (codes "t") (run constant_digest fresh sends)
run-IsDurable_example =
    run-IsDurable constant_digest (codes "t") sends fresh fresh-IsValid fresh-IsDurable refl

construct-Restores_example :
    Restores fails
      (run constant_digest fresh sends).store
      (run constant_digest fresh sends).tenant_id
      (run constant_digest fresh sends)
construct-Restores_example =
    construct-Restores fails b't' [] (run constant_digest fresh sends)
      (run-IsValid constant_digest sends fresh fresh-IsValid)
      (run-IsDurable constant_digest (codes "t") sends fresh fresh-IsValid fresh-IsDurable refl)

pending_all_example :
    Perm (pending two_sessions []) (map (λ b. b.event) two_sessions.buffer)
    × InOrder (pending two_sessions [])
pending_all_example = pending_all two_sessions two_sessions-IsValid
