-- ===== src/Rpc/State.antt =====
-- The fields of the class in packages/core/src/rpc.ts, and what is done to one open request.
use agent_phonon.Base.{ℕ, Bool, List, [], ◌∷◌, Option, none, some, ◌==◌, if◌then◌else◌}
use agent_phonon.Js.Text.{text_eq, codes}
use agent_phonon.Rpc.Messages.{Json, Thrown, Wire}

pub record Pending : Type 0 where
  pub method : List ℕ
  pub request_id : Option (List ℕ)
  pub timer : Bool
  pub wire : Wire

-- What the code rejects a promise with.
pub data Reason : Type 0 where
  timed_out : List ℕ → Reason
  not_attached : Reason
  send_failed : Thrown → Reason
  answered : Json → Reason
  unconfirmed : List ℕ → Reason
  closed : List ℕ → Reason

-- `undefined` is none.
pub data Settlement : Type 0 where
  resolved : Option Json → Settlement
  rejected : Reason → Settlement

-- `timers` has the timers that are set and neither cleared nor fired, by the id of the request;
-- `settled` has every call of a promise's `resolve` or `reject`, and `sent` what a transport took.
pub record Peer : Type 0 where
  pub transport : ℕ
  pub pending : List (ℕ × Pending)
  pub next_id : ℕ
  pub disposed : Bool
  pub attached : Bool
  pub transport_epoch : ℕ
  pub timers : List ℕ
  pub settled : List (ℕ × Settlement)
  pub sent : List (ℕ × Wire)

-- `Map.get` and `Map.delete`.
unfoldable pub find_pending : List (ℕ × Pending) → ℕ → Option Pending
find_pending [] id = none
find_pending ((i, p) ∷ pending) id = if i == id then some p else find_pending pending id

unfoldable pub delete_pending : List (ℕ × Pending) → ℕ → List (ℕ × Pending)
delete_pending [] id = []
delete_pending ((i, p) ∷ pending) id =
    let rest = delete_pending pending id in if i == id then rest else (i, p) ∷ rest

unfoldable pub remove_timer : List ℕ → ℕ → List ℕ
remove_timer [] id = []
remove_timer (i ∷ timers) id =
    let rest = remove_timer timers id in if i == id then rest else i ∷ rest

-- `if (p.timer) clearTimeout(p.timer)`.
abbrev pub clear_timer : Bool → List ℕ → ℕ → List ℕ
clear_timer set timers id = if set then remove_timer timers id else timers

-- Delete the entry, clear its timer and settle its promise.
unfoldable pub settle_entry : Peer → ℕ → Pending → Settlement → Peer
unfolding delete_pending remove_timer
settle_entry peer id p outcome = record peer {
  pending = delete_pending peer.pending id;
  timers = clear_timer p.timer peer.timers id;
  settled = (id, outcome) ∷ peer.settled;
}

-- `this.transport.send(wire)`.
abbrev pub put : Peer → ℕ → Wire → Peer
put peer to wire = record peer { sent = (to, wire) ∷ peer.sent }

abbrev pub is_human_decision : List ℕ → Bool
is_human_decision method = text_eq method (codes "interaction.request")
