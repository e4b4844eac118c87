-- ===== src/Rpc/Events.antt =====
-- What can happen to a peer of packages/core/src/rpc.ts, and the accounts of its requests.
use agent_phonon.Base.{
  ℕ, ◌+◌, ◌≤◌, ◌≡◌, true, false, ◌&&◌, List, [], ◌∷◌, Option, leb, ltb, ◌==◌, if◌then◌else◌, Result,
}
use agent_phonon.Rpc.Messages.{Json, Thrown, Parsed, Send}
use agent_phonon.Rpc.State.{Peer}
use agent_phonon.Rpc.{
  Call, request_raw, timer_fires, resolve_request, notify_raw, detach_transport, attach_transport,
  reject_all_pending, dispose, receive, complete,
}
use agent_phonon.Rpc.Tables.{count, count_timers, timed}

-- What happens to a peer: a call, a message, a timer, or the end of a handler.
pub data Event : Type 0 where
  requests : Send → List ℕ → Option (List ℕ) → Json → ℕ → Event
  fires : ℕ → List ℕ → Event
  resolves : List ℕ → List ℕ → Json → Event
  notifies : Send → List ℕ → Json → Event
  detaches : List ℕ → Event
  attaches : Send → ℕ → Event
  receives : Send → Parsed → Event
  completes : Send → Call → Result Thrown Json → Event
  closes : List ℕ → Event
  disposes : List ℕ → Event

-- A timer fires where it is set.
unfoldable pub step : Peer → Event → Peer
unfolding count_timers
step peer (requests send method request_id params timeout_ms) =
    (request_raw send peer method request_id params timeout_ms).0
step peer (fires id method) =
    if count_timers peer.timers id == 0 then peer else timer_fires peer id method
step peer (resolves method request_id value) = (resolve_request peer method request_id value).0
step peer (notifies send method params) = (notify_raw send peer method params).0
step peer (detaches reason) = detach_transport peer reason
step peer (attaches send to) = (attach_transport send peer to).0
step peer (receives send message) = (receive send peer message).0
step peer (completes send call result) = (complete send peer call result).0
step peer (closes reason) = reject_all_pending peer reason
step peer (disposes reason) = dispose peer reason

unfoldable pub run : Peer → List Event → Peer
unfolding step
run peer [] = peer
run peer (e ∷ events) = run (step peer e) events

-- The constructor.
abbrev pub start : ℕ → Peer
start transport = record {
  transport = transport;
  pending = [];
  next_id = 1;
  disposed = false;
  attached = true;
  transport_epoch = 0;
  timers = [];
  settled = [];
  sent = [];
}

abbrev pub is_issued : Peer → ℕ → ℕ
is_issued peer id = if leb 1 id && ltb id peer.next_id then 1 else 0

-- The promise of each id given out is open or settled, in all once, and no other id is in the
-- tables; a timer that is set is that of an open request.
pub record IsAccounted (peer : Peer) : Type 0 where
  pub started : 1 ≤ peer.next_id
  pub once : (id : ℕ) → count peer.pending id + count peer.settled id ≡ is_issued peer id
  pub armed : (id : ℕ) → count_timers peer.timers id ≡ timed peer.pending id
