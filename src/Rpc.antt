-- ===== src/Rpc.antt =====
-- The two-way JSON-RPC peer of packages/core/src/rpc.ts. A promise is known by the id of its
-- request, and a transport by a number; what its `send` throws is an argument of each call.
pub mod Events
pub mod State
pub mod Messages
pub mod Tables
pub mod Entries
pub mod Accounts
pub mod Closing
pub mod Replay
pub mod Fencing
pub mod Reconnect
mod Tests
use agent_phonon.Base.{
  ℕ, ◌+◌, Bool, true, false, not, ◌&&◌, List, [], ◌∷◌, ◌++◌, Option, none, some, ltb, ◌==◌,
  if◌then◌else◌, Result, ok, err, ◌≡◌,
}
use agent_phonon.Js.Text.{text_eq, codes}
use agent_phonon.Rpc.Messages.{
  Json, IdField, ErrorField, Thrown, Reply, Wire, wire_request, wire_notification, wire_reply,
  Incoming, Parsed, not_json, primitive, fields, Send, failed_reply, parse_error, is_notification,
  num,
}
use agent_phonon.Rpc.State.{
  Pending, Reason, Settlement, Peer, find_pending, delete_pending, remove_timer, clear_timer,
  settle_entry, put, is_human_decision, timed_out, not_attached, send_failed, answered, unconfirmed,
  closed, resolved, rejected,
}

-- The `try` around the first send of a request, with what `send` threw.
unfoldable pub after_send : Peer → ℕ → Pending → Option Thrown → Peer
unfolding settle_entry
after_send peer id p none = put peer peer.transport p.wire
after_send peer id p (some thrown) = settle_entry peer id p (rejected (send_failed thrown))

unfoldable pub first_send : Send → Peer → ℕ → Pending → Peer
unfolding settle_entry after_send
first_send send peer id p =
    if not peer.attached
    then settle_entry peer id p (rejected not_attached)
    else after_send peer id p (send p.wire)

-- The promise is rejected at once, or it is that of the id.
pub data Issued : Type 0 where
  refused : Issued
  issued : ℕ → Issued

-- The entry and the timer of a new request.
unfoldable pub register : Peer → Pending → Peer
register peer p = record peer {
  next_id = peer.next_id + 1;
  pending = peer.pending ++ (peer.next_id, p) ∷ [];
  timers = if p.timer then peer.next_id ∷ peer.timers else peer.timers;
}

-- A human decision waits for a connection.
unfoldable pub start_request : Send → Peer → Pending → Peer
unfolding register first_send text_eq
start_request send peer p =
    if not peer.attached && is_human_decision p.method
    then register peer p
    else first_send send (register peer p) peer.next_id p

abbrev pub new_pending : ℕ → List ℕ → Option (List ℕ) → Json → ℕ → Pending
new_pending id method request_id params timeout_ms = record {
  method = method;
  request_id = request_id;
  timer = ltb 0 timeout_ms;
  wire = wire_request id method params;
}

unfoldable pub request_raw : Send → Peer → List ℕ → Option (List ℕ) → Json → ℕ → Peer × Issued
unfolding start_request
request_raw send peer method request_id params timeout_ms =
    let p = new_pending peer.next_id method request_id params timeout_ms in
    if peer.disposed then (peer, refused) else (start_request send peer p, issued peer.next_id)

-- The callback of `setTimeout`, which runs where the timer has not been cleared.
unfoldable pub timer_fires : Peer → ℕ → List ℕ → Peer
unfolding delete_pending remove_timer
timer_fires peer id method = record peer {
  pending = delete_pending peer.pending id;
  timers = remove_timer peer.timers id;
  settled = (id, rejected (timed_out method)) ∷ peer.settled;
}

abbrev pub same_request_id : Option (List ℕ) → List ℕ → Bool
same_request_id none request_id = false
same_request_id (some r) request_id = text_eq r request_id

-- The first entry that matches, in the order of the map.
unfoldable pub find_request : List (ℕ × Pending) → List ℕ → List ℕ → Option (ℕ × Pending)
unfolding text_eq
find_request [] method request_id = none
find_request ((id, p) ∷ pending) method request_id =
    if text_eq p.method method && same_request_id p.request_id request_id
    then some (id, p)
    else find_request pending method request_id

abbrev pub resolve_found : Peer → Json → Option (ℕ × Pending) → Peer × Bool
resolve_found peer value none = (peer, false)
resolve_found peer value (some (id, p)) = (settle_entry peer id p (resolved (some value)), true)

unfoldable pub resolve_request : Peer → List ℕ → List ℕ → Json → Peer × Bool
unfolding find_request settle_entry
resolve_request peer method request_id value =
    resolve_found peer value (find_request peer.pending method request_id)

-- What a call throws, where it throws.
unfoldable pub after_notify : Peer → Wire → Option Thrown → Peer × Option Reason
after_notify peer wire none = (put peer peer.transport wire, none)
after_notify peer wire (some thrown) = (peer, some (send_failed thrown))

unfoldable pub notify_raw : Send → Peer → List ℕ → Json → Peer × Option Reason
unfolding after_notify
notify_raw send peer method params =
    let wire = wire_notification method params in
    if peer.disposed
    then (peer, none)
    else if not peer.attached
    then (peer, some not_attached)
    else after_notify peer wire (send wire)

-- The loop that rejects the entries which `keep` does not keep.
unfoldable pub reject_entries :
    (Pending → Bool)
    → Reason
    → List (ℕ × Pending)
    → List ℕ
    → List (ℕ × Settlement)
    → List (ℕ × Pending) × List ℕ × List (ℕ × Settlement)
unfolding remove_timer
reject_entries keep reason [] timers settled = ([], timers, settled)
reject_entries keep reason ((id, p) ∷ pending) timers settled =
    let stays = keep p in
    let (left, timers_left, settled_after) =
      reject_entries keep reason pending (if stays then timers else clear_timer p.timer timers id)
        (if stays then settled else (id, rejected reason) ∷ settled) in
    (if stays then (id, p) ∷ left else left, timers_left, settled_after)

abbrev pub reject_where : (Pending → Bool) → Reason → Peer → Peer
reject_where keep reason peer =
    let (left, timers_left, settled_after) =
      reject_entries keep reason peer.pending peer.timers peer.settled in
    record peer { pending = left; timers = timers_left; settled = settled_after }

unfoldable pub detach_transport : Peer → List ℕ → Peer
unfolding reject_entries text_eq
detach_transport peer reason =
    if peer.disposed
    then peer
    else if not peer.attached
    then peer
    else reject_where (λ p. is_human_decision p.method) (unconfirmed reason)
        (record peer { attached = false; transport_epoch = peer.transport_epoch + 1 })

-- The loop stops at the first `send` that throws.
unfoldable pub resend :
    Send → ℕ → List (ℕ × Pending) → List (ℕ × Wire) → List (ℕ × Wire) × Option Thrown
unfolding text_eq
resend send to [] sent = (sent, none)
resend send to ((id, p) ∷ pending) sent =
    let next = resend send to pending ((to, p.wire) ∷ sent) in
    let skip = resend send to pending sent in
    if is_human_decision p.method
    then elim (send p.wire) [ none ↦ next | some thrown ↦ (sent, some thrown) ]
    else skip

abbrev pub thrown_reason : Option Thrown → Option Reason
thrown_reason none = none
thrown_reason (some thrown) = some (send_failed thrown)

unfoldable pub attach_transport : Send → Peer → ℕ → Peer × Option Reason
unfolding resend
attach_transport send peer to =
    let (sent, thrown) = resend send to peer.pending peer.sent in
    if peer.disposed then (peer, some (closed (codes "RPC peer disposed"))) else (
      record peer {
        transport = to;
        attached = true;
        transport_epoch = peer.transport_epoch + 1;
        sent = sent;
      },
      thrown_reason thrown,
    )

unfoldable pub reject_all_pending : Peer → List ℕ → Peer
unfolding reject_entries
reject_all_pending peer reason = reject_where (λ _. false) (closed reason) peer

unfoldable pub dispose : Peer → List ℕ → Peer
unfolding reject_all_pending
dispose peer reason =
    if peer.disposed then peer else reject_all_pending (record peer { disposed = true }) reason

-- The request that a handler works on, and what `handle` has captured.
pub record Call : Type 0 where
  pub id : IdField
  pub method : List ℕ
  pub params : Json
  pub epoch : ℕ
  pub transport : ℕ

-- What `handle` does before it waits: nothing more, or the handler is called.
pub data Next : Type 0 where
  finished : Next
  throws : Thrown → Next
  throws_type_error : Next
  handler_called : Call → Next

-- `error` is in the message and it is truthy, or it is not.
abbrev pub response_outcome : ErrorField → Option Json → Settlement
response_outcome (ErrorField.error e) result = rejected (answered e)
response_outcome ErrorField.absent result = resolved result
response_outcome ErrorField.falsy result = resolved result

abbrev pub settle_found : Peer → ℕ → Settlement → Option Pending → Peer
settle_found peer id outcome none = peer
settle_found peer id outcome (some p) = settle_entry peer id p outcome

-- The keys of the map are numbers, so no other id finds an entry.
unfoldable pub receive_response : Peer → IdField → Settlement → Peer
unfolding find_pending settle_entry
receive_response peer (num id) outcome = settle_found peer id outcome (find_pending peer.pending id)
receive_response peer IdField.absent outcome = peer
receive_response peer IdField.null outcome = peer
receive_response peer (IdField.text _) outcome = peer

abbrev pub is_response : Incoming → Bool
is_response m = m.has_result_or_error && m.has_id

unfoldable pub after_parse_error : Peer → Option Thrown → Peer × Next
after_parse_error peer none =
    (put peer peer.transport (wire_reply IdField.null parse_error), finished)
after_parse_error peer (some thrown) = (peer, throws thrown)

abbrev pub call_handler : Peer → Incoming → Option (List ℕ) → Next
call_handler peer m none = finished
call_handler peer m (some method) = handler_called (record {
  id = m.id;
  method = method;
  params = m.params;
  epoch = peer.transport_epoch;
  transport = peer.transport;
})

unfoldable pub receive_parsed : Send → Peer → Parsed → Peer × Next
unfolding receive_response after_parse_error
receive_parsed send peer not_json =
    after_parse_error peer (send (wire_reply IdField.null parse_error))
receive_parsed send peer primitive = (peer, throws_type_error)
receive_parsed send peer (fields m) =
    if is_response m
    then (receive_response peer m.id (response_outcome m.error m.result), finished)
    else (peer, call_handler peer m m.method)

unfoldable pub receive : Send → Peer → Parsed → Peer × Next
unfolding receive_parsed
receive send peer message =
    if peer.disposed
    then (peer, finished)
    else if not peer.attached
    then (peer, finished)
    else receive_parsed send peer message

-- What follows the handler: an answer is sent only over the connection that asked.
abbrev pub answers : Peer → Call → Bool
answers peer call =
    not (is_notification call.id) && peer.attached && peer.transport_epoch == call.epoch

unfoldable pub after_failure : Peer → Wire → Option Thrown → Peer × Option Thrown
after_failure peer reply none = (put peer peer.transport reply, none)
after_failure peer reply (some thrown) = (peer, some thrown)

unfoldable pub send_failure : Send → Peer → Call → Thrown → Peer × Option Thrown
unfolding after_failure
send_failure send peer call thrown =
    let reply = wire_reply call.id (failed_reply thrown) in
    if answers peer call then after_failure peer reply (send reply) else (peer, none)

unfoldable pub after_success : Send → Peer → Call → Wire → Option Thrown → Peer × Option Thrown
unfolding send_failure
after_success send peer call reply none = (put peer call.transport reply, none)
after_success send peer call reply (some thrown) = send_failure send peer call thrown

-- The handler's result is its value or what it throws; a `send` that throws is caught as well.
unfoldable pub complete : Send → Peer → Call → Result Thrown Json → Peer × Option Thrown
unfolding send_failure after_success
complete send peer call (err thrown) = send_failure send peer call thrown
complete send peer call (ok result) =
    let reply = wire_reply call.id (Reply.success result) in
    if answers peer call then after_success send peer call reply (send reply) else (peer, none)
