-- ===== src/Rpc/Accounts.antt =====
-- Every request of packages/core/src/rpc.ts is either open or settled, once.
use agent_phonon.Base.{
  ℕ, refl, inl, inr, true, false, not, List, [], ◌∷◌, Option, none, some, ◌==◌, arith, Result, ok,
  err, Option-cases, if_both,
}
use agent_phonon.Rpc.Messages.{
  Json, Thrown, Parsed, Send, Wire, not_json, primitive, fields, IdField, num, wire_reply,
  failed_reply, Reply,
}
use agent_phonon.Rpc.State.{Peer, Reason, Settlement, closed, find_pending}
use agent_phonon.Rpc.{
  Call, after_notify, after_parse_error, receive_parsed, is_response, answers, after_failure,
  after_success, notify_raw, Next, detach_transport, attach_transport, reject_all_pending, dispose,
  receive, receive_response, complete, send_failure,
}
use agent_phonon.Rpc.Tables.{count, count_timers, timed, find_pending-IsEntry}
use agent_phonon.Rpc.Events.{
  IsAccounted, Event, step, run, start, requests, fires, resolves, notifies, detaches, attaches,
  receives, completes, closes, disposes,
}
use agent_phonon.Rpc.Entries.{
  SameTables, SameTables-IsAccounted, pending_once, settle_entry-IsAccounted,
  timer_fires-IsAccounted, reject_where-IsAccounted, same, request_raw-IsAccounted,
  resolve_request-IsAccounted,
}

after_notify-SameTables :
    (peer : Peer) (wire : Wire) (thrown : Option Thrown)
    → SameTables (after_notify peer wire thrown).0 peer
unfolding after_notify
after_notify-SameTables peer wire none = same
after_notify-SameTables peer wire (some thrown) = same

notify_raw-SameTables :
    (send : Send) (peer : Peer) (method : List ℕ) (params : Json)
    → SameTables (notify_raw send peer method params).0 peer
unfolding notify_raw
notify_raw-SameTables send peer method params =
    if_both (λ (r : Peer × Option Reason). SameTables r.0 peer) peer.disposed (λ _. same)
      (λ _.
        if_both (λ (r : Peer × Option Reason). SameTables r.0 peer) (not peer.attached) (λ _. same)
          (λ _. after_notify-SameTables peer _ _))

detach_transport-IsAccounted :
    (peer : Peer) (reason : List ℕ) → IsAccounted peer → IsAccounted (detach_transport peer reason)
unfolding detach_transport
detach_transport-IsAccounted peer reason a =
    if_both IsAccounted peer.disposed (λ _. a)
      (λ _.
        if_both IsAccounted (not peer.attached) (λ _. a)
          (λ _. reject_where-IsAccounted _ _ _ (SameTables-IsAccounted same a)))

attach_transport-SameTables :
    (send : Send) (peer : Peer) (to : ℕ) → SameTables (attach_transport send peer to).0 peer
unfolding attach_transport
attach_transport-SameTables send peer to =
    if_both (λ (r : Peer × Option Reason). SameTables r.0 peer) peer.disposed (λ _. same)
      (λ _. same)

reject_all_pending-IsAccounted :
    (peer : Peer) (reason : List ℕ)
    → IsAccounted peer
    → IsAccounted (reject_all_pending peer reason)
unfolding reject_all_pending
reject_all_pending-IsAccounted peer reason a =
    reject_where-IsAccounted (λ _. false) (closed reason) peer a

dispose-IsAccounted :
    (peer : Peer) (reason : List ℕ) → IsAccounted peer → IsAccounted (dispose peer reason)
unfolding dispose
dispose-IsAccounted peer reason a =
    if_both IsAccounted peer.disposed (λ _. a)
      (λ _.
        reject_all_pending-IsAccounted (record peer { disposed = true }) reason
          (SameTables-IsAccounted same a))

receive_response-IsAccounted :
    (peer : Peer) (id : IdField) (outcome : Settlement)
    → IsAccounted peer
    → IsAccounted (receive_response peer id outcome)
unfolding receive_response
receive_response-IsAccounted peer (num id) outcome a =
    elim (Option-cases (find_pending peer.pending id)) [
      | inl missing ↦ rw missing a
      | inr (p, found) ↦ rw found (
          settle_entry-IsAccounted peer id p outcome
            (find_pending-IsEntry peer.pending id p (pending_once peer id a) found) a)
    ]
receive_response-IsAccounted peer IdField.absent outcome a = a
receive_response-IsAccounted peer IdField.null outcome a = a
receive_response-IsAccounted peer (IdField.text _) outcome a = a

after_parse_error-SameTables :
    (peer : Peer) (thrown : Option Thrown) → SameTables (after_parse_error peer thrown).0 peer
unfolding after_parse_error
after_parse_error-SameTables peer none = same
after_parse_error-SameTables peer (some thrown) = same

receive_parsed-IsAccounted :
    (send : Send) (peer : Peer) (message : Parsed)
    → IsAccounted peer
    → IsAccounted (receive_parsed send peer message).0
unfolding receive_parsed
receive_parsed-IsAccounted send peer not_json a =
    SameTables-IsAccounted (after_parse_error-SameTables peer _) a
receive_parsed-IsAccounted send peer primitive a = a
receive_parsed-IsAccounted send peer (fields m) a =
    if_both (λ (r : Peer × Next). IsAccounted r.0) (is_response m)
      (λ _. receive_response-IsAccounted peer m.id _ a) (λ _. a)

receive-IsAccounted :
    (send : Send) (peer : Peer) (message : Parsed)
    → IsAccounted peer
    → IsAccounted (receive send peer message).0
unfolding receive
receive-IsAccounted send peer message a =
    if_both (λ (r : Peer × Next). IsAccounted r.0) peer.disposed (λ _. a)
      (λ _.
        if_both (λ (r : Peer × Next). IsAccounted r.0) (not peer.attached) (λ _. a)
          (λ _. receive_parsed-IsAccounted send peer message a))

send_failure-SameTables :
    (send : Send) (peer : Peer) (call : Call) (thrown : Thrown)
    → SameTables (send_failure send peer call thrown).0 peer
unfolding send_failure after_failure
send_failure-SameTables send peer call thrown =
    if_both (λ (r : Peer × Option Thrown). SameTables r.0 peer) (answers peer call)
      (λ _. after _ (send (wire_reply call.id (failed_reply thrown)))) (λ _. same)
  where
    after : (reply : Wire) (e : Option Thrown) → SameTables (after_failure peer reply e).0 peer
    after reply none = same
    after reply (some e) = same

complete-SameTables :
    (send : Send) (peer : Peer) (call : Call) (result : Result Thrown Json)
    → SameTables (complete send peer call result).0 peer
unfolding complete after_success
complete-SameTables send peer call (err thrown) = send_failure-SameTables send peer call thrown
complete-SameTables send peer call (ok result) =
    if_both (λ (r : Peer × Option Thrown). SameTables r.0 peer) (answers peer call)
      (λ _. after _ (send (wire_reply call.id (Reply.success result)))) (λ _. same)
  where
    after :
        (reply : Wire) (e : Option Thrown)
        → SameTables (after_success send peer call reply e).0 peer
    after reply none = same
    after reply (some e) = send_failure-SameTables send peer call e

step-IsAccounted : (peer : Peer) (e : Event) → IsAccounted peer → IsAccounted (step peer e)
unfolding step
step-IsAccounted peer (requests send method request_id params timeout_ms) a =
    request_raw-IsAccounted send peer method request_id params timeout_ms a
step-IsAccounted peer (fires id method) a =
    if_both IsAccounted (count_timers peer.timers id == 0) (λ _. a)
      (λ set. timer_fires-IsAccounted peer id method set a)
step-IsAccounted peer (resolves method request_id value) a =
    resolve_request-IsAccounted peer method request_id value a
step-IsAccounted peer (notifies send method params) a =
    SameTables-IsAccounted (notify_raw-SameTables send peer method params) a
step-IsAccounted peer (detaches reason) a = detach_transport-IsAccounted peer reason a
step-IsAccounted peer (attaches send to) a =
    SameTables-IsAccounted (attach_transport-SameTables send peer to) a
step-IsAccounted peer (receives send message) a = receive-IsAccounted send peer message a
step-IsAccounted peer (completes send call result) a =
    SameTables-IsAccounted (complete-SameTables send peer call result) a
step-IsAccounted peer (closes reason) a = reject_all_pending-IsAccounted peer reason a
step-IsAccounted peer (disposes reason) a = dispose-IsAccounted peer reason a

-- Through any events, each id that was given out stands once in the table of open requests or among
-- the settlements, never in both and never twice, no other id stands in either, and the timers that
-- are set are those of open requests.
pub run-IsAccounted :
    (peer : Peer) (events : List Event) → IsAccounted peer → IsAccounted (run peer events)
unfolding run
run-IsAccounted peer [] a = a
run-IsAccounted peer (e ∷ events) a =
    run-IsAccounted (step peer e) events (step-IsAccounted peer e a)

pub start-IsAccounted : (transport : ℕ) → IsAccounted (start transport)
unfolding count count_timers timed
start-IsAccounted transport = record {
  started = omega arith;
  once = λ id. ground arith;
  armed = λ id. refl;
}
