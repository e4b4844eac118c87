-- ===== src/Rpc/Fencing.antt =====
-- Which connection of packages/core/src/rpc.ts an answer goes to.
use agent_phonon.Base.{
  ℕ, ◌≤◌, ◌≡◌, refl, true, List, [], ◌∷◌, arith, ◌⊎◌, inl, inr, ok, err, Result, not, some, none,
  Option, if_both, subst, sym, ap, ◌∙◌,
}
use agent_phonon.Rpc.Messages.{
  Thrown, Json, Reply, wire_reply, Send, Incoming, failed_reply, Parsed, fields, not_json,
  primitive,
}
use agent_phonon.Rpc.State.{Peer, settle_entry}
use agent_phonon.Rpc.{
  Call, Next, finished, throws, throws_type_error, call_handler, answers, is_response,
  handler_called, dispose, request_raw, start_request, first_send, after_send, register,
  timer_fires, resolve_request, notify_raw, after_notify, detach_transport, attach_transport,
  receive, receive_parsed, after_parse_error, receive_response, complete, after_success,
  send_failure, after_failure, reject_all_pending,
}
use agent_phonon.Rpc.Events.{
  Event, requests, fires, resolves, notifies, detaches, attaches, receives, completes, closes,
  disposes, step, run,
}

-- The epoch does not fall, and the transport of an epoch does not change.
record IsLater (p q : Peer) : Type 0 where
  epoch : p.transport_epoch ≤ q.transport_epoch
  transport : p.transport_epoch ≡ q.transport_epoch → q.transport ≡ p.transport

step-IsLater : (peer : Peer) (e : Event) → IsLater peer (step peer e)
unfolding step request_raw start_request register first_send after_send settle_entry timer_fires
    resolve_request notify_raw after_notify detach_transport attach_transport receive receive_parsed
    after_parse_error receive_response complete send_failure reject_all_pending dispose
    after_success after_failure
step-IsLater peer (requests send method request_id params timeout_ms) = record {
  epoch = ground arith;
  transport = λ h. ground arith;
}
step-IsLater peer (fires id method) = record { epoch = ground arith; transport = λ h. ground arith }
step-IsLater peer (resolves method request_id value) = record {
  epoch = ground arith;
  transport = λ h. ground arith;
}
step-IsLater peer (notifies send method params) = record {
  epoch = ground arith;
  transport = λ h. ground arith;
}
step-IsLater peer (detaches reason) = record { epoch = ground arith; transport = λ h. ground arith }
step-IsLater peer (attaches send to) = record {
  epoch = ground arith;
  transport = λ h. ground arith;
}
step-IsLater peer (receives send message) = record {
  epoch = ground arith;
  transport = λ h. ground arith;
}
step-IsLater peer (completes send call (err thrown)) = record {
  epoch = ground arith;
  transport = λ h. ground arith;
}
step-IsLater peer (completes send call (ok result)) = record {
  epoch = ground arith;
  transport = λ h. ground arith;
}
step-IsLater peer (closes reason) = record { epoch = ground arith; transport = λ h. refl }
step-IsLater peer (disposes reason) = record { epoch = ground arith; transport = λ h. ground arith }

run-IsLater : (peer : Peer) (events : List Event) → IsLater peer (run peer events)
unfolding run
run-IsLater peer [] = record { epoch = omega arith; transport = λ _. refl }
run-IsLater peer (e ∷ events) =
    let one = step-IsLater peer e in
    let rest = run-IsLater (step peer e) events in
    record {
      epoch = omega (arith, one.epoch, rest.epoch);
      transport = λ h. ground (arith, one.epoch, rest.epoch, one.transport, rest.transport);
    }

-- What the peer has captured for a handler that it calls.
abbrev Captured : Peer → Next → Type 0
Captured peer finished = Unit {0}
Captured peer (throws thrown) = Unit {0}
Captured peer throws_type_error = Unit {0}
Captured peer (handler_called call) =
    (call.epoch ≡ peer.transport_epoch) × (call.transport ≡ peer.transport)

parse_error-Captured :
    (peer : Peer) (thrown : Option Thrown) → Captured peer (after_parse_error peer thrown).1
unfolding after_parse_error
parse_error-Captured peer none = tt
parse_error-Captured peer (some thrown) = tt

call_handler-Captured :
    (peer : Peer) (m : Incoming) (method : Option (List ℕ))
    → Captured peer (call_handler peer m method)
call_handler-Captured peer m none = tt
call_handler-Captured peer m (some method) = (refl, refl)

receive_parsed-Captured :
    (send : Send) (peer : Peer) (message : Parsed)
    → Captured peer (receive_parsed send peer message).1
unfolding receive_parsed
receive_parsed-Captured send peer not_json = parse_error-Captured peer _
receive_parsed-Captured send peer primitive = tt
receive_parsed-Captured send peer (fields m) =
    if_both (λ (r : Peer × Next). Captured peer r.1) (is_response m) (λ _. tt)
      (λ _. call_handler-Captured peer m m.method)

receive-Captured :
    (send : Send) (peer : Peer) (message : Parsed) → Captured peer (receive send peer message).1
unfolding receive
receive-Captured send peer message =
    if_both (λ (r : Peer × Next). Captured peer r.1) peer.disposed (λ _. tt)
      (λ _.
        if_both (λ (r : Peer × Next). Captured peer r.1) (not peer.attached) (λ _. tt)
          (λ _. receive_parsed-Captured send peer message))

-- The first sends nothing, or it sends one answer over the connection of the call.
abbrev Answered : Call → Peer → Peer → Type 0
Answered call p q =
    (p.sent ≡ q.sent)
    ⊎ ((call.epoch ≡ q.transport_epoch)
        × (q.attached ≡ true)
        × (to : ℕ) × (reply : Reply) × ((to ≡ call.transport) ⊎ (to ≡ q.transport))
        × (p.sent ≡ (to, wire_reply call.id reply) ∷ q.sent))

answers-true :
    (q : Peer) (call : Call)
    → answers q call ≡ true
    → (call.epoch ≡ q.transport_epoch) × (q.attached ≡ true)
answers-true q call h = (ground arith, ground arith)

send_failure-Answered :
    (send : Send) (q : Peer) (call : Call) (thrown : Thrown)
    → Answered call (send_failure send q call thrown).0 q
unfolding send_failure after_failure
send_failure-Answered send q call thrown =
    if_both (λ (r : Peer × Option Thrown). Answered call r.0 q) (answers q call)
      (λ h. after h (send (wire_reply call.id (failed_reply thrown)))) (λ _. inl refl)
  where
    after :
        answers q call ≡ true
        → (e : Option Thrown)
        → Answered call (after_failure q (wire_reply call.id (failed_reply thrown)) e).0 q
    after h none = inr (
      (answers-true q call h).0,
      (answers-true q call h).1,
      q.transport,
      failed_reply thrown,
      inr refl,
      refl,
    )
    after h (some e) = inl refl

complete-Answered :
    (send : Send) (q : Peer) (call : Call) (result : Result Thrown Json)
    → Answered call (complete send q call result).0 q
unfolding complete after_success
complete-Answered send q call (err thrown) = send_failure-Answered send q call thrown
complete-Answered send q call (ok result) =
    if_both (λ (r : Peer × Option Thrown). Answered call r.0 q) (answers q call)
      (λ h. after h (send (wire_reply call.id (Reply.success result)))) (λ _. inl refl)
  where
    after :
        answers q call ≡ true
        → (e : Option Thrown)
        → Answered call
            (after_success send q call (wire_reply call.id (Reply.success result)) e).0
            q
    after h none = inr (
      (answers-true q call h).0,
      (answers-true q call h).1,
      call.transport,
      Reply.success result,
      inl refl,
      refl,
    )
    after h (some e) = send_failure-Answered send q call e

-- When the handler of a request ends, after any events in between, the peer sends nothing, or one
-- answer with the request's id over the transport that the request came by; and it answers only if
-- it is attached and the connection has not been replaced since.
pub complete_same_transport :
    (send : Send) (peer : Peer) (message : Parsed) (call : Call) (events : List Event)
    (send_later : Send) (result : Result Thrown Json)
    → (receive send peer message).1 ≡ handler_called call
    → let q = run peer (receives send message ∷ events) in
      ((complete send_later q call result).0.sent ≡ q.sent)
      ⊎ ((q.transport_epoch ≡ peer.transport_epoch)
          × (q.attached ≡ true)
          × (reply : Reply) × ((complete send_later q call result).0.sent
              ≡ (peer.transport, wire_reply call.id reply) ∷ q.sent))
complete_same_transport send peer message call events send_later result h =
    let q = run peer (receives send message ∷ events) in
    let captured : Captured peer (handler_called call) =
      subst (Captured peer) h (receive-Captured send peer message) in
    let later = run-IsLater peer (receives send message ∷ events) in
    elim (complete-Answered send_later q call result) [
      | inl nothing ↦ inl nothing
      | inr (epoch, attached, to, reply, via, sent) ↦
          let same : peer.transport_epoch ≡ q.transport_epoch = omega (arith, captured.0, epoch) in
          let kept = later.transport same in
          let there : to ≡ peer.transport = elim via [
            | inl first ↦ omega (arith, first, captured.1)
            | inr now ↦ omega (arith, now, kept)
          ] in
          inr (
            sym same,
            attached,
            reply,
            sent ∙ ap (λ u. (u, wire_reply call.id reply) ∷ q.sent) there,
          )
    ]
