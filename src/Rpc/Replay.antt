-- ===== src/Rpc/Replay.antt =====
-- What packages/core/src/rpc.ts sends again after a reconnection.
use agent_phonon.Base.{
  ℕ, ◌≤◌, ◌+◌, ◌≡◌, refl, true, false, List, [], ◌∷◌, ◌++◌, arith, inl, inr, ok, err, not, ◌&&◌,
  ◌==◌, if◌then◌else◌, Bool, leb, Bool-cases, Option-cases,
}
use agent_phonon.Rpc.Messages.{
  Wire, wire_request, wire_notification, wire_reply, Send, fields, not_json, primitive, IdField,
  num,
}
use agent_phonon.Rpc.State.{
  Pending, unconfirmed, closed, Peer, Reason, Settlement, is_human_decision, delete_pending,
  find_pending, settle_entry,
}
use agent_phonon.Rpc.{
  response_outcome, new_pending, dispose, request_raw, start_request, first_send, after_send,
  register, reject_entries, timer_fires, resolve_request, notify_raw, after_notify,
  detach_transport, attach_transport, receive, receive_parsed, after_parse_error, receive_response,
  complete, after_success, send_failure, after_failure, find_request, reject_all_pending, resend,
}
use agent_phonon.Rpc.Events.{
  Event, requests, fires, resolves, notifies, detaches, attaches, receives, completes, closes,
  disposes, step, run, start,
}

-- A request with the id that is no human decision.
unfoldable pub is_effect : Wire → ℕ → Bool
is_effect (wire_request i method params) id = i == id && not (is_human_decision method)
is_effect (wire_notification method params) id = false
is_effect (wire_reply i reply) id = false

-- How often such a request has been put on a transport.
unfoldable pub effects : List (ℕ × Wire) → ℕ → ℕ
unfolding is_effect
effects [] id = 0
effects ((to, wire) ∷ sent) id = (if is_effect wire id then 1 else 0) + effects sent id

-- No open human decision would send a request with the id that is none.
unfoldable labelled : List (ℕ × Pending) → ℕ → Bool
unfolding is_effect
labelled [] id = true
labelled ((i, p) ∷ pending) id =
    not (is_human_decision p.method && is_effect p.wire id) && labelled pending id

record IsUnique (peer : Peer) : Type 0 where
  once : (id : ℕ) → effects peer.sent id ≤ (if leb peer.next_id id then 0 else 1)
  labels : (id : ℕ) → labelled peer.pending id ≡ true

labelled-delete_pending :
    (pending : List (ℕ × Pending)) (k id : ℕ)
    → labelled pending id ≡ true
    → labelled (delete_pending pending k) id ≡ true
unfolding labelled delete_pending
labelled-delete_pending [] k id h = refl
labelled-delete_pending ((i, p) ∷ pending) k id h =
    ground (arith, labelled-delete_pending pending k id)

labelled-reject_entries :
    (keep : Pending → Bool) (reason : Reason) (pending : List (ℕ × Pending)) (timers : List ℕ)
    (settled : List (ℕ × Settlement)) (id : ℕ)
    → labelled pending id ≡ true
    → labelled (reject_entries keep reason pending timers settled).0 id ≡ true
unfolding labelled reject_entries
labelled-reject_entries keep reason [] timers settled id h = refl
labelled-reject_entries keep reason ((i, p) ∷ pending) timers settled id h =
    elim (Bool-cases (keep p)) [
      | inl stays ↦
          rw stays (ground (arith, labelled-reject_entries keep reason pending timers settled id))
      | inr goes ↦ rw goes (labelled-reject_entries keep reason pending _ _ id (ground arith))
    ]

labelled-append :
    (pending : List (ℕ × Pending)) (i : ℕ) (p : Pending) (id : ℕ)
    → labelled (pending ++ (i, p) ∷ []) id
      ≡ (labelled pending id && not (is_human_decision p.method && is_effect p.wire id))
unfolding labelled
labelled-append [] i p id = ground arith
labelled-append ((j, q) ∷ pending) i p id = ground (arith, labelled-append pending i p id)

effects-resend :
    (send : Send) (to : ℕ) (pending : List (ℕ × Pending)) (sent : List (ℕ × Wire)) (id : ℕ)
    → labelled pending id ≡ true
    → effects (resend send to pending sent).0 id ≡ effects sent id
unfolding resend effects labelled
effects-resend send to [] sent id h = refl
effects-resend send to ((i, p) ∷ pending) sent id h = ground (
  arith,
  effects-resend send to pending sent id,
  effects-resend send to pending ((to, p.wire) ∷ sent) id,
)

receive_response-SameTransport :
    (peer : Peer) (i : IdField) (outcome : Settlement)
    → let q = receive_response peer i outcome in
      (q.sent ≡ peer.sent)
      × (q.next_id ≡ peer.next_id)
      × ((id : ℕ) → labelled peer.pending id ≡ true → labelled q.pending id ≡ true)
unfolding receive_response settle_entry
receive_response-SameTransport peer (num k) outcome =
    elim (Option-cases (find_pending peer.pending k)) [
      | inl missing ↦ rw missing (refl, refl, λ id h. h)
      | inr (p, found) ↦ rw found (refl, refl, λ id h. labelled-delete_pending peer.pending k id h)
    ]
receive_response-SameTransport peer IdField.absent outcome = (refl, refl, λ id h. h)
receive_response-SameTransport peer IdField.null outcome = (refl, refl, λ id h. h)
receive_response-SameTransport peer (IdField.text _) outcome = (refl, refl, λ id h. h)

step-IsUnique : (peer : Peer) (e : Event) → IsUnique peer → IsUnique (step peer e)
unfolding step request_raw start_request register first_send after_send settle_entry timer_fires
    resolve_request notify_raw after_notify detach_transport attach_transport receive receive_parsed
    after_parse_error complete send_failure reject_all_pending dispose after_success after_failure
    effects is_effect labelled
step-IsUnique peer (requests send method request_id params timeout_ms) u = record {
  once = λ id. ground (arith, u.once id);
  labels = λ id. ground (
    arith,
    u.labels id,
    labelled-append peer.pending peer.next_id
        (new_pending peer.next_id method request_id params timeout_ms) id,
    labelled-delete_pending
        (peer.pending
          ++ (peer.next_id, new_pending peer.next_id method request_id params timeout_ms) ∷ [])
        peer.next_id id,
  );
}
step-IsUnique peer (fires id method) u = record {
  once = λ k. ground (arith, u.once k);
  labels = λ k. ground (arith, u.labels k, labelled-delete_pending peer.pending id k);
}
step-IsUnique peer (resolves method request_id value) u = record {
  once = λ id. ground (arith, u.once id);
  labels = λ id. elim (Option-cases (find_request peer.pending method request_id)) [
    | inl missing ↦ ground (arith, missing, u.labels id)
    | inr ((k, p), found) ↦
        ground (arith, found, u.labels id, labelled-delete_pending peer.pending k id)
  ];
}
step-IsUnique peer (notifies send method params) u = record {
  once = λ id. ground (arith, u.once id);
  labels = λ id. ground (arith, u.labels id);
}
step-IsUnique peer (detaches reason) u = record {
  once = λ id. ground (arith, u.once id);
  labels = λ id. ground (
    arith,
    u.labels id,
    labelled-reject_entries (λ p. is_human_decision p.method) (unconfirmed reason) peer.pending
        peer.timers peer.settled id,
  );
}
step-IsUnique peer (attaches send to) u = record {
  once = λ id.
      ground (arith, u.once id, u.labels id, effects-resend send to peer.pending peer.sent id);
  labels = λ id. ground (arith, u.labels id);
}
step-IsUnique peer (receives send not_json) u = record {
  once = λ id. ground (arith, u.once id);
  labels = λ id. ground (arith, u.labels id);
}
step-IsUnique peer (receives send primitive) u = record {
  once = λ id. ground (arith, u.once id);
  labels = λ id. ground (arith, u.labels id);
}
step-IsUnique peer (receives send (fields m)) u =
    let response = receive_response-SameTransport peer m.id (response_outcome m.error m.result) in
    record {
      once = λ id. ground (arith, u.once id, response.0, response.1);
      labels = λ id. ground (arith, u.labels id, response.2 id);
    }
step-IsUnique peer (completes send call (err thrown)) u = record {
  once = λ id. ground (arith, u.once id);
  labels = λ id. ground (arith, u.labels id);
}
step-IsUnique peer (completes send call (ok result)) u = record {
  once = λ id. ground (arith, u.once id);
  labels = λ id. ground (arith, u.labels id);
}
step-IsUnique peer (closes reason) u = record {
  once = u.once;
  labels = λ id.
      labelled-reject_entries (λ _. false) (closed reason) peer.pending peer.timers peer.settled id
        (u.labels id);
}
step-IsUnique peer (disposes reason) u = record {
  once = λ id. ground (arith, u.once id);
  labels = λ id. ground (
    arith,
    u.labels id,
    labelled-reject_entries (λ _. false) (closed reason) peer.pending peer.timers peer.settled id,
  );
}

run-IsUnique : (peer : Peer) (events : List Event) → IsUnique peer → IsUnique (run peer events)
unfolding run
run-IsUnique peer [] u = u
run-IsUnique peer (e ∷ events) u = run-IsUnique (step peer e) events (step-IsUnique peer e u)

-- Through any events, reconnections included, a request that is not a human decision is put on a
-- transport at most once: none is sent again.
pub run_no_replay :
    (transport : ℕ) (events : List Event) (id : ℕ)
    → effects (run (start transport) events).sent id ≤ 1
unfolding effects labelled
run_no_replay transport events id =
    ground (arith, (run-IsUnique (start transport) events start-IsUnique).once id)
  where
    start-IsUnique : IsUnique (start transport)
    start-IsUnique = record { once = λ id. ground arith; labels = λ id. refl }
