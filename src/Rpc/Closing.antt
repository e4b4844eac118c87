-- ===== src/Rpc/Closing.antt =====
-- The end of a peer of packages/core/src/rpc.ts.
use agent_phonon.Base.{
  ℕ, ◌≡◌, refl, true, false, List, [], ◌∷◌, ◌++◌, arith, ◌⊎◌, inl, inr, ap, ok, err,
}
use agent_phonon.Rpc.State.{Pending, Peer, Reason, Settlement, delete_pending, settle_entry}
use agent_phonon.Rpc.{
  reject_entries, reject_all_pending, dispose, request_raw, start_request, first_send, after_send,
  register, timer_fires, resolve_request, notify_raw, after_notify, detach_transport,
  attach_transport, receive, receive_parsed, after_parse_error, receive_response, complete,
  after_success, send_failure, after_failure, find_request,
}
use agent_phonon.Rpc.Tables.{count}
use agent_phonon.Rpc.Events.{
  Event, requests, fires, resolves, notifies, detaches, attaches, receives, completes, closes,
  disposes, step, run, start, is_issued,
}
use agent_phonon.Rpc.Accounts.{run-IsAccounted, start-IsAccounted}

reject_entries-none :
    (reason : Reason) (pending : List (ℕ × Pending)) (timers : List ℕ)
    (settled : List (ℕ × Settlement))
    → (reject_entries (λ _. false) reason pending timers settled).0 ≡ []
unfolding reject_entries
reject_entries-none reason [] timers settled = refl
reject_entries-none reason ((id, p) ∷ pending) timers settled =
    reject_entries-none reason pending _ _

-- Nothing is left open at a peer that is closed.
abbrev IsClosed : Peer → Type 0
IsClosed peer = (peer.disposed ≡ true) × (peer.pending ≡ [])

step-IsClosed : (peer : Peer) (e : Event) → IsClosed peer → IsClosed (step peer e)
unfolding step request_raw timer_fires delete_pending resolve_request find_request notify_raw
    detach_transport attach_transport receive complete send_failure reject_all_pending
    reject_entries dispose after_success after_failure
step-IsClosed peer (requests send method request_id params timeout_ms) (d, n) =
    (ground (arith, d), ground (arith, d, n))
step-IsClosed peer (fires id method) (d, n) = (ground (arith, d), ground (arith, d, n))
step-IsClosed peer (resolves method request_id value) (d, n) =
    (ground (arith, d, n), ground (arith, d, n))
step-IsClosed peer (notifies send method params) (d, n) = (ground (arith, d), ground (arith, d, n))
step-IsClosed peer (detaches reason) (d, n) = (ground (arith, d), ground (arith, d, n))
step-IsClosed peer (attaches send to) (d, n) = (ground (arith, d), ground (arith, d, n))
step-IsClosed peer (receives send message) (d, n) = (ground (arith, d), ground (arith, d, n))
step-IsClosed peer (completes send call (err thrown)) (d, n) =
    (ground (arith, d), ground (arith, d, n))
step-IsClosed peer (completes send call (ok result)) (d, n) =
    (ground (arith, d), ground (arith, d, n))
step-IsClosed peer (closes reason) (d, n) = (d, ground (arith, n))
step-IsClosed peer (disposes reason) (d, n) = (ground (arith, d), ground (arith, d, n))

dispose-IsClosed :
    (peer : Peer) (reason : List ℕ)
    → (peer.disposed ≡ false) ⊎ IsClosed peer
    → IsClosed (dispose peer reason)
unfolding dispose reject_all_pending
dispose-IsClosed peer reason (inl live) = rw live (refl, reject_entries-none _ peer.pending _ _)
dispose-IsClosed peer reason (inr (d, n)) = (ground (arith, d), ground (arith, d, n))

step-disposed :
    (peer : Peer) (e : Event)
    → (peer.disposed ≡ false) ⊎ IsClosed peer
    → ((step peer e).disposed ≡ false) ⊎ IsClosed (step peer e)
unfolding step request_raw start_request register first_send after_send settle_entry timer_fires
    resolve_request notify_raw after_notify detach_transport attach_transport receive receive_parsed
    after_parse_error receive_response complete send_failure reject_all_pending after_success
    after_failure
step-disposed peer e (inr c) = inr (step-IsClosed peer e c)
step-disposed peer (requests send method request_id params timeout_ms) (inl live) =
    inl (ground (arith, live))
step-disposed peer (fires id method) (inl live) = inl (ground (arith, live))
step-disposed peer (resolves method request_id value) (inl live) = inl (ground (arith, live))
step-disposed peer (notifies send method params) (inl live) = inl (ground (arith, live))
step-disposed peer (detaches reason) (inl live) = inl (ground (arith, live))
step-disposed peer (attaches send to) (inl live) = inl (ground (arith, live))
step-disposed peer (receives send message) (inl live) = inl (ground (arith, live))
step-disposed peer (completes send call (err thrown)) (inl live) = inl (ground (arith, live))
step-disposed peer (completes send call (ok result)) (inl live) = inl (ground (arith, live))
step-disposed peer (closes reason) (inl live) = inl live
step-disposed peer (disposes reason) (inl live) = inr (dispose-IsClosed peer reason (inl live))

run-IsClosed : (peer : Peer) (events : List Event) → IsClosed peer → IsClosed (run peer events)
unfolding run
run-IsClosed peer [] c = c
run-IsClosed peer (e ∷ events) c = run-IsClosed (step peer e) events (step-IsClosed peer e c)

run-dispose :
    (peer : Peer) (before : List Event) (reason : List ℕ) (after : List Event)
    → (peer.disposed ≡ false) ⊎ IsClosed peer
    → IsClosed (run peer (before ++ disposes reason ∷ after))
unfolding run step
run-dispose peer [] reason after h = run-IsClosed _ after (dispose-IsClosed peer reason h)
run-dispose peer (e ∷ before) reason after h =
    run-dispose (step peer e) before reason after (step-disposed peer e h)

-- Once a peer is disposed of, whatever happened before and happens after, no request is open and the
-- promise of each request that was issued has been settled exactly once.
pub run_disposed :
    (transport : ℕ) (before : List Event) (reason : List ℕ) (after : List Event) (id : ℕ)
    → let peer = run (start transport) (before ++ disposes reason ∷ after) in
      (peer.pending ≡ []) × (count peer.settled id ≡ is_issued peer id)
unfolding count
run_disposed transport before reason after id =
    let events = before ++ disposes reason ∷ after in
    let c = run-dispose (start transport) before reason after (inl refl) in
    let a = run-IsAccounted (start transport) events (start-IsAccounted transport) in
    (c.1, omega (arith, a.once id, ap (λ pending. count pending id) c.1))
