-- ===== src/Rpc/Entries.antt =====
-- What the calls of packages/core/src/rpc.ts do to the table of open requests and the settlements.
use agent_phonon.Base.{
  ℕ, ◌+◌, ◌≤◌, ◌≡◌, refl, inl, inr, Bool, false, not, ◌&&◌, List, [], ◌∷◌, Option, none, some, ◌==◌,
  arith, Option-cases, if_both,
}
use agent_phonon.Rpc.Messages.{Json, Thrown, Send, Wire}
use agent_phonon.Rpc.State.{
  Pending, Peer, Reason, Settlement, settle_entry, is_human_decision, rejected, not_attached,
}
use agent_phonon.Rpc.{
  new_pending, register, after_send, first_send, start_request, request_raw, timer_fires,
  resolve_request, reject_entries, reject_where, Issued, find_request,
}
use agent_phonon.Rpc.Tables.{
  count, count_timers, timed, count-append, timed-append, timed_le_count, count-delete_pending,
  timed-delete_pending, count_timers-remove_timer, IsEntry, find_request-IsEntry,
  reject_entries-counts,
}
use agent_phonon.Rpc.Events.{IsAccounted}

-- The parts of a peer that the accounts are about.
pub record SameTables (p q : Peer) : Type 0 where
  next_id : p.next_id ≡ q.next_id
  pending : p.pending ≡ q.pending
  timers : p.timers ≡ q.timers
  settled : p.settled ≡ q.settled

pub SameTables-IsAccounted : {p q : Peer} → SameTables p q → IsAccounted q → IsAccounted p
SameTables-IsAccounted {p} {q} same a = record {
  started = rw same.next_id a.started;
  once = λ id. rw (same.pending, same.settled, same.next_id) (a.once id);
  armed = λ id. rw (same.timers, same.pending) (a.armed id);
}

pub pending_once : (peer : Peer) (id : ℕ) → IsAccounted peer → count peer.pending id ≤ 1
pending_once peer id a = ground (arith, a.once id)

pub settle_entry-IsAccounted :
    (peer : Peer) (id : ℕ) (p : Pending) (outcome : Settlement)
    → IsEntry peer.pending id p
    → IsAccounted peer
    → IsAccounted (settle_entry peer id p outcome)
unfolding settle_entry count
settle_entry-IsAccounted peer id p outcome e a = record {
  started = a.started;
  once = λ k. ground (arith, e.one, a.once k, a.once id, count-delete_pending peer.pending id k);
  armed = λ k. ground (
    arith,
    e.one,
    e.timer,
    a.armed k,
    timed-delete_pending peer.pending id k,
    count_timers-remove_timer peer.timers id k,
  );
}

pub timer_fires-IsAccounted :
    (peer : Peer) (id : ℕ) (method : List ℕ)
    → (count_timers peer.timers id == 0) ≡ false
    → IsAccounted peer
    → IsAccounted (timer_fires peer id method)
unfolding timer_fires count
timer_fires-IsAccounted peer id method set a = record {
  started = a.started;
  once = λ k. ground (
    arith,
    a.armed id,
    timed_le_count peer.pending id,
    a.once k,
    a.once id,
    count-delete_pending peer.pending id k,
  );
  armed = λ k. ground (
    arith,
    a.armed k,
    timed-delete_pending peer.pending id k,
    count_timers-remove_timer peer.timers id k,
  );
}

register-IsAccounted :
    (peer : Peer) (p : Pending) → IsAccounted peer → IsAccounted (register peer p)
unfolding register count timed count_timers
register-IsAccounted peer p a = record {
  started = omega (arith, a.started);
  once = λ k.
      ground (arith, a.started, a.once k, count-append peer.pending ((peer.next_id, p) ∷ []) k);
  armed = λ k. ground (arith, a.armed k, timed-append peer.pending ((peer.next_id, p) ∷ []) k);
}

register-IsEntry :
    (peer : Peer) (p : Pending)
    → IsAccounted peer
    → IsEntry (register peer p).pending peer.next_id p
unfolding register count timed
register-IsEntry peer p a = record {
  one =
      ground (
        arith,
        a.once peer.next_id,
        count-append peer.pending ((peer.next_id, p) ∷ []) peer.next_id,
      );
  timer = ground (
    arith,
    a.once peer.next_id,
    timed_le_count peer.pending peer.next_id,
    timed-append peer.pending ((peer.next_id, p) ∷ []) peer.next_id,
  );
}

pub reject_where-IsAccounted :
    (keep : Pending → Bool) (reason : Reason) (peer : Peer)
    → IsAccounted peer
    → IsAccounted (reject_where keep reason peer)
reject_where-IsAccounted keep reason peer a = record {
  started = a.started;
  once = λ id. omega (arith, (counts id).0, a.once id);
  armed = λ id. omega (arith, (counts id).1);
}
  where
    counts :
        (id : ℕ)
        → let (left, timers_left, settled_after) =
            reject_entries keep reason peer.pending peer.timers peer.settled in
          (count left id + count settled_after id ≡ count peer.pending id + count peer.settled id)
          × (count_timers timers_left id ≡ 0 + timed left id)
    counts id =
        reject_entries-counts keep reason peer.pending peer.timers peer.settled id 0
          (omega (arith, pending_once peer id a)) (omega (arith, a.armed id))

-- Where only the other parts differ.
pub same :
    {p : Peer} {transport : ℕ} {disposed attached : Bool} {epoch : ℕ} {sent : List (ℕ × Wire)}
    → SameTables
        (record p {
          transport = transport;
          disposed = disposed;
          attached = attached;
          transport_epoch = epoch;
          sent = sent;
        })
        p
same {p} = record { next_id = refl; pending = refl; timers = refl; settled = refl }

after_send-IsAccounted :
    (peer : Peer) (id : ℕ) (p : Pending) (thrown : Option Thrown)
    → IsEntry peer.pending id p
    → IsAccounted peer
    → IsAccounted (after_send peer id p thrown)
unfolding after_send
after_send-IsAccounted peer id p none e a = SameTables-IsAccounted same a
after_send-IsAccounted peer id p (some thrown) e a = settle_entry-IsAccounted peer id p _ e a

start_request-IsAccounted :
    (send : Send) (peer : Peer) (p : Pending)
    → IsAccounted peer
    → IsAccounted (start_request send peer p)
unfolding start_request first_send
start_request-IsAccounted send peer p a =
    let registered = register-IsAccounted peer p a in
    let entry = register-IsEntry peer p a in
    if_both IsAccounted (not peer.attached && is_human_decision p.method) (λ _. registered)
      (λ _.
        if_both IsAccounted (not peer.attached)
          (λ _.
            settle_entry-IsAccounted (register peer p) peer.next_id p (rejected not_attached) entry
              registered)
          (λ _.
            after_send-IsAccounted (register peer p) peer.next_id p (send p.wire) entry registered))

pub request_raw-IsAccounted :
    (send : Send) (peer : Peer) (method : List ℕ) (request_id : Option (List ℕ)) (params : Json)
    (timeout_ms : ℕ)
    → IsAccounted peer
    → IsAccounted (request_raw send peer method request_id params timeout_ms).0
unfolding request_raw
request_raw-IsAccounted send peer method request_id params timeout_ms a =
    if_both (λ (r : Peer × Issued). IsAccounted r.0) peer.disposed (λ _. a)
      (λ _.
        start_request-IsAccounted send peer
          (new_pending peer.next_id method request_id params timeout_ms) a)

pub resolve_request-IsAccounted :
    (peer : Peer) (method request_id : List ℕ) (value : Json)
    → IsAccounted peer
    → IsAccounted (resolve_request peer method request_id value).0
unfolding resolve_request
resolve_request-IsAccounted peer method request_id value a =
    elim (Option-cases (find_request peer.pending method request_id)) [
      | inl missing ↦ rw missing a
      | inr ((id, p), found) ↦ rw found (
          settle_entry-IsAccounted peer id p _
            (find_request-IsEntry peer.pending method request_id id p (λ k. pending_once peer k a)
              found)
            a)
    ]
