-- ===== src/Rpc/Tests.antt =====
-- Runs of the peer of packages/core/src/rpc.ts, and the theorems at them.
use agent_phonon.Base.{ℕ, ◌≤◌, ◌≡◌, ◌⊎◌, refl, true, false, List, [], ◌∷◌, ◌++◌, none, some, ok}
use agent_phonon.Js.Text.{codes}
use agent_phonon.Rpc.Messages.{Reply, wire_request, wire_reply, Incoming, fields, num, ErrorField}
use agent_phonon.Rpc.State.{Peer, resolved, rejected, unconfirmed}
use agent_phonon.Rpc.{Call, request_raw, attach_transport, detach_transport, receive, complete}
use agent_phonon.Rpc.Tables.{count}
use agent_phonon.Rpc.Events.{
  IsAccounted, Event, requests, fires, detaches, attaches, receives, disposes, run, start,
  is_issued,
}
use agent_phonon.Rpc.Accounts.{run-IsAccounted, start-IsAccounted}
use agent_phonon.Rpc.Closing.{run_disposed}
use agent_phonon.Rpc.Fencing.{complete_same_transport}
use agent_phonon.Rpc.Replay.{effects, run_no_replay}
use agent_phonon.Rpc.Reconnect.{takes_all, human_decisions, delivered, reconnects}

abbrev ask : List ℕ
ask = codes "interaction.request"

abbrev asks : Event
asks = requests takes_all ask (some (codes "r1")) (codes "{}") 0

abbrev effect : Event
effect = requests takes_all (codes "session.create") none (codes "{}") 1000

abbrev answer : Incoming
answer = record {
  has_result_or_error = true;
  has_id = true;
  id = num 2;
  result = some (codes "1");
  error = ErrorField.absent;
  method = none;
  params = [];
}

abbrev question : Incoming
question = record {
  has_result_or_error = false;
  has_id = true;
  id = num 7;
  result = none;
  error = ErrorField.absent;
  method = some (codes "session.list");
  params = [];
}

abbrev question_call : ℕ → Call
question_call transport = record {
  id = num 7;
  method = codes "session.list";
  params = [];
  epoch = 0;
  transport = transport;
}

-- The decision waits over the change of transport, the other request is rejected, and an answer to
-- it that comes late finds nothing.
abbrev history : List Event
history =
    asks
    ∷ effect
    ∷ detaches (codes "lost")
    ∷ attaches takes_all 9
    ∷ receives takes_all (fields answer)
    ∷ fires 2 []
    ∷ []

settled_run : (run (start 5) history).settled ≡ (2, rejected (unconfirmed (codes "lost"))) ∷ []
unfolding run request_raw detach_transport attach_transport receive
settled_run = refl

sent_run :
    (run (start 5) history).sent
    ≡ (9, wire_request 1 ask (codes "{}"))
      ∷ (5, wire_request 2 (codes "session.create") (codes "{}"))
      ∷ (5, wire_request 1 ask (codes "{}"))
      ∷ []
unfolding run request_raw detach_transport attach_transport receive
sent_run = refl

answered_run :
    (run (start 5) (asks ∷ effect ∷ receives takes_all (fields answer) ∷ fires 2 [] ∷ [])).settled
    ≡ (2, resolved (some (codes "1"))) ∷ []
unfolding run request_raw receive
answered_run = refl

run-IsAccounted_example : IsAccounted (run (start 5) history)
run-IsAccounted_example = run-IsAccounted (start 5) history (start-IsAccounted 5)

run_disposed_example :
    let peer = run (start 5) (history ++ disposes (codes "end") ∷ asks ∷ []) in
    (peer.pending ≡ []) × (count peer.settled 1 ≡ is_issued peer 1)
run_disposed_example = run_disposed 5 history (codes "end") (asks ∷ []) 1

run_no_replay_example : effects (run (start 5) history).sent 2 ≤ 1
run_no_replay_example = run_no_replay 5 history 2

two_open : Peer
unfolding run request_raw
two_open = run (start 5) (asks ∷ effect ∷ asks ∷ [])

reconnects_example :
    let q = (attach_transport takes_all (detach_transport two_open (codes "lost")) 9).0 in
    (q.pending ≡ human_decisions two_open.pending)
    × (q.sent ≡ delivered 9 (human_decisions two_open.pending) two_open.sent)
unfolding two_open
reconnects_example = reconnects two_open (codes "lost") 9 refl refl

complete_same_transport_example :
    let q = run (start 5) (receives takes_all (fields question) ∷ effect ∷ []) in
    ((complete takes_all q (question_call 5) (ok (codes "[]"))).0.sent ≡ q.sent)
    ⊎ ((q.transport_epoch ≡ 0)
        × (q.attached ≡ true)
        × (reply : Reply) × ((complete takes_all q (question_call 5) (ok (codes "[]"))).0.sent
            ≡ (5, wire_reply (num 7) reply) ∷ q.sent))
unfolding receive
complete_same_transport_example =
    complete_same_transport takes_all (start 5) (fields question) (question_call 5) (effect ∷ [])
      takes_all (ok (codes "[]")) refl
