-- ===== src/Rpc/Reconnect.antt =====
-- A lost connection and the next one in packages/core/src/rpc.ts.
use agent_phonon.Base.{
  ℕ, ◌≡◌, refl, true, false, List, [], ◌∷◌, inl, inr, none, Bool-cases, if◌then◌else◌, ◌∙◌, ap,
}
use agent_phonon.Rpc.Messages.{Wire, Send}
use agent_phonon.Rpc.State.{Pending, Peer, Reason, Settlement, is_human_decision, unconfirmed}
use agent_phonon.Rpc.{reject_entries, detach_transport, attach_transport, resend}

unfoldable pub human_decisions : List (ℕ × Pending) → List (ℕ × Pending)
human_decisions [] = []
human_decisions ((i, p) ∷ pending) =
    let rest = human_decisions pending in if is_human_decision p.method then (i, p) ∷ rest else rest

-- The wires of the entries in their order, each put over the last.
unfoldable pub delivered : ℕ → List (ℕ × Pending) → List (ℕ × Wire) → List (ℕ × Wire)
delivered to [] sent = sent
delivered to ((i, p) ∷ pending) sent = delivered to pending ((to, p.wire) ∷ sent)

abbrev pub takes_all : Send
takes_all wire = none

reject_entries-kept :
    (reason : Reason) (pending : List (ℕ × Pending)) (timers : List ℕ)
    (settled : List (ℕ × Settlement))
    → (reject_entries (λ p. is_human_decision p.method) reason pending timers settled).0
      ≡ human_decisions pending
unfolding reject_entries human_decisions
reject_entries-kept reason [] timers settled = refl
reject_entries-kept reason ((i, p) ∷ pending) timers settled =
    elim (Bool-cases (is_human_decision p.method)) [
      | inl human ↦ rw (human, reject_entries-kept reason pending timers settled) refl
      | inr other ↦ rw other (reject_entries-kept reason pending _ _)
    ]

resend-delivered :
    (to : ℕ) (pending : List (ℕ × Pending)) (sent : List (ℕ × Wire))
    → (resend takes_all to (human_decisions pending) sent).0
      ≡ delivered to (human_decisions pending) sent
unfolding resend human_decisions delivered
resend-delivered to [] sent = refl
resend-delivered to ((i, p) ∷ pending) sent = elim (Bool-cases (is_human_decision p.method)) [
  | inl human ↦ rw human (rw human (resend-delivered to pending ((to, p.wire) ∷ sent)))
  | inr other ↦ rw other (resend-delivered to pending sent)
]

-- A peer that loses its connection and gets another, which takes all messages, keeps exactly the
-- open human decisions, in their order, and sends each of them again over the new one, in that order
-- and nothing else.
pub reconnects :
    (peer : Peer) (reason : List ℕ) (to : ℕ)
    → peer.disposed ≡ false
    → peer.attached ≡ true
    → let q = (attach_transport takes_all (detach_transport peer reason) to).0 in
      (q.pending ≡ human_decisions peer.pending)
      × (q.sent ≡ delivered to (human_decisions peer.pending) peer.sent)
unfolding attach_transport detach_transport
reconnects peer reason to live here =
    let kept = reject_entries-kept (unconfirmed reason) peer.pending peer.timers peer.settled in
    rw (live, here)
      (
        kept,
        ap (λ l. (resend takes_all to l peer.sent).0) kept
            ∙ resend-delivered to peer.pending peer.sent,
      )
