-- ===== src/Outbox/History.antt =====
-- What a history of calls does to the events of packages/core/src/outbox.ts.
use agent_phonon.Base.{
  ℕ, ◌≤◌, ◌≡◌, refl, ◌⊎◌, inl, inr, Bool, true, false, List, [], ◌∷◌, Option, none, some,
  if◌then◌else◌, arith, ◌||◌, ◌&&◌, not, ◌==◌, leb, min, Bool-cases, ok, length, le→leb,
}
use agent_phonon.Js.Text.{text_eq, ℤ, pos, negsuc}
use agent_phonon.Js.Text.Order.{text_eq_iff, text_eq_refl}
use agent_phonon.Store.Write.{Disk, works}
use agent_phonon.Store.Outbox.{StreamEvent}
use agent_phonon.Outbox.State.{Buffered, Outbox, get, is_acked}
use agent_phonon.Outbox.{
  push, enqueue, commit_ack, ack, ack_seq, ack_known, session_items, max_seq, max_safe_integer,
}
use agent_phonon.Outbox.Maps.{get-set}
use agent_phonon.Outbox.Buffer.{
  in_buffer, in_buffer-append, covers, drop_acked-kept, in_buffer-kept, le-max_seq,
  in_buffer-session_items,
}
use agent_phonon.Outbox.Effects.{enqueue_effect, ack_effect, ack_known_works}
use agent_phonon.Outbox.Invariant.{IsValid, step-IsValid}

pub data Call : Type 0 where
  enqueues : StreamEvent → Call
  acks : List ℕ → ℤ → Call

unfoldable pub step : (List ℕ → ℕ) → Outbox → Disk × Call → Outbox
step digest o (disk, enqueues event) = (enqueue digest disk o event).0
step digest o (disk, acks session last_seq) = (ack disk o session last_seq).0

unfoldable pub run : (List ℕ → ℕ) → Outbox → List (Disk × Call) → Outbox
unfolding step
run digest o [] = o
run digest o (c ∷ calls) = run digest (step digest o c) calls

-- The call acknowledges the event.
abbrev pub acknowledges : Call → List ℕ → ℕ → Bool
acknowledges (enqueues event) s n = false
acknowledges (acks session (negsuc m)) s n = false
acknowledges (acks session (pos m)) s n = text_eq session s && leb n m

abbrev pub any_acknowledges : List (Disk × Call) → List ℕ → ℕ → Bool
any_acknowledges [] s n = false
any_acknowledges ((disk, c) ∷ calls) s n = acknowledges c s n || any_acknowledges calls s n

commit_ack-in_buffer :
    (o : Outbox) (session : List ℕ) (e : ℕ) (s : List ℕ) (n : ℕ)
    → in_buffer (commit_ack o session e).buffer s n
      ≡ (in_buffer o.buffer s n && not (covers session e s n))
unfolding commit_ack
commit_ack-in_buffer o session e s n =
    rw (drop_acked-kept o.buffer session e o.keys) (in_buffer-kept o.buffer session e s n)

commit_ack-acked :
    (o : Outbox) (session : List ℕ) (e : ℕ) (s : List ℕ)
    → get (commit_ack o session e).acked s ≡ (if text_eq session s then some e else get o.acked s)
unfolding commit_ack
commit_ack-acked o session e s = get-set o.acked session e s

push-in_buffer :
    (o : Outbox) (event : StreamEvent) (s : List ℕ) (n : ℕ)
    → in_buffer (push o event).buffer s n
      ≡ (in_buffer o.buffer s n || (text_eq event.session_id s && event.seq == n))
unfolding push in_buffer
push-in_buffer o event s n = ground (
  arith,
  in_buffer-append o.buffer
      (record { session_id = event.session_id; seq = event.seq; event = event } ∷ []) s n,
)

step_keeps :
    (digest : List ℕ → ℕ) (o : Outbox) (disk : Disk) (c : Call) (s : List ℕ) (n : ℕ)
    → in_buffer o.buffer s n ≡ true
    → acknowledges c s n ≡ false
    → in_buffer (step digest o (disk, c)).buffer s n ≡ true
unfolding step
step_keeps digest o disk (enqueues event) s n h a = elim (enqueue_effect digest disk o event) [
  | inl same ↦ rw same.buffer h
  | inr (new, same) ↦ rw same.buffer (ground (arith, push-in_buffer o event s n))
]
step_keeps digest o disk (acks session last_seq) s n h a =
    elim (ack_effect disk o session last_seq) [
      | inl same ↦ rw same.buffer h
      | inr (m, e, e_m, known, same) ↦
          rw same.buffer (ground (arith, known.within, commit_ack-in_buffer o session e s n))
    ]

-- An event in the buffer is still there after any calls none of which acknowledges it, whatever the
-- disk does in each of them.
pub run_keeps :
    (digest : List ℕ → ℕ) (calls : List (Disk × Call)) (o : Outbox) (s : List ℕ) (n : ℕ)
    → in_buffer o.buffer s n ≡ true
    → any_acknowledges calls s n ≡ false
    → in_buffer (run digest o calls).buffer s n ≡ true
unfolding run
run_keeps digest [] o s n h a = h
run_keeps digest ((disk, c) ∷ calls) o s n h a =
    run_keeps digest calls (step digest o (disk, c)) s n
      (step_keeps digest o disk c s n h (ground arith)) (ground arith)

step-is_acked :
    (digest : List ℕ → ℕ) (o : Outbox) (disk : Disk) (c : Call) (s : List ℕ) (n : ℕ)
    → is_acked (get o.acked s) n ≡ true
    → is_acked (get (step digest o (disk, c)).acked s) n ≡ true
unfolding step
step-is_acked digest o disk (enqueues event) s n h = elim (enqueue_effect digest disk o event) [
  | inl same ↦ rw same.acked h
  | inr (new, same) ↦ rw same.acked (unfold push in h)
]
step-is_acked digest o disk (acks session last_seq) s n h =
    elim (ack_effect disk o session last_seq) [
      | inl same ↦ rw same.acked h
      | inr (m, e, e_m, known, same) ↦
          rw same.acked
            (ground (arith, known.ahead, text_eq_iff session s, commit_ack-acked o session e s))
    ]

-- Through any calls of `enqueue` and `ack`, whatever the disk does in each, a valid memory stays valid:
-- the key set is that of the buffer, no buffered event is acknowledged or buffered twice, and each
-- item is filed under the session and the number of its event.
pub run-IsValid :
    (digest : List ℕ → ℕ) (calls : List (Disk × Call)) (o : Outbox)
    → IsValid o
    → IsValid (run digest o calls)
unfolding run step
run-IsValid digest [] o v = v
run-IsValid digest ((disk, enqueues event) ∷ calls) o v =
    run-IsValid digest calls _ ((step-IsValid digest disk o v).0 event)
run-IsValid digest ((disk, acks session last_seq) ∷ calls) o v =
    run-IsValid digest calls _ ((step-IsValid digest disk o v).1 session last_seq)

-- An acknowledged event stays acknowledged through any calls, and so is never in the buffer again.
pub run-is_acked :
    (digest : List ℕ → ℕ) (calls : List (Disk × Call)) (o : Outbox) (s : List ℕ) (n : ℕ)
    → IsValid o
    → is_acked (get o.acked s) n ≡ true
    → (is_acked (get (run digest o calls).acked s) n ≡ true)
      × (in_buffer (run digest o calls).buffer s n ≡ false)
unfolding run
run-is_acked digest [] o s n v h = (h, ground (arith, v.fresh s n))
run-is_acked digest ((disk, c) ∷ calls) o s n v h =
    run-is_acked digest calls (step digest o (disk, c)) s n
      (run-IsValid digest ((disk, c) ∷ []) o v) (step-is_acked digest o disk c s n h)

-- An acknowledgement marks nothing beyond the events that the outbox holds: an event of any session
-- that counts as acknowledged afterwards did so before, or the outbox holds an event of the session
-- with at least its number, and the call named the session and at least its number.
pub ack_known_only :
    (disk : Disk) (o : Outbox) (session : List ℕ) (last_seq : ℤ) (s : List ℕ) (n : ℕ)
    → is_acked (get (ack disk o session last_seq).0.acked s) n ≡ true
    → (is_acked (get o.acked s) n ≡ true)
      ⊎ ((top : ℕ) × (in_buffer o.buffer s top ≡ true)
          × (n ≤ top)
          × (acknowledges (acks session last_seq) s n ≡ true))
ack_known_only disk o session last_seq s n h = elim (ack_effect disk o session last_seq) [
  | inl same ↦ inl (rw same.acked at h)
  | inr (m, e, e_m, known, same) ↦
      let h' : is_acked (get (commit_ack o session e).acked s) n ≡ true = rw same.acked at h in
      elim (Bool-cases (text_eq session s)) [
        | inl hit ↦
            let there : session ≡ s = (text_eq_iff session s).0 hit in
            let le : n ≤ e = ground (arith, commit_ack-acked o session e s) in
            inr (
              known.top,
              rw (← there) known.kept,
              omega (arith, known.below),
              rw (e_m, hit) (ground (arith, known.within)),
            )
        | inr miss ↦ inl (ground (arith, commit_ack-acked o session e s))
      ]
]

is_acked_mono : (a : Option ℕ) (n m : ℕ) → n ≤ m → is_acked a n ≡ false → is_acked a m ≡ false
is_acked_mono none n m le h = refl
is_acked_mono (some a) n m le h = ground arith

length-in_buffer :
    (items : List Buffered) (s : List ℕ) (n : ℕ)
    → in_buffer items s n ≡ true
    → (length items == 0) ≡ false
unfolding in_buffer
length-in_buffer [] s n h = cc
length-in_buffer (b ∷ items) s n h = ground arith

-- What `ack_seq` comes to where it covers a buffered event.
ack_seq_ahead :
    (disk : Disk) (o : Outbox) (session : List ℕ) (last_seq n : ℕ)
    → IsValid o
    → in_buffer o.buffer session n ≡ true
    → n ≤ last_seq
    → (e : ℕ) × (n ≤ e) × (ack_seq disk o session last_seq ≡ ack_known disk o session e o.store)
unfolding ack_seq
ack_seq_ahead disk o session last_seq n v h le =
    let items = session_items o.buffer session in
    let there : in_buffer items session n ≡ true =
      rw (in_buffer-session_items o.buffer session n) h in
    let top = le-max_seq items session n there in
    let new = v.fresh session n h in
    let acked = get o.acked session in
    (
      min last_seq (max_seq items),
      omega arith,
      rw (
        is_acked_mono acked n last_seq le new,
        length-in_buffer items session n there,
        is_acked_mono acked n (min last_seq (max_seq items)) (omega arith) new,
      ),
    )

-- A call that acknowledges a buffered event, with a number that is a safe integer, takes it out of
-- the buffer and leaves its session's watermark at or above it, if the disk works.
pub ack_removes :
    (o : Outbox) (session : List ℕ) (last_seq n : ℕ)
    → IsValid o
    → in_buffer o.buffer session n ≡ true
    → n ≤ last_seq
    → last_seq ≤ max_safe_integer
    → (in_buffer (ack works o session (pos last_seq)).0.buffer session n ≡ false)
      × (is_acked (get (ack works o session (pos last_seq)).0.acked session) n ≡ true)
      × ((ack works o session (pos last_seq)).1 ≡ ok tt)
unfolding ack
ack_removes o session last_seq n v h le safe =
    let (e, le_e, step) = ack_seq_ahead works o session last_seq n v h le in
    let (same, done) = ack_known_works o session e o.store in
    rw (le→leb last_seq max_safe_integer safe, step)
      (
        rw same.buffer
            (ground (arith, text_eq_refl session, commit_ack-in_buffer o session e session n)),
        rw same.acked (ground (arith, text_eq_refl session, commit_ack-acked o session e session)),
        done,
      )
