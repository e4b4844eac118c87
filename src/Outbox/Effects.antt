-- ===== src/Outbox/Effects.antt =====
-- What the two operations of packages/core/src/outbox.ts do to the memory of the outbox.
use agent_phonon.Base.{
  ℕ, min, ◌≤◌, ◌≡◌, ◌≢◌, refl, ◌⊎◌, inl, inr, Bool, true, false, List, [], ◌∷◌, Option, none, some,
  arith, ◌==◌, leb, length, Bool-cases, List-cases, Result, ok, err,
}
use agent_phonon.Js.Text.{ℤ, pos, negsuc}
use agent_phonon.Store.Write.{Disk, StoreError, works}
use agent_phonon.Store.Outbox.{StreamEvent, Db, outbox_add, outbox_ack}
use agent_phonon.Outbox.State.{Outbox, get, is_acked, has_key, tenant_or_empty, Buffered}
use agent_phonon.Outbox.{
  push, after_add, enqueue, proactive_of, add_new, ack_known, session_items, max_seq, commit_ack,
  after_ack, ack_seq, ack, max_safe_integer,
}
use agent_phonon.Outbox.Buffer.{in_buffer, max_seq-in_buffer}

-- The same memory, whatever the store holds.
pub record SameMemory (o p : Outbox) : Type 0 where
  pub buffer : o.buffer ≡ p.buffer
  pub keys : o.keys ≡ p.keys
  pub acked : o.acked ≡ p.acked
  pub tenant_id : o.tenant_id ≡ p.tenant_id

-- The event is neither acknowledged nor in the outbox.
pub record IsNew (o : Outbox) (event : StreamEvent) : Type 0 where
  pub not_acked : is_acked (get o.acked event.session_id) event.seq ≡ false
  pub not_kept : has_key o.keys event.session_id event.seq ≡ false

after_add_effect :
    (o : Outbox) (event : StreamEvent) (answer : Db × Result StoreError Bool)
    → SameMemory (after_add o event answer).0 o
      ⊎ SameMemory (after_add o event answer).0 (push o event)
unfolding after_add
after_add_effect o event (db, err e) = inl (ground arith)
after_add_effect o event (db, ok false) = inl (ground arith)
after_add_effect o event (db, ok true) = inr (ground arith)

add_new_effect :
    (digest : List ℕ → ℕ) (disk : Disk) (o : Outbox) (event : StreamEvent) (stored : Option Db)
    → SameMemory (add_new digest disk o event stored).0 o
      ⊎ SameMemory (add_new digest disk o event stored).0 (push o event)
unfolding add_new
add_new_effect digest disk o event none = inr (ground arith)
add_new_effect digest disk o event (some db) = after_add_effect o event (
    outbox_add disk db (tenant_or_empty o.tenant_id) event.session_id event.seq event
      (proactive_of digest event))

-- `enqueue` leaves the memory as it is, or appends an event that is new.
pub enqueue_effect :
    (digest : List ℕ → ℕ) (disk : Disk) (o : Outbox) (event : StreamEvent)
    → SameMemory (enqueue digest disk o event).0 o
      ⊎ (IsNew o event × SameMemory (enqueue digest disk o event).0 (push o event))
unfolding enqueue
enqueue_effect digest disk o event = ground (arith, add_new_effect digest disk o event o.store)

-- The watermark `e` is at most the acknowledged number, and at most the number of some event of the
-- session that the outbox holds.
pub record IsKnown (o : Outbox) (session : List ℕ) (last_seq e : ℕ) : Type 0 where
  pub within : e ≤ last_seq
  pub top : ℕ
  pub kept : in_buffer o.buffer session top ≡ true
  pub below : e ≤ top
  pub ahead : is_acked (get o.acked session) e ≡ false

after_ack_effect :
    (o : Outbox) (session : List ℕ) (e : ℕ) (answer : Db × Result StoreError (Unit {0}))
    → SameMemory (after_ack o session e answer).0 o
      ⊎ SameMemory (after_ack o session e answer).0 (commit_ack o session e)
unfolding after_ack commit_ack
after_ack_effect o session e (db, err x) = inl (ground arith)
after_ack_effect o session e (db, ok _) = inr (ground arith)

ack_known_effect :
    (disk : Disk) (o : Outbox) (session : List ℕ) (e : ℕ) (stored : Option Db)
    → SameMemory (ack_known disk o session e stored).0 o
      ⊎ SameMemory (ack_known disk o session e stored).0 (commit_ack o session e)
unfolding ack_known commit_ack
ack_known_effect disk o session e none = inr (ground arith)
ack_known_effect disk o session e (some db) =
    after_ack_effect o session e (outbox_ack disk db (tenant_or_empty o.tenant_id) session e)

abbrev pub AckEffect : Outbox → List ℕ → ℕ → Outbox → Type 0
AckEffect o session last_seq p =
    SameMemory p o
    ⊎ ((e : ℕ) × IsKnown o session last_seq e × SameMemory p (commit_ack o session e))

ack_known-AckEffect :
    (disk : Disk) (o : Outbox) (session : List ℕ) (last_seq e : ℕ)
    → IsKnown o session last_seq e
    → (stored : Option Db) → AckEffect o session last_seq (ack_known disk o session e stored).0
ack_known-AckEffect disk o session last_seq e known stored =
    elim (ack_known_effect disk o session e stored) [
      | inl same ↦ inl same
      | inr same ↦ inr (e, known, same)
    ]

length_pos {ℓ} : {A : Type ℓ} (xs : List A) → xs ≢ [] → (length xs == 0) ≡ false
length_pos [] h = absurd (h refl)
length_pos (x ∷ xs) h = ground arith

ack_seq_effect :
    (disk : Disk) (o : Outbox) (session : List ℕ) (last_seq : ℕ)
    → AckEffect o session last_seq (ack_seq disk o session last_seq).0
unfolding ack_seq
ack_seq_effect disk o session last_seq =
    elim (Bool-cases (is_acked (get o.acked session) last_seq)) [
      | inl old ↦ rw old (inl same)
      | inr a ↦ elim (List-cases items) [
        | inl nothing ↦ rw (a, nothing) (inl same)
        | inr some_item ↦ elim (Bool-cases (is_acked (get o.acked session) effective)) [
          | inl old ↦ inl (ground arith)
          | inr ahead ↦
              rw (a, length_pos items some_item, ahead)
                (ack_known-AckEffect disk o session last_seq effective
                  (record {
                    within = omega arith;
                    top = max_seq items;
                    kept = max_seq-in_buffer o.buffer session some_item;
                    below = omega arith;
                    ahead = ahead;
                  })
                  o.store)
        ]
      ]
    ]
  where
    items : List Buffered
    items = session_items o.buffer session

    effective : ℕ
    effective = min last_seq (max_seq items)

    same : SameMemory o o
    same = record { buffer = refl; keys = refl; acked = refl; tenant_id = refl }

-- `ack` leaves the memory as it is, or raises the watermark of the session to one that is known.
pub ack_effect :
    (disk : Disk) (o : Outbox) (session : List ℕ) (last_seq : ℤ)
    → SameMemory (ack disk o session last_seq).0 o
      ⊎ ((n : ℕ) × (e : ℕ) × (last_seq ≡ pos n)
          × IsKnown o session n e
          × SameMemory (ack disk o session last_seq).0 (commit_ack o session e))
unfolding ack
ack_effect disk o session (negsuc n) = inl (ground arith)
ack_effect disk o session (pos n) = elim (Bool-cases (leb n max_safe_integer)) [
  | inl safe ↦ elim (ack_seq_effect disk o session n) [
    | inl same ↦ rw safe (inl same)
    | inr (e, known, same) ↦ rw safe (inr (n, e, refl, known, same))
  ]
  | inr unsafe ↦ rw unsafe (inl (ground arith))
]

-- Where the disk works the acknowledgement is carried out.
pub ack_known_works :
    (o : Outbox) (session : List ℕ) (e : ℕ) (stored : Option Db)
    → SameMemory (ack_known works o session e stored).0 (commit_ack o session e)
      × ((ack_known works o session e stored).1 ≡ ok tt)
unfolding ack_known commit_ack outbox_ack
ack_known_works o session e none =
    (record { buffer = refl; keys = refl; acked = refl; tenant_id = refl }, refl)
ack_known_works o session e (some db) =
    (record { buffer = refl; keys = refl; acked = refl; tenant_id = refl }, refl)
