-- ===== src/Outbox/Invariant.antt =====
-- The invariant of the memory of packages/core/src/outbox.ts.
use agent_phonon.Base.{
  ℕ, ◌≡◌, refl, inl, inr, true, false, List, [], ◌∷◌, ◌++◌, arith, All, Bool-cases,
}
use agent_phonon.Js.Text.{ℤ}
use agent_phonon.Js.Text.Order.{text_eq_iff}
use agent_phonon.Store.Write.{Disk}
use agent_phonon.Store.Outbox.{StreamEvent}
use agent_phonon.Outbox.State.{Buffered, Outbox, get, is_acked, has_key}
use agent_phonon.Outbox.{push, enqueue, commit_ack, ack}
use agent_phonon.Outbox.Maps.{get-set}
use agent_phonon.Outbox.Buffer.{
  in_buffer, in_buffer-append, has_key-append, covers, kept, drop_acked-kept, in_buffer-kept,
  has_key-drop_acked,
}
use agent_phonon.Outbox.Effects.{SameMemory, IsNew, enqueue_effect, ack_effect}

-- No two items of the buffer have the same session and number.
abbrev pub Distinct : List Buffered → Type 0
Distinct [] = Unit {0}
Distinct (b ∷ buffer) = (in_buffer buffer b.session_id b.seq ≡ false) × Distinct buffer

-- An item is filed under the session and the number of its event.
abbrev pub IsLabelled : Buffered → Type 0
IsLabelled b = (b.session_id ≡ b.event.session_id) × (b.seq ≡ b.event.seq)

-- The key set is that of the buffer, nothing in the buffer is acknowledged or there twice.
pub record IsValid (o : Outbox) : Type 0 where
  pub keys_match : (s : List ℕ) (n : ℕ) → has_key o.keys s n ≡ in_buffer o.buffer s n
  pub fresh :
      (s : List ℕ) (n : ℕ) → in_buffer o.buffer s n ≡ true → is_acked (get o.acked s) n ≡ false
  pub distinct : Distinct o.buffer
  pub labelled : All IsLabelled o.buffer

SameMemory-IsValid : {o p : Outbox} → SameMemory o p → IsValid p → IsValid o
SameMemory-IsValid {o} {p} same v = record {
  keys_match = λ s n. rw (same.keys, same.buffer) (v.keys_match s n);
  fresh = λ s n. rw (same.acked, same.buffer) (v.fresh s n);
  distinct = rw same.buffer v.distinct;
  labelled = rw same.buffer v.labelled;
}

Distinct-append :
    (buffer : List Buffered) (b : Buffered)
    → Distinct buffer
    → in_buffer buffer b.session_id b.seq ≡ false
    → Distinct (buffer ++ b ∷ [])
unfolding in_buffer
Distinct-append [] b d h = (refl, tt)
Distinct-append (x ∷ buffer) b d h = (
  ground (
    arith,
    in_buffer-append buffer (b ∷ []) x.session_id x.seq,
    text_eq_iff x.session_id b.session_id,
    text_eq_iff b.session_id x.session_id,
  ),
  Distinct-append buffer b d.1 (ground arith),
)

All-append {ℓ κ} :
    {A : Type ℓ} (P : A → Type κ) (xs : List A) (x : A) → All P xs → P x → All P (xs ++ x ∷ [])
All-append P [] x h p = (p, tt)
All-append P (y ∷ xs) x h p = (h.0, All-append P xs x h.1 p)

push-IsValid :
    (o : Outbox) (event : StreamEvent) → IsNew o event → IsValid o → IsValid (push o event)
unfolding push in_buffer has_key
push-IsValid o event new v = record {
  keys_match = λ s n. ground (
    arith,
    v.keys_match s n,
    has_key-append o.keys ((event.session_id, event.seq) ∷ []) s n,
    in_buffer-append o.buffer (item ∷ []) s n,
  );
  fresh = λ s n h. ground (
    arith,
    v.fresh s n,
    new.not_acked,
    text_eq_iff event.session_id s,
    in_buffer-append o.buffer (item ∷ []) s n,
  );
  distinct =
      Distinct-append o.buffer item v.distinct
        (ground (arith, v.keys_match event.session_id event.seq, new.not_kept));
  labelled = All-append IsLabelled o.buffer item v.labelled (refl, refl);
}
  where
    item : Buffered
    item = record { session_id = event.session_id; seq = event.seq; event = event }

Distinct-kept :
    (buffer : List Buffered) (s : List ℕ) (e : ℕ) → Distinct buffer → Distinct (kept buffer s e)
unfolding kept
Distinct-kept [] s e d = tt
Distinct-kept (b ∷ buffer) s e d =
    ground (arith, Distinct-kept buffer s e d.1, in_buffer-kept buffer s e b.session_id b.seq)

All-kept :
    (P : Buffered → Type 0) (buffer : List Buffered) (s : List ℕ) (e : ℕ)
    → All P buffer
    → All P (kept buffer s e)
unfolding kept
All-kept P [] s e h = tt
All-kept P (b ∷ buffer) s e h = elim (Bool-cases (covers s e b.session_id b.seq)) [
  | inl gone ↦ rw gone (All-kept P buffer s e h.1)
  | inr stays ↦ rw stays (h.0, All-kept P buffer s e h.1)
]

commit_ack-IsValid : (o : Outbox) (s : List ℕ) (e : ℕ) → IsValid o → IsValid (commit_ack o s e)
unfolding commit_ack
commit_ack-IsValid o s e v = record {
  keys_match = λ t n. ground (
    arith,
    v.keys_match t n,
    has_key-drop_acked o.buffer s e o.keys t n,
    drop_acked-kept o.buffer s e o.keys,
    in_buffer-kept o.buffer s e t n,
  );
  fresh = λ t n h. ground (
    arith,
    v.fresh t n,
    get-set o.acked s e t,
    drop_acked-kept o.buffer s e o.keys,
    in_buffer-kept o.buffer s e t n,
  );
  distinct = rw (drop_acked-kept o.buffer s e o.keys) (Distinct-kept o.buffer s e v.distinct);
  labelled = rw (drop_acked-kept o.buffer s e o.keys) (All-kept IsLabelled o.buffer s e v.labelled);
}

pub step-IsValid :
    (digest : List ℕ → ℕ) (disk : Disk) (o : Outbox)
    → IsValid o
    → ((event : StreamEvent) → IsValid (enqueue digest disk o event).0)
      × ((session : List ℕ) (last_seq : ℤ) → IsValid (ack disk o session last_seq).0)
step-IsValid digest disk o v = (
  λ event. elim (enqueue_effect digest disk o event) [
    | inl same ↦ SameMemory-IsValid same v
    | inr (new, same) ↦ SameMemory-IsValid same (push-IsValid o event new v)
  ],
  λ session last_seq. elim (ack_effect disk o session last_seq) [
    | inl same ↦ SameMemory-IsValid same v
    | inr (n, e, _, _, same) ↦ SameMemory-IsValid same (commit_ack-IsValid o session e v)
  ],
)
