-- ===== src/Outbox/Restart.antt =====
-- The constructor of packages/core/src/outbox.ts over the database of an earlier process.
use mathlib.Core.List.{append-nil, append_assoc}
use agent_phonon.Base.{
  ℕ, ◌≡◌, refl, ◌∙◌, sym, subst, true, false, List, [], ◌∷◌, ◌++◌, map, Option, none, some, arith,
  ok, All, Bool-cases, inl, inr,
}
use agent_phonon.Js.Text.{text_eq}
use agent_phonon.Js.Text.Order.{text_eq_iff, text_eq_refl}
use agent_phonon.Store.Write.{Disk}
use agent_phonon.Store.Outbox.{
  EventRow, AckRow, Db, ack_of, finalized, outbox_load, outbox_load_finalized,
}
use agent_phonon.Store.Outbox.Watermarks.{OneRow}
use agent_phonon.Outbox.State.{Buffered, Outbox, get, set, is_acked}
use agent_phonon.Outbox.{load_acked, load_row, load_rows, keep_row, blank, construct, pending}
use agent_phonon.Outbox.Maps.{get-set}
use agent_phonon.Outbox.Buffer.{in_buffer}
use agent_phonon.Outbox.Invariant.{IsValid}
use agent_phonon.Outbox.Rows.{to_buffered, rows_of}
use agent_phonon.Outbox.Durable.{HoldsStore, IsDurable}
use agent_phonon.Outbox.Inserts.{Holds}

-- What holds of every pair in the buffer holds of every item.
All-of_buffer :
    (P : List ℕ → ℕ → Type 0) (buffer : List Buffered)
    → ((s : List ℕ) (n : ℕ) → in_buffer buffer s n ≡ true → P s n)
    → All (λ b. P b.session_id b.seq) buffer
unfolding in_buffer
All-of_buffer P [] h = tt
All-of_buffer P (b ∷ buffer) h = (
  h b.session_id b.seq (ground (arith, text_eq_refl b.session_id)),
  All-of_buffer P buffer (λ s n k. h s n (ground arith)),
)

abbrev key_of : EventRow → List ℕ × ℕ
key_of r = (r.session, r.seq)

-- Rows that are not acknowledged are all kept.
load_rows_fresh :
    (disk : Disk) (t : List ℕ) (rows : List EventRow) (db : Db) (o : Outbox)
    → All (λ b. is_acked (get o.acked b.session_id) b.seq ≡ false) (map to_buffered rows)
    → load_rows disk t rows db o
      ≡ ok (
        db,
        record o { buffer = o.buffer ++ map to_buffered rows; keys = o.keys ++ map key_of rows },
      )
unfolding load_rows load_row keep_row
load_rows_fresh disk t [] db o h = rw (append-nil, append-nil)
load_rows_fresh disk t (r ∷ rows) db o h =
    rw h.0 (load_rows_fresh disk t rows db (keep_row o r) h.1 ∙ simp append_assoc)

-- Of the watermarks of a tenant, one for each session, the map has those.
get-load_acked :
    (t : List ℕ) (rows : List AckRow) (m : List (List ℕ × ℕ)) (s : List ℕ)
    → OneRow t rows
    → get (load_acked (finalized rows t) m) s
      ≡ elim (ack_of rows t s) [ none ↦ get m s | some a ↦ some a ]
unfolding load_acked finalized ack_of
get-load_acked t [] m s one = refl
get-load_acked t (r ∷ rows) m s one = elim (Bool-cases (text_eq r.tenant t)) [
  | inl own ↦ ground (
    arith,
    get-load_acked t rows (set m r.session r.last_seq) s one.1,
    get-set m r.session r.last_seq s,
    one.0 own,
    text_eq_iff r.session s,
  )
  | inr other ↦ rw other (get-load_acked t rows m s one.1)
]

-- The state that a new process builds.
abbrev reloaded : List ℕ → Db → List EventRow → Outbox
reloaded t db rows = record {
  buffer = map to_buffered rows;
  keys = map key_of rows;
  acked = load_acked (finalized db.acks t) [];
  store = some db;
  tenant_id = some t;
}

-- `b` begins with a code unit: the tenant id is not the empty text.
construct_loads :
    (disk : Disk) (c : ℕ) (t : List ℕ) (db : Db)
    → All
        (λ b. is_acked (get (load_acked (finalized db.acks (c ∷ t)) []) b.session_id) b.seq ≡ false)
        (map to_buffered (rows_of (c ∷ t) db.events))
    → construct disk (some db) (some (c ∷ t)) ≡ ok (reloaded (c ∷ t) db (rows_of (c ∷ t) db.events))
unfolding construct outbox_load outbox_load_finalized rows_of
construct_loads disk c t db h = rw (
    load_rows_fresh disk (c ∷ t) (rows_of (c ∷ t) db.events) db
      (record (blank (some db) (some (c ∷ t))) {
        acked = load_acked (finalized db.acks (c ∷ t)) [];
      })
      h)

watermarks-reloaded :
    (t : List ℕ) (db : Db) (buffer : List Buffered) (acked : List (List ℕ × ℕ)) (s : List ℕ)
    → Holds t db buffer acked
    → get (load_acked (finalized db.acks t) []) s ≡ get acked s
unfolding get
watermarks-reloaded t db buffer acked s h =
    ground (arith, get-load_acked t db.acks [] s h.one_row, h.watermarks s)

-- The constructor succeeds with the same buffer, watermarks, store and events to send again.
abbrev pub Restores : Disk → Option Db → Option (List ℕ) → Outbox → Type 0
Restores disk stored tenant_id o =
    (p : Outbox) × (construct disk stored tenant_id ≡ ok p)
    × (p.buffer ≡ o.buffer)
    × ((s : List ℕ) → get p.acked s ≡ get o.acked s)
    × (p.store ≡ stored)
    × ((requested : List (List ℕ × ℕ)) → pending p requested ≡ pending o requested)

stored-Restores :
    (disk : Disk) (c : ℕ) (t : List ℕ) (o : Outbox) (stored : Option Db)
    → IsValid o
    → HoldsStore (c ∷ t) stored o
    → Restores disk stored (some (c ∷ t)) o
unfolding pending
stored-Restores disk c t o none v h = absurd h
stored-Restores disk c t o (some db) v h = (
  reloaded (c ∷ t) db (rows_of (c ∷ t) db.events),
  construct_loads disk c t db (rw h.rows (All-of_buffer _ o.buffer new)),
  h.rows,
  same,
  refl,
  λ requested. rw h.rows,
)
  where
    same : (s : List ℕ) → get (load_acked (finalized db.acks (c ∷ t)) []) s ≡ get o.acked s
    same s = watermarks-reloaded (c ∷ t) db o.buffer o.acked s h

    new :
        (s : List ℕ) (n : ℕ)
        → in_buffer o.buffer s n ≡ true
        → is_acked (get (load_acked (finalized db.acks (c ∷ t)) []) s) n ≡ false
    new s n there = rw (same s) (v.fresh s n there)

-- A new process over the database of a valid and durable outbox has the same buffer, in the same
-- order, the same watermarks, and so the same events to send again for every request; it is not
-- refused, and it deletes no row, whatever the disk does. The tenant id is not the empty text.
pub construct-Restores :
    (disk : Disk) (c : ℕ) (t : List ℕ) (o : Outbox)
    → IsValid o
    → IsDurable (c ∷ t) o
    → Restores disk o.store o.tenant_id o
construct-Restores disk c t o v d =
    subst (λ u. Restores disk o.store u o) (sym d.tenant)
      (stored-Restores disk c t o o.store v d.store)
