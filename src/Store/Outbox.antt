-- ===== src/Store/Outbox.antt =====
-- The outbox tables of packages/core/src/store.ts: events, watermarks, proactive identities and the
-- sequence of a session. A payload is the event itself: it is read back by the inverse of
-- `JSON.stringify`.
pub mod Watermarks
use agent_phonon.Base.{
  ℕ, suc, ◌+◌, max, min, ◌≡◌, Bool, true, false, not, ◌&&◌, ◌||◌, List, [], ◌∷◌, ◌++◌, Option, none,
  some, leb, ltb, ◌==◌, if◌then◌else◌, any, length, Result, ok, err, ◌>>=◌, map,
}
use agent_phonon.Js.Text.{text_eq}
use agent_phonon.Store.Write.{Disk, StoreError, identity_changed, delivery_write}

-- `proactive` is `nativeProactive.upstreamId`; `content` stands for all that the digest reads.
pub record StreamEvent : Type 0 where
  pub session_id : List ℕ
  pub seq : ℕ
  pub proactive : Option (List ℕ)
  pub content : List ℕ

pub record EventRow : Type 0 where
  pub tenant : List ℕ
  pub session : List ℕ
  pub seq : ℕ
  pub payload : StreamEvent

pub record AckRow : Type 0 where
  pub tenant : List ℕ
  pub session : List ℕ
  pub last_seq : ℕ

pub record SeenRow : Type 0 where
  pub tenant : List ℕ
  pub session : List ℕ
  pub upstream_id : List ℕ
  pub payload_hash : ℕ

pub record SessionRow : Type 0 where
  pub tenant : List ℕ
  pub session : List ℕ
  pub stream_seq : ℕ

-- `events` is in the order of its autoincrement key.
pub record Db : Type 0 where
  pub events : List EventRow
  pub acks : List AckRow
  pub seen : List SeenRow
  pub sessions : List SessionRow

pub record Proactive : Type 0 where
  pub id : List ℕ
  pub hash : ℕ

unfoldable pub is_event : List ℕ → List ℕ → EventRow → Bool
is_event tenant session r = text_eq r.tenant tenant && text_eq r.session session

unfoldable pub event_exists : List EventRow → List ℕ → List ℕ → ℕ → Bool
unfolding is_event
event_exists rows tenant session seq = any (λ r. is_event tenant session r && r.seq == seq) rows

unfoldable pub proactive_event_hash : List SeenRow → List ℕ → List ℕ → List ℕ → Option ℕ
proactive_event_hash [] tenant session id = none
proactive_event_hash (r ∷ rows) tenant session id =
    if text_eq r.tenant tenant && text_eq r.session session && text_eq r.upstream_id id
    then some r.payload_hash
    else proactive_event_hash rows tenant session id

-- `UPDATE sessions SET stream_seq=MAX(stream_seq, ?)`.
unfoldable pub advance : List SessionRow → List ℕ → List ℕ → ℕ → List SessionRow
advance [] tenant session next = []
advance (r ∷ rows) tenant session next =
    (if text_eq r.tenant tenant && text_eq r.session session
      then record r { stream_seq = max r.stream_seq next }
      else r)
    ∷ advance rows tenant session next

-- `INSERT OR IGNORE` under the unique index, and the sequence of the session.
unfoldable pub insert_event : Db → List ℕ → List ℕ → ℕ → StreamEvent → Db × Bool
unfolding event_exists advance
insert_event db tenant session seq payload =
    let row : EventRow = record {
      tenant = tenant;
      session = session;
      seq = seq;
      payload = payload;
    } in
    let fresh = not (event_exists db.events tenant session seq) in
    (
      record db {
        events = if fresh then db.events ++ row ∷ [] else db.events;
        sessions = advance db.sessions tenant session (seq + 1);
      },
      fresh,
    )

-- `INSERT INTO native_proactive_seen`.
abbrev pub mark_seen : Db → List ℕ → List ℕ → Proactive → Db
mark_seen db tenant session p = record db {
  seen =
      db.seen
      ++ record { tenant = tenant; session = session; upstream_id = p.id; payload_hash = p.hash }
        ∷ [];
}

-- The hash that the table has for the identity decides.
unfoldable pub add_proactive :
    List ℕ → List ℕ → ℕ → StreamEvent → Proactive → Db → Option ℕ → Result StoreError (Db × Bool)
unfolding insert_event
add_proactive tenant session seq payload p db (some existing) =
    if not (existing == p.hash) then err identity_changed else ok (db, false)
add_proactive tenant session seq payload p db none =
    ok (insert_event (mark_seen db tenant session p) tenant session seq payload)

-- The transaction of `outboxAdd`.
unfoldable pub add_event :
    List ℕ → List ℕ → ℕ → StreamEvent → Option Proactive → Db → Result StoreError (Db × Bool)
unfolding proactive_event_hash insert_event add_proactive
add_event tenant session seq payload none db = ok (insert_event db tenant session seq payload)
add_event tenant session seq payload (some p) db =
    add_proactive tenant session seq payload p db (proactive_event_hash db.seen tenant session p.id)

unfoldable pub outbox_add :
    Disk → Db → List ℕ → List ℕ → ℕ → StreamEvent → Option Proactive → Db × Result StoreError Bool
unfolding delivery_write add_event
outbox_add disk db tenant session seq payload proactive =
    delivery_write disk (add_event tenant session seq payload proactive) db

-- `DELETE FROM outbox_events WHERE ...`, with the test of the rows that go.
unfoldable pub delete_events : (EventRow → Bool) → List EventRow → List EventRow
delete_events gone [] = []
delete_events gone (r ∷ rows) =
    let rest = delete_events gone rows in if gone r then rest else r ∷ rest

unfoldable pub outbox_delete : Disk → Db → List ℕ → List ℕ → ℕ → Db × Result StoreError (Unit {0})
unfolding delivery_write delete_events is_event
outbox_delete disk db tenant session seq =
    delivery_write disk
      (λ d. ok (
        record d {
          events = delete_events (λ r. is_event tenant session r && r.seq == seq) d.events;
        },
        tt,
      ))
      db

-- `INSERT ... ON CONFLICT DO UPDATE SET last_seq=MAX(last_seq, excluded.last_seq)`.
unfoldable pub upsert_ack : List AckRow → List ℕ → List ℕ → ℕ → List AckRow
upsert_ack [] tenant session seq =
    record { tenant = tenant; session = session; last_seq = seq } ∷ []
upsert_ack (r ∷ rows) tenant session seq =
    let rest = upsert_ack rows tenant session seq in
    if text_eq r.tenant tenant && text_eq r.session session
    then record r { last_seq = max r.last_seq seq } ∷ rows
    else r ∷ rest

unfoldable pub outbox_mark_finalized :
    Disk → Db → List ℕ → List ℕ → ℕ → Db × Result StoreError (Unit {0})
unfolding delivery_write upsert_ack
outbox_mark_finalized disk db tenant session seq =
    delivery_write disk (λ d. ok (record d { acks = upsert_ack d.acks tenant session seq }, tt)) db

unfoldable pub outbox_ack : Disk → Db → List ℕ → List ℕ → ℕ → Db × Result StoreError (Unit {0})
unfolding delivery_write upsert_ack delete_events is_event
outbox_ack disk db tenant session seq =
    delivery_write disk
      (λ d. ok (
        record d {
          acks = upsert_ack d.acks tenant session seq;
          events = delete_events (λ r. is_event tenant session r && leb r.seq seq) d.events;
        },
        tt,
      ))
      db

-- The rows of a tenant.
unfoldable pub outbox_load : Db → List ℕ → List EventRow
unfolding delete_events
outbox_load db tenant = delete_events (λ r. not (text_eq r.tenant tenant)) db.events

unfoldable pub finalized : List AckRow → List ℕ → List (List ℕ × ℕ)
finalized [] tenant = []
finalized (r ∷ rows) tenant =
    let rest = finalized rows tenant in
    if text_eq r.tenant tenant then (r.session, r.last_seq) ∷ rest else rest

-- The watermarks of a tenant; the table has one row for each session, so the order that the query
-- asks for is not modelled.
unfoldable pub outbox_load_finalized : Db → List ℕ → List (List ℕ × ℕ)
unfolding finalized
outbox_load_finalized db tenant = finalized db.acks tenant

unfoldable pub max_event : List EventRow → List ℕ → List ℕ → Option ℕ
unfolding is_event
max_event [] tenant session = none
max_event (r ∷ rows) tenant session =
    let rest = max_event rows tenant session in
    if is_event tenant session r
    then elim rest [ none ↦ some r.seq | some m ↦ some (max r.seq m) ]
    else rest

unfoldable pub ack_of : List AckRow → List ℕ → List ℕ → Option ℕ
ack_of [] tenant session = none
ack_of (r ∷ rows) tenant session =
    if text_eq r.tenant tenant && text_eq r.session session
    then some r.last_seq
    else ack_of rows tenant session

-- One past the largest sequence number that the two tables know, or 0.
unfoldable pub outbox_next_seq : Db → List ℕ → List ℕ → ℕ
unfolding max_event ack_of
outbox_next_seq db tenant session = elim (max_event db.events tenant session) [
  | none ↦ elim (ack_of db.acks tenant session) [ none ↦ 0 | some a ↦ a + 1 ]
  | some m ↦ elim (ack_of db.acks tenant session) [ none ↦ m + 1 | some a ↦ max m a + 1 ]
]
