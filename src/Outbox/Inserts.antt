-- ===== src/Outbox/Inserts.antt =====
-- What the transaction of `outboxAdd` of packages/core/src/store.ts comes to for an event that is new.
use mathlib.Core.Path.{ap₂}
use mathlib.Core.List.{map-append}
use agent_phonon.Base.{
  ℕ, ◌≡◌, refl, inl, inr, ap, ◌∙◌, Bool, true, false, List, [], ◌∷◌, ◌++◌, map, Option, none, some,
  ◌==◌, ok, err, Result, Bool-cases,
}
use agent_phonon.Store.Write.{StoreError}
use agent_phonon.Store.Outbox.{
  StreamEvent, EventRow, Db, Proactive, insert_event, add_event, ack_of, event_exists, mark_seen,
  add_proactive,
}
use agent_phonon.Store.Outbox.Watermarks.{OneRow}
use agent_phonon.Outbox.State.{Buffered, get}
use agent_phonon.Outbox.Buffer.{in_buffer, kept}
use agent_phonon.Outbox.Rows.{
  to_buffered, rows_of, rows_of-append, rows_of_own, event_exists-rows_of,
}

-- The database holds the buffer, row for row and in its order, and the watermarks of the tenant.
pub record Holds (t : List ℕ) (db : Db) (buffer : List Buffered) (acked : List (List ℕ × ℕ))
    : Type 0 where
  pub rows : map to_buffered (rows_of t db.events) ≡ buffer
  pub watermarks : (s : List ℕ) → ack_of db.acks t s ≡ get acked s
  pub one_row : OneRow t db.acks

-- A row that the table does not hold is appended, and the answer is true.
insert_event_new :
    (t : List ℕ) (db : Db) (buffer : List Buffered) (acked : List (List ℕ × ℕ))
    (event : StreamEvent)
    → Holds t db buffer acked
    → in_buffer buffer event.session_id event.seq ≡ false
    → let (db', fresh) = insert_event db t event.session_id event.seq event in
      (fresh ≡ true)
      × Holds t db'
          (buffer ++ record { session_id = event.session_id; seq = event.seq; event = event } ∷ [])
          acked
unfolding insert_event
insert_event_new t db buffer acked event h new = rw absent (
  refl,
  record {
    rows =
        ap (map to_buffered) (rows_of-append t db.events (row ∷ []))
        ∙ (map-append to_buffered (rows_of t db.events) (rows_of t (row ∷ []))
            ∙ ap₂ (λ xs ys. xs ++ map to_buffered ys) h.rows (rows_of_own t row refl));
    watermarks = h.watermarks;
    one_row = h.one_row;
  },
)
  where
    absent : event_exists db.events t event.session_id event.seq ≡ false
    absent =
        event_exists-rows_of t db.events event.session_id event.seq
        ∙ ap (λ b. in_buffer b event.session_id event.seq) h.rows
        ∙ new

    row : EventRow
    row = record { tenant = t; session = event.session_id; seq = event.seq; payload = event }

unfoldable pub item : StreamEvent → Buffered
item event = record { session_id = event.session_id; seq = event.seq; event = event }

-- What the transaction of `outboxAdd` does with an event that is new: it appends the row and says so,
-- or it changes no row and says so, or it throws.
unfoldable pub AddEffect :
    List ℕ
    → Db
    → List Buffered
    → List (List ℕ × ℕ)
    → StreamEvent
    → Result StoreError (Db × Bool)
    → Type 0
AddEffect t db buffer acked event (err e) = Unit {0}
AddEffect t db buffer acked event (ok (db', false)) = Holds t db' buffer acked
AddEffect t db buffer acked event (ok (db', true)) = Holds t db' (buffer ++ item event ∷ []) acked

inserted_effect :
    (t : List ℕ) (db : Db) (buffer : List Buffered) (acked : List (List ℕ × ℕ))
    (event : StreamEvent) (answer : Db × Bool)
    → answer.1 ≡ true
    → Holds t answer.0 (buffer ++ item event ∷ []) acked
    → AddEffect t db buffer acked event (ok answer)
unfolding AddEffect
inserted_effect t db buffer acked event (db', true) e h = h
inserted_effect t db buffer acked event (db', false) e h = cc

add_proactive_effect :
    (t : List ℕ) (db : Db) (buffer : List Buffered) (acked : List (List ℕ × ℕ))
    (event : StreamEvent) (p : Proactive) (existing : Option ℕ)
    → Holds t db buffer acked
    → in_buffer buffer event.session_id event.seq ≡ false
    → AddEffect t db buffer acked event
        (add_proactive t event.session_id event.seq event p db existing)
unfolding AddEffect add_proactive item
add_proactive_effect t db buffer acked event p none h new =
    let marked = mark_seen db t event.session_id p in
    let held : Holds t marked buffer acked = record {
      rows = h.rows;
      watermarks = h.watermarks;
      one_row = h.one_row;
    } in
    let (fresh, kept) = insert_event_new t marked buffer acked event held new in
    inserted_effect t db buffer acked event (insert_event marked t event.session_id event.seq event)
      fresh kept
add_proactive_effect t db buffer acked event p (some existing) h new =
    elim (Bool-cases (existing == p.hash)) [ inl same ↦ rw same h | inr other ↦ rw other tt ]

pub add_event_effect :
    (t : List ℕ) (db : Db) (buffer : List Buffered) (acked : List (List ℕ × ℕ))
    (event : StreamEvent) (proactive : Option Proactive)
    → Holds t db buffer acked
    → in_buffer buffer event.session_id event.seq ≡ false
    → AddEffect t db buffer acked event (add_event t event.session_id event.seq event proactive db)
unfolding add_event item
add_event_effect t db buffer acked event none h new =
    let (fresh, held) = insert_event_new t db buffer acked event h new in
    inserted_effect t db buffer acked event (insert_event db t event.session_id event.seq event)
      fresh held
add_event_effect t db buffer acked event (some p) h new =
    add_proactive_effect t db buffer acked event p _ h new
