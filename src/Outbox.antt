-- ===== src/Outbox.antt =====
-- The downlink outbox of packages/core/src/outbox.ts: events are kept until the server acknowledges
-- them, in memory and in the store, and sent again after a reconnection.
pub mod State
pub mod Maps
pub mod Buffer
pub mod Effects
pub mod Invariant
pub mod History
pub mod Rows
pub mod Inserts
pub mod Durable
pub mod Restart
pub mod Order
mod Tests
use agent_phonon.Base.{
  ℕ, suc, ◌+◌, max, min, ◌≡◌, Bool, true, false, not, ◌&&◌, ◌||◌, List, [], ◌∷◌, ◌++◌, Option, none,
  some, leb, ltb, ◌==◌, if◌then◌else◌, any, length, Result, ok, err, ◌>>=◌, map,
}
use agent_phonon.Js.Text.{text_eq, text_lt, ℤ, pos, negsuc}
use agent_phonon.Js.Sort.{sort}
use agent_phonon.Store.Write.{Disk, StoreError}
use agent_phonon.Store.Outbox.{
  StreamEvent, EventRow, Proactive, Db, outbox_add, outbox_delete, outbox_ack, outbox_load,
  outbox_load_finalized,
}
use agent_phonon.Outbox.State.{
  Buffered, Outbox, get, set, is_acked, has_key, delete_key, tenant_or_empty,
}

-- What a call returns or throws.
abbrev pub Outcome : Type 0
Outcome = Result StoreError (Unit {0})

-- The hash is `createHash("sha256")` of the event's text and source.
unfoldable pub proactive_of : (List ℕ → ℕ) → StreamEvent → Option Proactive
proactive_of digest event = elim event.proactive [
  | none ↦ none
  | some id ↦ some (record { id = id; hash = digest event.content })
]

unfoldable pub push : Outbox → StreamEvent → Outbox
push o event = record o {
  buffer =
      o.buffer ++ record { session_id = event.session_id; seq = event.seq; event = event } ∷ [];
  keys = o.keys ++ (event.session_id, event.seq) ∷ [];
}

-- What `enqueue` does with the answer of the store.
unfoldable pub after_add : Outbox → StreamEvent → Db × Result StoreError Bool → Outbox × Outcome
unfolding push
after_add o event (db, err e) = (record o { store = some db }, err e)
after_add o event (db, ok false) = (record o { store = some db }, ok tt)
after_add o event (db, ok true) = (push (record o { store = some db }) event, ok tt)

-- `if (this.store && !this.store.outboxAdd(...)) return`, and the push.
unfoldable pub add_new : (List ℕ → ℕ) → Disk → Outbox → StreamEvent → Option Db → Outbox × Outcome
unfolding after_add push proactive_of
add_new digest disk o event none = (push o event, ok tt)
add_new digest disk o event (some db) = after_add o event (
    outbox_add disk db (tenant_or_empty o.tenant_id) event.session_id event.seq event
      (proactive_of digest event))

unfoldable pub enqueue : (List ℕ → ℕ) → Disk → Outbox → StreamEvent → Outbox × Outcome
unfolding get has_key add_new
enqueue digest disk o event =
    if is_acked (get o.acked event.session_id) event.seq
    then (o, ok tt)
    else if has_key o.keys event.session_id event.seq
    then (o, ok tt)
    else add_new digest disk o event o.store

unfoldable pub session_items : List Buffered → List ℕ → List Buffered
session_items [] session = []
session_items (b ∷ buffer) session =
    let rest = session_items buffer session in
    if text_eq b.session_id session then b ∷ rest else rest

-- The largest sequence number; the reduction starts at -1, and the list is not empty.
unfoldable pub max_seq : List Buffered → ℕ
max_seq [] = 0
max_seq (b ∷ buffer) = max b.seq (max_seq buffer)

-- The loop over the buffer: what is kept, and the keys that are left.
unfoldable pub drop_acked :
    List Buffered → List ℕ → ℕ → List (List ℕ × ℕ) → List Buffered × List (List ℕ × ℕ)
unfolding delete_key
drop_acked [] session effective keys = ([], keys)
drop_acked (b ∷ buffer) session effective keys =
    let covered = text_eq b.session_id session && leb b.seq effective in
    let (kept, left) =
      drop_acked buffer session effective
        (if covered then delete_key keys b.session_id b.seq else keys) in
    (if covered then kept else b ∷ kept, left)

unfoldable pub commit_ack : Outbox → List ℕ → ℕ → Outbox
unfolding set drop_acked
commit_ack o session effective =
    let (kept, left) = drop_acked o.buffer session effective o.keys in
    record o { acked = set o.acked session effective; buffer = kept; keys = left }

unfoldable pub after_ack :
    Outbox → List ℕ → ℕ → Db × Result StoreError (Unit {0}) → Outbox × Outcome
unfolding commit_ack
after_ack o session effective (db, err e) = (record o { store = some db }, err e)
after_ack o session effective (db, ok _) =
    (commit_ack (record o { store = some db }) session effective, ok tt)

abbrev pub max_safe_integer : ℕ
max_safe_integer = 9007199254740991

-- `this.store?.outboxAck(...)`, and what follows.
unfoldable pub ack_known : Disk → Outbox → List ℕ → ℕ → Option Db → Outbox × Outcome
unfolding commit_ack after_ack
ack_known disk o session effective none = (commit_ack o session effective, ok tt)
ack_known disk o session effective (some db) =
    after_ack o session effective
      (outbox_ack disk db (tenant_or_empty o.tenant_id) session effective)

-- `ack` behind its first guard.
unfoldable pub ack_seq : Disk → Outbox → List ℕ → ℕ → Outbox × Outcome
unfolding get session_items max_seq ack_known
ack_seq disk o session last_seq =
    let items = session_items o.buffer session in
    let effective = min last_seq (max_seq items) in
    if is_acked (get o.acked session) last_seq
    then (o, ok tt)
    else if length items == 0
    then (o, ok tt)
    else if is_acked (get o.acked session) effective
    then (o, ok tt)
    else ack_known disk o session effective o.store

unfoldable pub ack : Disk → Outbox → List ℕ → ℤ → Outbox × Outcome
unfolding ack_seq
ack disk o session (negsuc n) = (o, ok tt)
ack disk o session (pos n) =
    if not (leb n max_safe_integer) then (o, ok tt) else ack_seq disk o session n

-- `resumeFrom`: the first sequence number of each session, in the order of the session ids.
unfoldable pub lower : List (List ℕ × ℕ) → List ℕ → ℕ → List (List ℕ × ℕ)
unfolding get set
lower first session seq = elim (get first session) [
  | none ↦ set first session seq
  | some prev ↦ if ltb seq prev then set first session seq else first
]

unfoldable pub first_seqs : List Buffered → List (List ℕ × ℕ) → List (List ℕ × ℕ)
unfolding lower
first_seqs [] first = first
first_seqs (b ∷ buffer) first = first_seqs buffer (lower first b.session_id b.seq)

-- `compareSessionId(a, b) <= 0`.
unfoldable pub session_le : List ℕ → List ℕ → Bool
session_le a b = not (text_lt b a)

unfoldable pub resume_from : Outbox → List (List ℕ × ℕ)
unfolding first_seqs sort session_le
resume_from o = sort (λ a b. session_le a.0 b.0) (first_seqs o.buffer [])

unfoldable pub buffered_le : Buffered → Buffered → Bool
buffered_le a b =
    if text_lt a.session_id b.session_id
    then true
    else if text_lt b.session_id a.session_id
    then false
    else leb a.seq b.seq

unfoldable pub from_requested : List (List ℕ × ℕ) → List Buffered → List Buffered
unfolding get
from_requested requested [] = []
from_requested requested (b ∷ buffer) =
    let rest = from_requested requested buffer in
    elim (get requested b.session_id) [
      | none ↦ b ∷ rest
      | some from ↦ if leb from b.seq then b ∷ rest else rest
    ]

-- `pending(resumeFrom)`; an empty list is the same as none. `new Map(...)` keeps the last entry.
unfoldable pub to_map : List (List ℕ × ℕ) → List (List ℕ × ℕ) → List (List ℕ × ℕ)
unfolding set
to_map [] m = m
to_map ((k, v) ∷ entries) m = to_map entries (set m k v)

unfoldable pub pending : Outbox → List (List ℕ × ℕ) → List StreamEvent
unfolding from_requested sort buffered_le to_map
pending o requested =
    let items =
      if length requested == 0 then o.buffer else from_requested (to_map requested []) o.buffer in
    map (λ b. b.event) (sort buffered_le items)

-- The constructor: watermarks first, then the rows, of which the acknowledged are deleted.
unfoldable pub load_acked : List (List ℕ × ℕ) → List (List ℕ × ℕ) → List (List ℕ × ℕ)
unfolding set
load_acked [] acked = acked
load_acked ((session, seq) ∷ rows) acked = load_acked rows (set acked session seq)

unfoldable pub keep_row : Outbox → EventRow → Outbox
keep_row o r = record o {
  buffer = o.buffer ++ record { session_id = r.session; seq = r.seq; event = r.payload } ∷ [];
  keys = o.keys ++ (r.session, r.seq) ∷ [];
}

-- `outboxDelete` throws out of the constructor.
abbrev after_delete : Outbox → Db × Result StoreError (Unit {0}) → Result StoreError (Db × Outbox)
after_delete o (db, err e) = err e
after_delete o (db, ok _) = ok (db, o)

unfoldable pub load_row : Disk → List ℕ → EventRow → Db → Outbox → Result StoreError (Db × Outbox)
unfolding get keep_row
load_row disk tenant r db o =
    if is_acked (get o.acked r.session) r.seq
    then after_delete o (outbox_delete disk db tenant r.session r.seq)
    else ok (db, keep_row o r)

unfoldable pub load_rows :
    Disk → List ℕ → List EventRow → Db → Outbox → Result StoreError (Db × Outbox)
unfolding load_row
load_rows disk tenant [] db o = ok (db, o)
load_rows disk tenant (r ∷ rows) db o =
    load_row disk tenant r db o >>= (λ x. load_rows disk tenant rows x.0 x.1)

-- The fields before anything is loaded.
abbrev pub blank : Option Db → Option (List ℕ) → Outbox
blank store tenant_id = record {
  buffer = [];
  keys = [];
  acked = [];
  store = store;
  tenant_id = tenant_id;
}

abbrev store_opened : Option (List ℕ) → Db × Outbox → Outbox
store_opened tenant (db, o) = record o { store = some db }

-- `new Outbox({ store, tenantId })`; an empty tenant id counts as none.
unfoldable pub construct : Disk → Option Db → Option (List ℕ) → Result StoreError Outbox
unfolding load_acked load_rows
construct disk none tenant_id = ok (blank none tenant_id)
construct disk (some db) none = ok (blank (some db) none)
construct disk (some db) (some []) = ok (blank (some db) (some []))
construct disk (some db) (some (c ∷ t)) =
    load_rows disk (c ∷ t) (outbox_load db (c ∷ t)) db (record (blank (some db) (some (c ∷ t))) {
      acked = load_acked (outbox_load_finalized db (c ∷ t)) [];
    })
    >>= (λ x. ok (store_opened (some (c ∷ t)) x))
