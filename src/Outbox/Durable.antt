-- ===== src/Outbox/Durable.antt =====
-- The memory of packages/core/src/outbox.ts and the tables of packages/core/src/store.ts agree.
use agent_phonon.Base.{
  ℕ, min, length, ◌≡◌, inl, inr, ap, ◌∙◌, sym, subst, Bool, true, false, List, [], ◌∷◌, Option,
  none, some, arith, ◌&&◌, ◌==◌, leb, ok, err, Result, Bool-cases,
}
use agent_phonon.Js.Text.{ℤ, pos, negsuc}
use agent_phonon.Store.Write.{Disk, works, fails, fails_late, StoreError, settle}
use agent_phonon.Store.Outbox.{
  StreamEvent, Db, outbox_add, outbox_ack, add_event, upsert_ack, delete_events, is_event,
}
use agent_phonon.Store.Outbox.Watermarks.{upsert_ack-OneRow, ack_of-upsert_ack}
use agent_phonon.Outbox.State.{Outbox, get, is_acked, has_key, tenant_or_empty}
use agent_phonon.Outbox.{
  push, enqueue, add_new, after_add, after_ack, ack_known, commit_ack, ack, ack_seq, max_seq,
  session_items, max_safe_integer, proactive_of,
}
use agent_phonon.Outbox.Maps.{get-set}
use agent_phonon.Outbox.Buffer.{in_buffer, kept, drop_acked-kept}
use agent_phonon.Outbox.Invariant.{IsValid, step-IsValid}
use agent_phonon.Outbox.History.{Call, enqueues, acks, step, run}
use agent_phonon.Outbox.Rows.{rows_of-delete_events}
use agent_phonon.Outbox.Inserts.{Holds, item, AddEffect, add_event_effect}

-- The outbox of the tenant is backed by a database that agrees with its memory.
abbrev pub HoldsStore : List ℕ → Option Db → Outbox → Type 0
HoldsStore t none o = ⊥
HoldsStore t (some db) o = Holds t db o.buffer o.acked

pub record IsDurable (t : List ℕ) (o : Outbox) : Type 0 where
  pub tenant : o.tenant_id ≡ some t
  pub store : HoldsStore t o.store o

-- The disk does not fail behind a commit.
abbrev pub in_time : Disk → Bool
in_time fails_late = false
in_time works = true
in_time fails = true

after_add-IsDurable :
    (t : List ℕ) (o : Outbox) (db : Db) (event : StreamEvent) (disk : Disk)
    (answer : Result StoreError (Db × Bool))
    → o.tenant_id ≡ some t
    → Holds t db o.buffer o.acked
    → AddEffect t db o.buffer o.acked event answer
    → in_time disk ≡ true
    → IsDurable t (after_add o event (settle disk db answer)).0
unfolding AddEffect after_add settle push item
after_add-IsDurable t o db event fails_late answer e h effect timely = cc
after_add-IsDurable t o db event fails answer e h effect timely = record { tenant = e; store = h }
after_add-IsDurable t o db event works (err x) e h effect timely = record { tenant = e; store = h }
after_add-IsDurable t o db event works (ok (db', false)) e h effect timely = record {
  tenant = e;
  store = effect;
}
after_add-IsDurable t o db event works (ok (db', true)) e h effect timely = record {
  tenant = e;
  store = effect;
}

add_new-IsDurable :
    (digest : List ℕ → ℕ) (disk : Disk) (t : List ℕ) (o : Outbox) (event : StreamEvent)
    (stored : Option Db)
    → o.tenant_id ≡ some t
    → HoldsStore t stored o
    → in_buffer o.buffer event.session_id event.seq ≡ false
    → in_time disk ≡ true
    → IsDurable t (add_new digest disk o event stored).0
unfolding add_new outbox_add
add_new-IsDurable digest disk t o event none e h new timely = absurd h
add_new-IsDurable digest disk t o event (some db) e h new timely =
    subst
      (λ u.
        IsDurable t
          (after_add o event
            (outbox_add disk db u event.session_id event.seq event (proactive_of digest event))).0)
      (sym (ap tenant_or_empty e))
      (after_add-IsDurable t o db event disk
        (add_event t event.session_id event.seq event (proactive_of digest event) db) e h
        (add_event_effect t db o.buffer o.acked event (proactive_of digest event) h new) timely)

pub enqueue-IsDurable :
    (digest : List ℕ → ℕ) (disk : Disk) (t : List ℕ) (o : Outbox) (event : StreamEvent)
    → IsValid o
    → IsDurable t o
    → in_time disk ≡ true
    → IsDurable t (enqueue digest disk o event).0
unfolding enqueue
enqueue-IsDurable digest disk t o event v d timely =
    elim (Bool-cases (is_acked (get o.acked event.session_id) event.seq)) [
      | inl old ↦ rw old d
      | inr a ↦ elim (Bool-cases (has_key o.keys event.session_id event.seq)) [
        | inl kept ↦ rw (a, kept) d
        | inr k ↦
            rw (a, k)
              (add_new-IsDurable digest disk t o event o.store d.tenant d.store
                (sym (v.keys_match event.session_id event.seq) ∙ k) timely)
      ]
    ]

commit_ack-Holds :
    (t : List ℕ) (db : Db) (o : Outbox) (s : List ℕ) (e : ℕ)
    → Holds t db o.buffer o.acked
    → is_acked (get o.acked s) e ≡ false
    → Holds t
        (record db {
          acks = upsert_ack db.acks t s e;
          events = delete_events (λ r. is_event t s r && leb r.seq e) db.events;
        })
        (commit_ack o s e).buffer
        (commit_ack o s e).acked
unfolding commit_ack
commit_ack-Holds t db o s e h ahead = record {
  rows =
      rows_of-delete_events t db.events s e
      ∙ (ap (λ b. kept b s e) h.rows ∙ sym (drop_acked-kept o.buffer s e o.keys));
  watermarks = λ j. ground (
    arith,
    ack_of-upsert_ack db.acks t s e j,
    get-set o.acked s e j,
    h.watermarks s,
    h.watermarks j,
  );
  one_row = upsert_ack-OneRow db.acks t s e h.one_row;
}

ack_known-IsDurable :
    (disk : Disk) (t : List ℕ) (o : Outbox) (s : List ℕ) (e : ℕ) (stored : Option Db)
    → o.tenant_id ≡ some t
    → HoldsStore t stored o
    → is_acked (get o.acked s) e ≡ false
    → in_time disk ≡ true
    → IsDurable t (ack_known disk o s e stored).0
unfolding ack_known after_ack outbox_ack
ack_known-IsDurable disk t o s e none et h ahead timely = absurd h
ack_known-IsDurable fails_late t o s e (some db) et h ahead timely = cc
ack_known-IsDurable fails t o s e (some db) et h ahead timely = record { tenant = et; store = h }
ack_known-IsDurable works t o s e (some db) et h ahead timely = record {
  tenant = et;
  store =
      subst
        (λ u.
          Holds t
            (record db {
              acks = upsert_ack db.acks u s e;
              events = delete_events (λ r. is_event u s r && leb r.seq e) db.events;
            })
            (commit_ack o s e).buffer (commit_ack o s e).acked)
        (sym (ap tenant_or_empty et)) (commit_ack-Holds t db o s e h ahead);
}

ack_seq-IsDurable :
    (disk : Disk) (t : List ℕ) (o : Outbox) (s : List ℕ) (n : ℕ)
    → IsDurable t o
    → in_time disk ≡ true
    → IsDurable t (ack_seq disk o s n).0
unfolding ack_seq
ack_seq-IsDurable disk t o s n d timely =
    let effective = min n (max_seq (session_items o.buffer s)) in
    elim (Bool-cases (is_acked (get o.acked s) n)) [
      | inl old ↦ rw old d
      | inr a ↦ elim (Bool-cases (length (session_items o.buffer s) == 0)) [
        | inl nothing ↦ rw (a, nothing) d
        | inr there ↦ elim (Bool-cases (is_acked (get o.acked s) effective)) [
          | inl old ↦ rw (a, there, old) d
          | inr ahead ↦
              rw (a, there, ahead)
                (ack_known-IsDurable disk t o s effective o.store d.tenant d.store ahead timely)
        ]
      ]
    ]

ack-IsDurable :
    (disk : Disk) (t : List ℕ) (o : Outbox) (s : List ℕ) (last_seq : ℤ)
    → IsDurable t o
    → in_time disk ≡ true
    → IsDurable t (ack disk o s last_seq).0
unfolding ack
ack-IsDurable disk t o s (negsuc n) d timely = d
ack-IsDurable disk t o s (pos n) d timely = elim (Bool-cases (leb n max_safe_integer)) [
  | inl safe ↦ rw safe (ack_seq-IsDurable disk t o s n d timely)
  | inr unsafe ↦ rw unsafe d
]

abbrev pub all_in_time : List (Disk × Call) → Bool
all_in_time [] = true
all_in_time ((disk, c) ∷ calls) = in_time disk && all_in_time calls

-- Through any calls in which the disk does not fail behind a commit, `enqueue` and `ack` keep the
-- database of a valid outbox in step with the memory: the tenant's rows are the buffer, in its
-- order, its watermarks are those in memory, and it has one watermark row for each session.
pub run-IsDurable :
    (digest : List ℕ → ℕ) (t : List ℕ) (calls : List (Disk × Call)) (o : Outbox)
    → IsValid o
    → IsDurable t o
    → all_in_time calls ≡ true
    → IsDurable t (run digest o calls)
unfolding run step
run-IsDurable digest t [] o v d timely = d
run-IsDurable digest t ((disk, enqueues event) ∷ calls) o v d timely =
    run-IsDurable digest t calls _ ((step-IsValid digest disk o v).0 event)
      (enqueue-IsDurable digest disk t o event v d (ground arith)) (ground arith)
run-IsDurable digest t ((disk, acks session last_seq) ∷ calls) o v d timely =
    run-IsDurable digest t calls _ ((step-IsValid digest disk o v).1 session last_seq)
      (ack-IsDurable disk t o session last_seq d (ground arith)) (ground arith)
