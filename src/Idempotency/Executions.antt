-- ===== src/Idempotency/Executions.antt =====
-- How often packages/core/src/idempotency.ts executes a request.
use agent_phonon.Base.{
  ◌==◌, Bool, true, false, ℕ, ◌+◌, ◌≤◌, ◌≡◌, refl, ap, Bool, true, false, List, [], ◌∷◌, ◌++◌,
  Option, none, some, arith,
}
use agent_phonon.Js.Text.Order.{text_eq_iff}
use agent_phonon.Idempotency.{
  Entry, Stored, Table, find_entry, find_stored, lookup_store, gc, execute, run_stored, run_keyed,
  run_collected, run, request_key, idempotency_put, insert_row, fulfilled, rejected,
}
use agent_phonon.Idempotency.Counts.{
  count, count_keys, count-append, count-find_entry, delete_entry-Moves, gc-Moves,
}

-- A call, or the end of a promise.
pub data Event : Type 0 where
  runs : ℕ → List ℕ → List ℕ → List ℕ → Option ℕ → Event
  fulfils : Bool → List ℕ → List ℕ → Option ℕ → Event
  rejects : List ℕ → Event

unfoldable pub step : Table → Event → Table
step t (runs now tenant method id fingerprint) = (run t now tenant method id fingerprint).0
step t (fulfils works key result fingerprint) = fulfilled t works key result fingerprint
step t (rejects key) = rejected t key

unfoldable pub run_all : Table → List Event → Table
unfolding step
run_all t [] = t
run_all t (e ∷ events) = run_all (step t e) events

-- The constructor.
abbrev pub start : ℕ → ℕ → Option (List Stored) → Table
start ttl_ms max store = record {
  map = [];
  ttl_ms = ttl_ms;
  max = max;
  store = store;
  next_promise = 0;
  executions = [];
  removals = [];
}

-- Each execution of a key is in the map or has left it, and the map has one entry for it.
pub record IsBalanced (key : List ℕ) (t : Table) : Type 0 where
  pub balance : count t.executions key ≡ count t.map key + count_keys t.removals key
  pub once : count t.map key ≤ 1

execute-IsBalanced :
    (key : List ℕ) (t : Table) (now : ℕ) (k : List ℕ) (fingerprint : Option ℕ)
    → find_entry t.map k ≡ none
    → IsBalanced key t
    → IsBalanced key (execute t now k fingerprint).0
unfolding execute count
execute-IsBalanced key t now k fingerprint fresh b =
    let entry : Entry = record { promise = t.next_promise; at = now; fingerprint = fingerprint } in
    record {
      balance = ground (arith, b.balance, count-append t.map ((k, entry) ∷ []) key);
      once = ground (
        arith,
        b.once,
        text_eq_iff k key,
        count-append t.map ((k, entry) ∷ []) key,
        count-find_entry t.map k fresh,
      );
    }

run_stored-IsBalanced :
    (key : List ℕ) (t : Table) (now : ℕ) (k : List ℕ) (fingerprint : Option ℕ) (row : Option Stored)
    → find_entry t.map k ≡ none
    → IsBalanced key t
    → IsBalanced key (run_stored t now k fingerprint row).0
unfolding run_stored
run_stored-IsBalanced key t now k fingerprint none fresh b =
    execute-IsBalanced key t now k fingerprint fresh b
run_stored-IsBalanced key t now k fingerprint (some r) fresh b = b

run_keyed-IsBalanced :
    (key : List ℕ) (t : Table) (now : ℕ) (k : List ℕ) (fingerprint : Option ℕ)
    (found : Option Entry)
    → find_entry t.map k ≡ found
    → IsBalanced key t
    → IsBalanced key (run_keyed t now k fingerprint found).0
unfolding run_keyed
run_keyed-IsBalanced key t now k fingerprint none e b =
    run_stored-IsBalanced key t now k fingerprint (lookup_store t.store k) e b
run_keyed-IsBalanced key t now k fingerprint (some entry) e b = b

-- What the collection leaves alone.
pub gc-same :
    (t : Table) (now : ℕ) → ((gc t now).executions ≡ t.executions) × ((gc t now).store ≡ t.store)
unfolding gc
gc-same t now = (ground arith, ground arith)

gc-IsBalanced : (key : List ℕ) (t : Table) (now : ℕ) → IsBalanced key t → IsBalanced key (gc t now)
gc-IsBalanced key t now b =
    let moves = gc-Moves t now key in
    let executions = ap (λ l. count l key) (gc-same t now).0 in
    record {
      balance = omega (arith, b.balance, moves.0, executions);
      once = omega (arith, b.once, moves.1);
    }

run_collected-IsBalanced :
    (key : List ℕ) (t : Table) (now : ℕ) (k : List ℕ) (fingerprint : Option ℕ) (fails : Bool)
    → IsBalanced key t
    → IsBalanced key (run_collected t now k fingerprint fails).0
unfolding run_collected
run_collected-IsBalanced key t now k fingerprint true b = b
run_collected-IsBalanced key t now k fingerprint false b =
    run_keyed-IsBalanced key t now k fingerprint _ refl b

step-IsBalanced :
    (key : List ℕ) (t : Table) (e : Event) → IsBalanced key t → IsBalanced key (step t e)
unfolding step run fulfilled rejected
step-IsBalanced key t (runs now tenant method [] fingerprint) b = record {
  balance = b.balance;
  once = b.once;
}
step-IsBalanced key t (runs now tenant method (c ∷ id) fingerprint) b =
    run_collected-IsBalanced key (gc t now) now (request_key tenant method (c ∷ id)) fingerprint
      (t.max == 0) (gc-IsBalanced key t now b)
step-IsBalanced key t (fulfils works k result fingerprint) b = record {
  balance = b.balance;
  once = b.once;
}
step-IsBalanced key t (rejects k) b =
    let moves = delete_entry-Moves t.map k t.removals key in
    record { balance = omega (arith, b.balance, moves.0); once = omega (arith, b.once, moves.1) }

run_all-IsBalanced :
    (key : List ℕ) (t : Table) (events : List Event)
    → IsBalanced key t
    → IsBalanced key (run_all t events)
unfolding run_all
run_all-IsBalanced key t [] b = b
run_all-IsBalanced key t (e ∷ events) b =
    run_all-IsBalanced key (step t e) events (step-IsBalanced key t e b)

-- Through any calls and ends of promises, a request is executed at most once more than its entry has
-- left the table, by a rejection or by the collection of old entries.
pub run_all-executions :
    (ttl_ms max : ℕ) (store : Option (List Stored)) (events : List Event) (key : List ℕ)
    → let t = run_all (start ttl_ms max store) events in
      count t.executions key ≤ 1 + count_keys t.removals key
unfolding count count_keys
run_all-executions ttl_ms max store events key =
    let b =
      run_all-IsBalanced key (start ttl_ms max store) events
        (record { balance = omega arith; once = omega arith }) in
    omega (arith, b.balance, b.once)

find_stored-append :
    (rows : List Stored) (row : Stored) (key : List ℕ) (r : Stored)
    → find_stored rows key ≡ some r
    → find_stored (rows ++ row ∷ []) key ≡ some r
unfolding find_stored
find_stored-append [] row key r h = cc
find_stored-append (x ∷ rows) row key r h = ground (arith, find_stored-append rows row key r)

insert_row-find_stored :
    (rows : List Stored) (row : Stored) (found : Option Stored) (key : List ℕ) (r : Stored)
    → find_stored rows key ≡ some r
    → find_stored (insert_row rows row found) key ≡ some r
unfolding insert_row
insert_row-find_stored rows row none key r h = find_stored-append rows row key r h
insert_row-find_stored rows row (some old) key r h = h

pub idempotency_put-lookup :
    (store : Option (List Stored)) (works : Bool) (row : Stored) (key : List ℕ) (r : Stored)
    → lookup_store store key ≡ some r
    → lookup_store (idempotency_put store works row) key ≡ some r
unfolding idempotency_put
idempotency_put-lookup none works row key r h = h
idempotency_put-lookup (some rows) true row key r h =
    insert_row-find_stored rows row (find_stored rows row.key) key r h
idempotency_put-lookup (some rows) false row key r h = h
