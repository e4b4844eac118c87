-- ===== src/Idempotency.antt =====
-- The table of requests of packages/core/src/idempotency.ts. A promise is known by a number, a
-- fingerprint is what `requestFingerprint` gives for the request, and the clock is an argument.
pub mod Counts
pub mod Executions
pub mod Restarts
pub mod Keys
mod Tests
use agent_phonon.Base.{
  ℕ, zero, suc, ◌+◌, ◌-◌, ◌%◌, Bool, true, false, not, ◌&&◌, ◌||◌, List, [], ◌∷◌, ◌++◌, Option,
  none, some, if◌then◌else◌, leb, ltb, ◌==◌, length,
}
use agent_phonon.Js.Text.{text_eq}
use agent_phonon.Js.Sort.{sort}

pub record Entry : Type 0 where
  pub promise : ℕ
  pub at : ℕ
  pub fingerprint : Option ℕ

-- A row of the store: the text of the result, and the fingerprint.
pub record Stored : Type 0 where
  pub key : List ℕ
  pub result : List ℕ
  pub fingerprint : Option ℕ

-- `executions` has the key and the promise of each keyed call of `fn`, and `removals` the key of each
-- entry that left the map.
pub record Table : Type 0 where
  pub map : List (List ℕ × Entry)
  pub ttl_ms : ℕ
  pub max : ℕ
  pub store : Option (List Stored)
  pub next_promise : ℕ
  pub executions : List (List ℕ × ℕ)
  pub removals : List (List ℕ)

-- `${tenantId}\u0000${method}\u0000${clientRequestId}`.
abbrev pub request_key : List ℕ → List ℕ → List ℕ → List ℕ
request_key tenant method id = tenant ++ (0 ∷ (method ++ (0 ∷ id)))

unfoldable pub find_entry : List (List ℕ × Entry) → List ℕ → Option Entry
find_entry [] key = none
find_entry ((k, e) ∷ map) key = if text_eq k key then some e else find_entry map key

unfoldable pub find_stored : List Stored → List ℕ → Option Stored
find_stored [] key = none
find_stored (r ∷ rows) key = if text_eq r.key key then some r else find_stored rows key

-- `Map.delete`, and what it removes.
unfoldable pub delete_entry :
    List (List ℕ × Entry) → List ℕ → List (List ℕ) → List (List ℕ × Entry) × List (List ℕ)
delete_entry [] key removals = ([], removals)
delete_entry ((k, e) ∷ map) key removals =
    let hit = text_eq k key in
    let (rest, removed) = delete_entry map key (if hit then k ∷ removals else removals) in
    (if hit then rest else (k, e) ∷ rest, removed)

-- The entries that are older than `ttlMs` go.
unfoldable pub expire :
    ℕ → ℕ → List (List ℕ × Entry) → List (List ℕ) → List (List ℕ × Entry) × List (List ℕ)
expire now ttl_ms [] removals = ([], removals)
expire now ttl_ms ((k, e) ∷ map) removals =
    let old = ltb (e.at + ttl_ms) now in
    let (rest, removed) = expire now ttl_ms map (if old then k ∷ removals else removals) in
    (if old then rest else (k, e) ∷ rest, removed)

-- The first keys of the sorted entries.
unfoldable pub delete_first :
    ℕ
    → List (List ℕ × Entry)
    → List (List ℕ × Entry)
    → List (List ℕ)
    → List (List ℕ × Entry) × List (List ℕ)
unfolding delete_entry
delete_first n [] map removals = (map, removals)
delete_first zero (x ∷ sorted) map removals = (map, removals)
delete_first (suc n) (x ∷ sorted) map removals =
    let (rest, removed) = delete_entry map x.0 removals in delete_first n sorted rest removed

unfoldable pub evict :
    ℕ → List (List ℕ × Entry) × List (List ℕ) → List (List ℕ × Entry) × List (List ℕ)
unfolding delete_first sort
evict limit (map, removals) =
    if leb limit (length map)
    then delete_first (length map + 1 - limit) (sort (λ a b. leb a.1.at b.1.at) map) map removals
    else (map, removals)

unfoldable pub gc : Table → ℕ → Table
unfolding expire evict
gc t now =
    let (left, removed) = evict t.max (expire now t.ttl_ms t.map t.removals) in
    if ltb (length t.map) t.max && not (now % 16 == 0)
    then t
    else record t { map = left; removals = removed }

-- What `run` gives: a promise, whether or not the request has been executed for it, a result of
-- the store, the error of a mismatch, or what `gc` throws.
pub data Answer : Type 0 where
  executed : ℕ → Answer
  shared : ℕ → Answer
  stored : List ℕ → Answer
  mismatch collection_failed : Answer

abbrev pub same_fingerprint : Option ℕ → Option ℕ → Bool
same_fingerprint none none = true
same_fingerprint none (some f) = false
same_fingerprint (some f) none = false
same_fingerprint (some f) (some g) = f == g

-- A stored fingerprint is compared where the request has one.
abbrev pub accepts : Option ℕ → Option ℕ → Bool
accepts none existing = true
accepts (some f) existing = same_fingerprint existing (some f)

unfoldable pub execute : Table → ℕ → List ℕ → Option ℕ → Table × Answer
execute t now key fingerprint = (
  record t {
    map =
        t.map
        ++ (key, record { promise = t.next_promise; at = now; fingerprint = fingerprint }) ∷ [];
    next_promise = t.next_promise + 1;
    executions = (key, t.next_promise) ∷ t.executions;
  },
  executed t.next_promise,
)

abbrev pub lookup_store : Option (List Stored) → List ℕ → Option Stored
lookup_store none key = none
lookup_store (some rows) key = find_stored rows key

unfoldable pub run_stored : Table → ℕ → List ℕ → Option ℕ → Option Stored → Table × Answer
unfolding execute
run_stored t now key fingerprint none = execute t now key fingerprint
run_stored t now key fingerprint (some r) =
    (t, if accepts fingerprint r.fingerprint then stored r.result else mismatch)

unfoldable pub run_keyed : Table → ℕ → List ℕ → Option ℕ → Option Entry → Table × Answer
unfolding run_stored find_stored
run_keyed t now key fingerprint (some e) =
    (t, if same_fingerprint fingerprint e.fingerprint then shared e.promise else mismatch)
run_keyed t now key fingerprint none = run_stored t now key fingerprint (lookup_store t.store key)

-- With a limit of 0 the loop of `gc` reads beyond the entries, of which none is left then, and throws.
unfoldable pub run_collected : Table → ℕ → List ℕ → Option ℕ → Bool → Table × Answer
unfolding run_keyed find_entry
run_collected t now key fingerprint true = (t, collection_failed)
run_collected t now key fingerprint false = run_keyed t now key fingerprint (find_entry t.map key)

-- An empty client id counts as none: the request is executed without a key.
unfoldable pub run : Table → ℕ → List ℕ → List ℕ → List ℕ → Option ℕ → Table × Answer
unfolding gc run_collected
run t now tenant method [] fingerprint =
    (record t { next_promise = t.next_promise + 1 }, executed t.next_promise)
run t now tenant method (c ∷ id) fingerprint =
    let key = request_key tenant method (c ∷ id) in
    run_collected (gc t now) now key fingerprint (t.max == 0)

-- `INSERT ... ON CONFLICT(k) DO NOTHING`.
unfoldable pub insert_row : List Stored → Stored → Option Stored → List Stored
insert_row rows row none = rows ++ row ∷ []
insert_row rows row (some r) = rows

unfoldable pub idempotency_put : Option (List Stored) → Bool → Stored → Option (List Stored)
unfolding insert_row find_stored
idempotency_put none works row = none
idempotency_put (some rows) works row =
    if works then some (insert_row rows row (find_stored rows row.key)) else some rows

-- The handler of a promise that is fulfilled; the error of a failed write is swallowed.
unfoldable pub fulfilled : Table → Bool → List ℕ → List ℕ → Option ℕ → Table
unfolding idempotency_put
fulfilled t works key result fingerprint = record t {
  store =
      idempotency_put t.store works
        (record { key = key; result = result; fingerprint = fingerprint });
}

-- The handler of a promise that is rejected.
unfoldable pub rejected : Table → List ℕ → Table
unfolding delete_entry
rejected t key =
    let (left, removed) = delete_entry t.map key t.removals in
    record t { map = left; removals = removed }
