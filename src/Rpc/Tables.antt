-- ===== src/Rpc/Tables.antt =====
-- How often an id stands in the tables of packages/core/src/rpc.ts, and what the operations on the
-- tables do to that.
use agent_phonon.Base.{
  ℕ, ◌+◌, ◌≤◌, ◌≡◌, ◌&&◌, refl, ap, subst, Bool, List, [], ◌∷◌, ◌++◌, Option, none, some, ◌==◌,
  if◌then◌else◌, arith, inl, inr, Bool-cases,
}
use agent_phonon.Js.Text.{text_eq}
use agent_phonon.Rpc.State.{
  Pending, Reason, Settlement, rejected, find_pending, delete_pending, remove_timer, clear_timer,
}
use agent_phonon.Rpc.{same_request_id, find_request, reject_entries}

unfoldable pub count : {A : Type 0} → List (ℕ × A) → ℕ → ℕ
count [] id = 0
count ((i, a) ∷ table) id = (if i == id then 1 else 0) + count table id

unfoldable pub count_timers : List ℕ → ℕ → ℕ
count_timers [] id = 0
count_timers (i ∷ timers) id = (if i == id then 1 else 0) + count_timers timers id

-- The entries of an id that have a timer.
unfoldable pub timed : List (ℕ × Pending) → ℕ → ℕ
timed [] id = 0
timed ((i, p) ∷ pending) id = (if i == id then (if p.timer then 1 else 0) else 0) + timed pending id

pub count-append :
    {A : Type 0} (xs ys : List (ℕ × A)) (id : ℕ) → count (xs ++ ys) id ≡ count xs id + count ys id
unfolding count
count-append [] ys id = ground arith
count-append ((i, a) ∷ xs) ys id = ground (arith, count-append xs ys id)

pub timed-append :
    (xs ys : List (ℕ × Pending)) (id : ℕ) → timed (xs ++ ys) id ≡ timed xs id + timed ys id
unfolding timed
timed-append [] ys id = ground arith
timed-append ((i, p) ∷ xs) ys id = ground (arith, timed-append xs ys id)

pub timed_le_count : (pending : List (ℕ × Pending)) (id : ℕ) → timed pending id ≤ count pending id
unfolding timed count
timed_le_count [] id = omega arith
timed_le_count ((i, p) ∷ pending) id = ground (arith, timed_le_count pending id)

pub count-delete_pending :
    (pending : List (ℕ × Pending)) (k id : ℕ)
    → count (delete_pending pending k) id ≡ (if k == id then 0 else count pending id)
unfolding count delete_pending
count-delete_pending [] k id = ground arith
count-delete_pending ((i, p) ∷ pending) k id = ground (arith, count-delete_pending pending k id)

pub timed-delete_pending :
    (pending : List (ℕ × Pending)) (k id : ℕ)
    → timed (delete_pending pending k) id ≡ (if k == id then 0 else timed pending id)
unfolding timed delete_pending
timed-delete_pending [] k id = ground arith
timed-delete_pending ((i, p) ∷ pending) k id = ground (arith, timed-delete_pending pending k id)

pub count_timers-remove_timer :
    (timers : List ℕ) (k id : ℕ)
    → count_timers (remove_timer timers k) id ≡ (if k == id then 0 else count_timers timers id)
unfolding count_timers remove_timer
count_timers-remove_timer [] k id = ground arith
count_timers-remove_timer (i ∷ timers) k id = ground (arith, count_timers-remove_timer timers k id)

-- The entry is the only one of its id.
pub record IsEntry (pending : List (ℕ × Pending)) (id : ℕ) (p : Pending) : Type 0 where
  pub one : count pending id ≡ 1
  pub timer : timed pending id ≡ (if p.timer then 1 else 0)

pub find_pending-IsEntry :
    (pending : List (ℕ × Pending)) (id : ℕ) (p : Pending)
    → count pending id ≤ 1
    → find_pending pending id ≡ some p
    → IsEntry pending id p
unfolding find_pending count timed
find_pending-IsEntry [] id p le h = cc
find_pending-IsEntry ((i, q) ∷ pending) id p le h = elim (Bool-cases (i == id)) [
  | inl hit ↦ record { one = ground arith; timer = ground (arith, timed_le_count pending id) }
  | inr miss ↦
      let e = find_pending-IsEntry pending id p (ground arith) (rw miss at h) in
      record { one = ground (arith, e.one); timer = ground (arith, e.timer) }
]

abbrev entry_or : ℕ × Pending → Option (ℕ × Pending) → ℕ × Pending
entry_or d none = d
entry_or d (some e) = e

head-IsEntry :
    (pending : List (ℕ × Pending)) (i : ℕ) (q : Pending)
    → count ((i, q) ∷ pending) i ≤ 1
    → IsEntry ((i, q) ∷ pending) i q
unfolding count timed
head-IsEntry pending i q le = record {
  one = ground arith;
  timer = ground (arith, timed_le_count pending i);
}

pub find_request-IsEntry :
    (pending : List (ℕ × Pending)) (method request_id : List ℕ) (id : ℕ) (p : Pending)
    → ((i : ℕ) → count pending i ≤ 1)
    → find_request pending method request_id ≡ some (id, p)
    → IsEntry pending id p
unfolding find_request count timed
find_request-IsEntry [] method request_id id p le h = cc
find_request-IsEntry ((i, q) ∷ pending) method request_id id p le h =
    elim (Bool-cases (text_eq q.method method && same_request_id q.request_id request_id)) [
      | inl hit ↦
          let e : some (i, q) ≡ some (id, p) = rw hit at h in
          subst (λ u. IsEntry ((i, q) ∷ pending) u.0 u.1) (ap (entry_or (i, q)) e)
            (head-IsEntry pending i q (le i))
      | inr miss ↦
          let e =
            find_request-IsEntry pending method request_id id p (λ j. ground (arith, le j))
              (rw miss at h) in
          record {
            one = ground (arith, e.one, le id);
            timer = ground (arith, e.one, e.timer, le id);
          }
    ]

pub reject_entries-counts :
    (keep : Pending → Bool) (reason : Reason) (pending : List (ℕ × Pending)) (timers : List ℕ)
    (settled : List (ℕ × Settlement)) (id base : ℕ)
    → base + count pending id ≤ 1
    → count_timers timers id ≡ base + timed pending id
    → let (left, timers_left, settled_after) = reject_entries keep reason pending timers settled in
      (count left id + count settled_after id ≡ count pending id + count settled id)
      × (count_timers timers_left id ≡ base + timed left id)
unfolding reject_entries count timed
reject_entries-counts keep reason [] timers settled id base le h = (refl, h)
reject_entries-counts keep reason ((i, p) ∷ pending) timers settled id base le h =
    elim (Bool-cases (keep p)) [
      | inl stays ↦
          let ih =
            reject_entries-counts keep reason pending timers settled id
              (base + (if i == id then (if p.timer then 1 else 0) else 0)) (ground arith)
              (ground arith) in
          rw stays (ground (arith, ih.0), ground (arith, ih.1))
      | inr goes ↦
          let ih =
            reject_entries-counts keep reason pending (clear_timer p.timer timers i)
              ((i, rejected reason) ∷ settled) id base (ground arith)
              (ground (arith, count_timers-remove_timer timers i id, timed_le_count pending id)) in
          rw goes (ground (arith, ih.0), ih.1)
    ]
