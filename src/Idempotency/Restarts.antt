-- ===== src/Idempotency/Restarts.antt =====
-- A stored result of packages/core/src/idempotency.ts, which outlives the table in memory.
use agent_phonon.Base.{
  ◌==◌, Bool, true, false, ℕ, ◌≡◌, refl, ap, sym, ◌∙◌, List, [], ◌∷◌, Option, none, some, arith,
  Bool-cases, inl, inr,
}
use agent_phonon.Js.Text.{text_eq}
use agent_phonon.Js.Text.Order.{text_eq_iff}
use agent_phonon.Idempotency.{
  Entry, Stored, Table, find_entry, lookup_store, gc, execute, run_stored, run_keyed, run_collected,
  run, request_key, fulfilled, rejected,
}
use agent_phonon.Idempotency.Counts.{count}
use agent_phonon.Idempotency.Executions.{
  Event, runs, fulfils, rejects, step, run_all, gc-same, idempotency_put-lookup,
}

-- The result is still stored, and the request was not executed.
abbrev Stays : List ℕ → Stored → Table → Table → Type 0
Stays key r t q =
    (count q.executions key ≡ count t.executions key) × (lookup_store q.store key ≡ some r)

run_stored-Stays :
    (key : List ℕ) (r : Stored) (t : Table) (now : ℕ) (k : List ℕ) (fingerprint : Option ℕ)
    (row : Option Stored)
    → lookup_store t.store k ≡ row
    → lookup_store t.store key ≡ some r
    → Stays key r t (run_stored t now k fingerprint row).0
unfolding run_stored execute count
run_stored-Stays key r t now k fingerprint (some old) e h = (refl, h)
run_stored-Stays key r t now k fingerprint none e h = elim (Bool-cases (text_eq k key)) [
  | inl hit ↦
      let absurd : none ≡ some r =
        sym e ∙ ap (lookup_store t.store) ((text_eq_iff k key).0 hit) ∙ h in
      cc absurd
  | inr miss ↦ (ground arith, h)
]

run_keyed-Stays :
    (key : List ℕ) (r : Stored) (t : Table) (now : ℕ) (k : List ℕ) (fingerprint : Option ℕ)
    (found : Option Entry)
    → lookup_store t.store key ≡ some r
    → Stays key r t (run_keyed t now k fingerprint found).0
unfolding run_keyed
run_keyed-Stays key r t now k fingerprint (some entry) h = (refl, h)
run_keyed-Stays key r t now k fingerprint none h =
    run_stored-Stays key r t now k fingerprint (lookup_store t.store k) refl h

run_collected-Stays :
    (key : List ℕ) (r : Stored) (t : Table) (now : ℕ) (k : List ℕ) (fingerprint : Option ℕ)
    (fails : Bool)
    → lookup_store t.store key ≡ some r
    → Stays key r t (run_collected t now k fingerprint fails).0
unfolding run_collected
run_collected-Stays key r t now k fingerprint true h = (refl, h)
run_collected-Stays key r t now k fingerprint false h =
    run_keyed-Stays key r t now k fingerprint (find_entry t.map k) h

step-Stays :
    (key : List ℕ) (r : Stored) (t : Table) (e : Event)
    → lookup_store t.store key ≡ some r
    → Stays key r t (step t e)
unfolding step run fulfilled rejected
step-Stays key r t (runs now tenant method [] fingerprint) h = (refl, h)
step-Stays key r t (runs now tenant method (c ∷ id) fingerprint) h =
    let k = request_key tenant method (c ∷ id) in
    let q = gc t now in
    let same = gc-same t now in
    let kept =
      run_collected-Stays key r q now k fingerprint (t.max == 0)
        (ap (λ s. lookup_store s key) same.1 ∙ h) in
    (kept.0 ∙ ap (λ l. count l key) same.0, kept.1)
step-Stays key r t (fulfils works k result fingerprint) h =
    (refl, idempotency_put-lookup t.store works _ key r h)
step-Stays key r t (rejects k) h = (refl, h)

-- Once the result of a request is stored, it stays, and the request is not executed again, through
-- any calls and ends of promises and whatever the table in memory has forgotten.
pub run_all_stored :
    (key : List ℕ) (r : Stored) (t : Table) (events : List Event)
    → lookup_store t.store key ≡ some r
    → (count (run_all t events).executions key ≡ count t.executions key)
      × (lookup_store (run_all t events).store key ≡ some r)
unfolding run_all
run_all_stored key r t [] h = (refl, h)
run_all_stored key r t (e ∷ events) h =
    let one = step-Stays key r t e h in
    let rest = run_all_stored key r (step t e) events one.1 in (rest.0 ∙ one.0, rest.1)
