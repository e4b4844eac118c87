-- ===== src/Idempotency/Counts.antt =====
-- How often a key stands in the tables of packages/core/src/idempotency.ts.
use agent_phonon.Base.{
  ℕ, zero, suc, ◌+◌, ◌≤◌, ◌≡◌, refl, List, [], ◌∷◌, ◌++◌, none, if◌then◌else◌, arith, if_both, ltb,
  leb, length, not, ◌&&◌, ◌==◌, ◌-◌, ◌%◌,
}
use agent_phonon.Js.Text.{text_eq}
use agent_phonon.Js.Sort.{sort}
use agent_phonon.Idempotency.{
  Entry, Table, find_entry, delete_entry, expire, delete_first, evict, gc,
}

unfoldable pub count : {A : Type 0} → List (List ℕ × A) → List ℕ → ℕ
count [] key = 0
count ((k, a) ∷ map) key = (if text_eq k key then 1 else 0) + count map key

unfoldable pub count_keys : List (List ℕ) → List ℕ → ℕ
count_keys [] key = 0
count_keys (k ∷ keys) key = (if text_eq k key then 1 else 0) + count_keys keys key

pub count-append :
    {A : Type 0} (xs ys : List (List ℕ × A)) (key : List ℕ)
    → count (xs ++ ys) key ≡ count xs key + count ys key
unfolding count
count-append [] ys key = ground arith
count-append ((k, a) ∷ xs) ys key = ground (arith, count-append xs ys key)

pub count-find_entry :
    (map : List (List ℕ × Entry)) (key : List ℕ) → find_entry map key ≡ none → count map key ≡ 0
unfolding count find_entry
count-find_entry [] key h = refl
count-find_entry ((k, e) ∷ map) key h = ground (arith, count-find_entry map key)

-- What leaves the map is in the removals, and nothing comes in.
abbrev pub Moves :
    List ℕ → List (List ℕ × Entry) × List (List ℕ) → List (List ℕ × Entry) × List (List ℕ) → Type 0
Moves key before after =
    (count after.0 key + count_keys after.1 key ≡ count before.0 key + count_keys before.1 key)
    × (count after.0 key ≤ count before.0 key)

pub delete_entry-Moves :
    (map : List (List ℕ × Entry)) (k : List ℕ) (removals : List (List ℕ)) (key : List ℕ)
    → Moves key (map, removals) (delete_entry map k removals)
unfolding delete_entry count count_keys
delete_entry-Moves [] k removals key = (refl, omega arith)
delete_entry-Moves ((i, e) ∷ map) k removals key =
    let here = delete_entry-Moves map k removals key in
    let gone = delete_entry-Moves map k (i ∷ removals) key in
    (ground (arith, here.0, gone.0), ground (arith, here.1, gone.1))

expire-Moves :
    (now ttl_ms : ℕ) (map : List (List ℕ × Entry)) (removals : List (List ℕ)) (key : List ℕ)
    → Moves key (map, removals) (expire now ttl_ms map removals)
unfolding expire count count_keys
expire-Moves now ttl_ms [] removals key = (refl, omega arith)
expire-Moves now ttl_ms ((i, e) ∷ map) removals key =
    let here = expire-Moves now ttl_ms map removals key in
    let gone = expire-Moves now ttl_ms map (i ∷ removals) key in
    (ground (arith, here.0, gone.0), ground (arith, here.1, gone.1))

delete_first-Moves :
    (n : ℕ) (sorted map : List (List ℕ × Entry)) (removals : List (List ℕ)) (key : List ℕ)
    → Moves key (map, removals) (delete_first n sorted map removals)
unfolding delete_first
delete_first-Moves n [] map removals key = (refl, omega arith)
delete_first-Moves zero (x ∷ sorted) map removals key = (refl, omega arith)
delete_first-Moves (suc n) (x ∷ sorted) map removals key =
    let one = delete_entry-Moves map x.0 removals key in
    let (rest, removed) = delete_entry map x.0 removals in
    let more = delete_first-Moves n sorted rest removed key in
    (omega (arith, one.0, more.0), omega (arith, one.1, more.1))

evict-Moves :
    (limit : ℕ) (map : List (List ℕ × Entry)) (removals : List (List ℕ)) (key : List ℕ)
    → Moves key (map, removals) (evict limit (map, removals))
unfolding evict
evict-Moves limit map removals key =
    if_both (Moves key (map, removals)) (leb limit (length map))
      (λ _.
        delete_first-Moves (length map + 1 - limit) (sort (λ a b. leb a.1.at b.1.at) map) map
          removals key)
      (λ _. (refl, omega arith))

pub gc-Moves :
    (t : Table) (now : ℕ) (key : List ℕ)
    → Moves key (t.map, t.removals) ((gc t now).map, (gc t now).removals)
unfolding gc
gc-Moves t now key =
    let old = expire now t.ttl_ms t.map t.removals in
    let one = expire-Moves now t.ttl_ms t.map t.removals key in
    let two = evict-Moves t.max old.0 old.1 key in
    if_both (λ (q : Table). Moves key (t.map, t.removals) (q.map, q.removals))
      (ltb (length t.map) t.max && not (now % 16 == 0)) (λ _. (refl, omega arith))
      (λ _. (omega (arith, one.0, two.0), omega (arith, one.1, two.1)))
