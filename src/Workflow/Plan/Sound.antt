-- ===== src/Workflow/Plan/Sound.antt =====
-- What a DAG plan is like that `validatePlan` of packages/core/src/workflow-engine.ts lets pass.
use agent_phonon.Base.{
  ℕ, ◌+◌, ◌≤◌, ◌≡◌, refl, Bool, true, false, not, ◌&&◌, List, [], ◌∷◌, if◌then◌else◌, arith, All,
  Result, ok, ◌>>◌, guard, >>=-eq-ok,
}
use agent_phonon.Js.Text.{text_eq}
use agent_phonon.Js.Text.Order.{text_eq_iff}
use agent_phonon.Workflow.Plan.{
  Node, Edge, DagPlan, dag, duplicate_node, unknown_endpoint, PlanError, or_empty, has, add,
  check_unique, check_known, check_dependencies, check_edges, check_final, validate_plan,
}
use agent_phonon.Workflow.Dag.Sets.{has-add}

-- How many of the nodes have the id.
unfoldable pub count_id : List Node → List ℕ → ℕ
unfolding text_eq
count_id [] id = 0
count_id (n ∷ nodes) id = (if text_eq n.node_id id then 1 else 0) + count_id nodes id

guard-true :
    {A : Type 0} (b : Bool) (e : PlanError) {r : Result PlanError A} {a : A}
    → (guard b e >> r) ≡ ok a
    → (b ≡ true) × (r ≡ ok a)
guard-true true e h = (refl, h)
guard-true false e h = cc

check_unique-counts :
    (nodes : List Node) (ids result : List (List ℕ))
    → check_unique nodes ids ≡ ok result
    → (id : List ℕ)
    → ((if has ids id then 1 else 0) + count_id nodes id ≤ 1)
      × ((if has ids id then 1 else 0) + count_id nodes id ≡ (if has result id then 1 else 0))
unfolding check_unique count_id
check_unique-counts [] ids result h id =
    let same : ids ≡ result = cc in rw same (ground arith, ground arith)
check_unique-counts (n ∷ nodes) ids result h id =
    let both = guard-true (not (has ids n.node_id)) (duplicate_node n.node_id) h in
    let ih = check_unique-counts nodes (add ids n.node_id) result both.1 id in
    (
      ground (arith, both.0, ih.0, has-add ids n.node_id id, text_eq_iff n.node_id id),
      ground (arith, both.0, ih.1, has-add ids n.node_id id, text_eq_iff n.node_id id),
    )

check_known-All :
    (ids deps : List (List ℕ)) → check_known ids deps ≡ ok tt → All (λ d. has ids d ≡ true) deps
unfolding check_known
check_known-All ids [] h = tt
check_known-All ids (d ∷ deps) h =
    let both = guard-true _ _ h in (both.0, check_known-All ids deps both.1)

check_dependencies-All :
    (ids : List (List ℕ)) (nodes : List Node)
    → check_dependencies ids nodes ≡ ok tt
    → All (λ n. All (λ d. has ids d ≡ true) (or_empty n.depends_on)) nodes
unfolding check_dependencies
check_dependencies-All ids [] h = tt
check_dependencies-All ids (n ∷ nodes) h =
    let (u, first, rest) = >>=-eq-ok (check_known ids (or_empty n.depends_on)) _ h in
    (check_known-All ids (or_empty n.depends_on) first, check_dependencies-All ids nodes rest)

check_edges-All :
    (ids : List (List ℕ)) (edges : List Edge)
    → check_edges ids edges ≡ ok tt
    → All (λ e. (has ids e.from ≡ true) × (has ids e.to ≡ true)) edges
unfolding check_edges
check_edges-All ids [] h = tt
check_edges-All ids (e ∷ edges) h =
    let both = guard-true (has ids e.from && has ids e.to) (unknown_endpoint e) h in
    ((ground (arith, both.0), ground (arith, both.0)), check_edges-All ids edges both.1)

pub All-map {ℓ κ κ'} :
    {A : Type ℓ} {P : A → Type κ} {Q : A → Type κ'} (xs : List A)
    → ((a : A) → P a → Q a)
    → All P xs
    → All Q xs
All-map [] f h = tt
All-map (x ∷ xs) f h = (f x h.0, All-map xs f h.1)

-- In a DAG plan that passes, no two nodes have the same id, each dependency is the id of one node,
-- and so are both ends of each edge.
pub validate_plan_sound :
    (plan : DagPlan)
    → validate_plan (dag plan) ≡ ok tt
    → ((id : List ℕ) → count_id plan.nodes id ≤ 1)
      × All (λ n. All (λ d. count_id plan.nodes d ≡ 1) (or_empty n.depends_on)) plan.nodes
      × All
          (λ e. (count_id plan.nodes e.from ≡ 1) × (count_id plan.nodes e.to ≡ 1))
          (or_empty plan.edges)
unfolding validate_plan
validate_plan_sound plan h =
    let (ids, unique, checked) = >>=-eq-ok (check_unique plan.nodes []) _ h in
    let dependencies = check_dependencies ids plan.nodes in
    let edges = check_edges ids (or_empty plan.edges) in
    let (u, both, final) =
      >>=-eq-ok (dependencies >> edges) (λ _. check_final ids plan.final_node_id) checked in
    let (v, known, ends) = >>=-eq-ok dependencies (λ _. edges) both in
    let one : (d : List ℕ) → has ids d ≡ true → count_id plan.nodes d ≡ 1 =
      λ d k. ground (arith, (check_unique-counts plan.nodes [] ids unique d).1) in
    (
      λ id. ground (arith, (check_unique-counts plan.nodes [] ids unique id).0),
      All-map plan.nodes (λ n. All-map (or_empty n.depends_on) one)
          (check_dependencies-All ids plan.nodes known),
      All-map (or_empty plan.edges) (λ e k. (one e.from k.0, one e.to k.1))
          (check_edges-All ids (or_empty plan.edges) ends),
    )
