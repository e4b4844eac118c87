-- ===== src/Workflow/Dag/Required.antt =====
-- What a plan of packages/core/src/workflow-engine.ts requires of its nodes, read off the plan itself, and that
-- the map of `executeDag` has it.
use agent_phonon.Base.{
  ◌≡◌, refl, Bool, true, false, ◌&&◌, ◌||◌, List, [], ◌∷◌, ◌++◌, Option, none, some, arith,
  if◌then◌else◌, ℕ, ◌∙◌, ap, subst, inl, inr, Bool-cases,
}
use agent_phonon.Js.Text.{text_eq}
use agent_phonon.Js.Text.Order.{text_eq_iff}
use agent_phonon.Workflow.Plan.{Node, Edge, DagPlan, or_empty, has, add}
use agent_phonon.Workflow.State.{
  DagState, Entry, started, finished, node_skipped, deps_of, set_deps, add_dep, to_set, node_deps,
  edge_deps, dag_deps,
}
use agent_phonon.Workflow.Dag.Sets.{passes, all_pass, is_ordered, has-add}

abbrev pub or_own : Option (List (List ℕ)) → Bool → List (List ℕ) → Option (List (List ℕ))
or_own (some later) here ds = some later
or_own none true ds = some ds
or_own none false ds = none

-- `dependsOn` of the node with the id; of the last one, where an id is used twice.
unfoldable pub declared : List Node → List ℕ → Option (List (List ℕ))
unfolding text_eq
declared [] id = none
declared (n ∷ nodes) id = or_own (declared nodes id) (text_eq n.node_id id) (or_empty n.depends_on)

-- The ends that the edges to the node come from.
unfoldable pub sources : List Edge → List ℕ → List (List ℕ)
unfolding text_eq
sources [] id = []
sources (e ∷ edges) id =
    let rest = sources edges id in if text_eq e.to id then e.from ∷ rest else rest

-- All that a node of the plan depends on, by its `dependsOn` and by edges.
abbrev pub with_sources : Option (List (List ℕ)) → List (List ℕ) → List (List ℕ)
with_sources none from = []
with_sources (some ds) from = ds ++ from

unfoldable pub required : DagPlan → List ℕ → List (List ℕ)
unfolding declared sources
required plan id = with_sources (declared plan.nodes id) (sources (or_empty plan.edges) id)

-- Each node of a trace started when all that the plan requires of it had come to that.
unfoldable pub follows_plan : Bool → DagState → DagPlan → List Entry → Bool
unfolding all_pass required
follows_plan any_end start plan [] = true
follows_plan any_end start plan (started id ∷ trace) =
    all_pass any_end start trace (required plan id) && follows_plan any_end start plan trace
follows_plan any_end start plan (finished id returns ∷ trace) =
    follows_plan any_end start plan trace
follows_plan any_end start plan (node_skipped id ∷ trace) = follows_plan any_end start plan trace

unfoldable keyed : List (List ℕ × List (List ℕ)) → List ℕ → Bool
keyed [] id = false
keyed ((k, ds) ∷ deps) id = text_eq k id || keyed deps id

set_deps-deps_of :
    (deps : List (List ℕ × List (List ℕ))) (k : List ℕ) (ds : List (List ℕ)) (id : List ℕ)
    → deps_of (set_deps deps k ds) id ≡ (if text_eq k id then ds else deps_of deps id)
unfolding deps_of set_deps
set_deps-deps_of [] k ds id = refl
set_deps-deps_of ((x, old) ∷ deps) k ds id =
    ground
      (arith, set_deps-deps_of deps k ds id, text_eq_iff x k, text_eq_iff x id, text_eq_iff k id)

set_deps-keyed :
    (deps : List (List ℕ × List (List ℕ))) (k : List ℕ) (ds : List (List ℕ)) (id : List ℕ)
    → keyed (set_deps deps k ds) id ≡ (text_eq k id || keyed deps id)
unfolding set_deps keyed
set_deps-keyed [] k ds id = refl
set_deps-keyed ((x, old) ∷ deps) k ds id =
    ground (arith, set_deps-keyed deps k ds id, text_eq_iff x k, text_eq_iff x id, text_eq_iff k id)

to_set-has :
    (ids set : List (List ℕ)) (d : List ℕ) → has (to_set ids set) d ≡ (has ids d || has set d)
unfolding to_set has
to_set-has [] set d = refl
to_set-has (id ∷ ids) set d = ground (arith, to_set-has ids (add set id) d, has-add set id d)

-- What the map has once the nodes are in it.
abbrev found : Option (List (List ℕ)) → List (List ℕ) → List ℕ → Bool
found none old d = has old d
found (some ds) old d = has ds d

abbrev is_declared : Option (List (List ℕ)) → Bool
is_declared none = false
is_declared (some ds) = true

found-or_own :
    (later : Option (List (List ℕ))) (here : Bool) (ds set old : List (List ℕ)) (d : List ℕ)
    → has set d ≡ has ds d
    → found later (if here then set else old) d ≡ found (or_own later here ds) old d
found-or_own (some later) here ds set old d e = refl
found-or_own none true ds set old d e = e
found-or_own none false ds set old d e = refl

node_deps-has :
    (nodes : List Node) (deps : List (List ℕ × List (List ℕ))) (id d : List ℕ)
    → has (deps_of (node_deps nodes deps) id) d ≡ found (declared nodes id) (deps_of deps id) d
unfolding node_deps declared
node_deps-has [] deps id d = refl
node_deps-has (n ∷ nodes) deps id d =
    let set = to_set (or_empty n.depends_on) [] in
    node_deps-has nodes (set_deps deps n.node_id set) id d
    ∙ ap (λ old. found (declared nodes id) old d) (set_deps-deps_of deps n.node_id set id)
    ∙ found-or_own (declared nodes id) (text_eq n.node_id id) (or_empty n.depends_on) set
        (deps_of deps id) d (ground (arith, to_set-has (or_empty n.depends_on) [] d))

keyed-or_own :
    (later : Option (List (List ℕ))) (here key : Bool) (ds : List (List ℕ))
    → (is_declared later || (here || key)) ≡ (is_declared (or_own later here ds) || key)
keyed-or_own (some later) here key ds = refl
keyed-or_own none true key ds = refl
keyed-or_own none false key ds = refl

node_deps-keyed :
    (nodes : List Node) (deps : List (List ℕ × List (List ℕ))) (id : List ℕ)
    → keyed (node_deps nodes deps) id ≡ (is_declared (declared nodes id) || keyed deps id)
unfolding node_deps declared
node_deps-keyed [] deps id = refl
node_deps-keyed (n ∷ nodes) deps id =
    let set = to_set (or_empty n.depends_on) [] in
    node_deps-keyed nodes (set_deps deps n.node_id set) id
    ∙ ap (λ b. is_declared (declared nodes id) || b) (set_deps-keyed deps n.node_id set id)
    ∙ keyed-or_own (declared nodes id) (text_eq n.node_id id) (keyed deps id)
        (or_empty n.depends_on)

add_dep-keyed :
    (deps : List (List ℕ × List (List ℕ))) (e : Edge) (id : List ℕ)
    → keyed (add_dep deps e) id ≡ keyed deps id
unfolding add_dep keyed
add_dep-keyed [] e id = refl
add_dep-keyed ((k, ds) ∷ deps) e id = ground (arith, add_dep-keyed deps e id)

-- An edge adds its source to the node that it leads to, if the map has that, and to no other.
add_dep-has :
    (deps : List (List ℕ × List (List ℕ))) (e : Edge) (id d : List ℕ)
    → keyed deps id ≡ true
    → has (deps_of (add_dep deps e) id) d
      ≡ (has (deps_of deps id) d || (text_eq e.to id && text_eq e.from d))
unfolding add_dep keyed deps_of
add_dep-has [] e id d h = cc
add_dep-has ((k, ds) ∷ deps) e id d h = ground (
  arith,
  h,
  add_dep-has deps e id d,
  has-add ds e.from d,
  text_eq_iff k e.to,
  text_eq_iff k id,
  text_eq_iff e.to id,
)

edge_deps-has :
    (edges : List Edge) (deps : List (List ℕ × List (List ℕ))) (id d : List ℕ)
    → keyed deps id ≡ true
    → has (deps_of (edge_deps edges deps) id) d
      ≡ (has (deps_of deps id) d || has (sources edges id) d)
unfolding edge_deps sources has
edge_deps-has [] deps id d h = ground arith
edge_deps-has (e ∷ edges) deps id d h = ground (
  arith,
  h,
  edge_deps-has edges (add_dep deps e) id d,
  add_dep-keyed deps e id,
  add_dep-has deps e id d h,
)

has-++ : (xs ys : List (List ℕ)) (d : List ℕ) → has (xs ++ ys) d ≡ (has xs d || has ys d)
unfolding has
has-++ [] ys d = refl
has-++ (x ∷ xs) ys d = ground (arith, has-++ xs ys d)

with_sources-has :
    (ds : Option (List (List ℕ))) (from set : List (List ℕ)) (all : Bool) (x : List ℕ)
    → (is_declared ds ≡ true → all ≡ (found ds set x || has from x))
    → has (with_sources ds from) x ≡ true
    → all ≡ true
unfolding has
with_sources-has none from set all x e h = cc
with_sources-has (some ds) from set all x e h = ground (arith, e refl, h, has-++ ds from x)

-- What the plan requires of a node is in the map.
required-has :
    (plan : DagPlan) (id d : List ℕ)
    → has (required plan id) d ≡ true
    → has (deps_of (dag_deps plan) id) d ≡ true
unfolding required dag_deps
required-has plan id d h =
    let nodes = node_deps plan.nodes [] in
    with_sources-has (declared plan.nodes id) (sources (or_empty plan.edges) id) (deps_of [] id)
      (has (deps_of (edge_deps (or_empty plan.edges) nodes) id) d) d
      (λ known.
        edge_deps-has (or_empty plan.edges) nodes id d
          (node_deps-keyed plan.nodes [] id ∙ ap (λ b. b || keyed [] id) known)
        ∙ ap (λ b. b || has (sources (or_empty plan.edges) id) d)
            (node_deps-has plan.nodes [] id d))
      h

all_pass-has :
    (any_end : Bool) (start : DagState) (trace : List Entry) (ds : List (List ℕ)) (d : List ℕ)
    → all_pass any_end start trace ds ≡ true
    → has ds d ≡ true
    → passes any_end start trace d ≡ true
unfolding all_pass has
all_pass-has any_end start trace [] d a h = cc
all_pass-has any_end start trace (x ∷ ds) d a h =
    let later = all_pass-has any_end start trace ds d in
    elim (Bool-cases (text_eq x d)) [
      | inl same ↦
          subst (λ y. passes any_end start trace y ≡ true) ((text_eq_iff x d).0 same)
            (ground (arith, a))
      | inr other ↦ later (ground (arith, a)) (ground (arith, h, other))
    ]

all_pass-covered :
    (any_end : Bool) (start : DagState) (trace : List Entry) (ds xs : List (List ℕ))
    → all_pass any_end start trace ds ≡ true
    → ((d : List ℕ) → has xs d ≡ true → has ds d ≡ true)
    → all_pass any_end start trace xs ≡ true
unfolding all_pass has
all_pass-covered any_end start trace ds [] a covers = refl
all_pass-covered any_end start trace ds (x ∷ xs) a covers =
    let rest = all_pass-covered any_end start trace ds xs a (λ d h. covers d (ground (arith, h))) in
    let here =
      all_pass-has any_end start trace ds x a (covers x (ground (arith, text_eq_iff x x))) in
    ground (arith, rest, here)

pub is_ordered-follows_plan :
    (any_end : Bool) (start : DagState) (plan : DagPlan) (trace : List Entry)
    → is_ordered any_end start (dag_deps plan) trace ≡ true
    → follows_plan any_end start plan trace ≡ true
unfolding is_ordered follows_plan
is_ordered-follows_plan any_end start plan [] h = refl
is_ordered-follows_plan any_end start plan (started id ∷ trace) h =
    let rest = is_ordered-follows_plan any_end start plan trace (ground (arith, h)) in
    let here =
      all_pass-covered any_end start trace (deps_of (dag_deps plan) id) (required plan id)
        (ground (arith, h)) (λ d. required-has plan id d) in
    ground (arith, rest, here)
is_ordered-follows_plan any_end start plan (finished id returns ∷ trace) h =
    is_ordered-follows_plan any_end start plan trace h
is_ordered-follows_plan any_end start plan (node_skipped id ∷ trace) h =
    is_ordered-follows_plan any_end start plan trace h
