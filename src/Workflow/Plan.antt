-- ===== src/Workflow/Plan.antt =====
-- The plans of packages/protocol/src/schemas/workflow.ts, by the fields that the engine's
-- `validatePlan` and `executeDag` read.
pub mod Sound
use agent_phonon.Base.{
  ℕ, Bool, true, false, not, ◌&&◌, ◌||◌, List, [], ◌∷◌, ◌++◌, Option, none, some, if◌then◌else◌,
  Result, ok, err, ◌>>=◌, ◌>>◌, guard, map, any,
}
use agent_phonon.Js.Text.{text_eq, codes}

pub record Node : Type 0 where
  pub node_id : List ℕ
  pub depends_on : Option (List (List ℕ))

pub record Edge : Type 0 where
  pub from : List ℕ
  pub to : List ℕ

pub record DagPlan : Type 0 where
  pub nodes : List Node
  pub edges : Option (List Edge)
  pub final_node_id : Option (List ℕ)

pub record GraphPlan : Type 0 where
  pub executor : Node
  pub workers : List Node
  pub communication_edges : List Edge
  pub allow_self_loop : Bool

pub record DiscussionPlan : Type 0 where
  pub participants : List Node
  pub chairman : List ℕ

pub data Plan : Type 0 where
  dag : DagPlan → Plan
  graph : GraphPlan → Plan
  discussion : DiscussionPlan → Plan

-- What `validatePlan` throws.
pub data PlanError : Type 0 where
  duplicate_node unknown_dependency unknown_final unknown_chairman : List ℕ → PlanError
  unknown_endpoint duplicate_edge foreign_source unknown_target self_loop : Edge → PlanError

-- `?? []`.
abbrev pub or_empty {ℓ} : {A : Type ℓ} → Option (List A) → List A
or_empty none = []
or_empty (some xs) = xs

-- `Set.has`, and `Set.add` in the order of insertion.
unfoldable pub has : List (List ℕ) → List ℕ → Bool
unfolding text_eq
has [] id = false
has (x ∷ set) id = text_eq x id || has set id

unfoldable pub add : List (List ℕ) → List ℕ → List (List ℕ)
unfolding has
add set id = if has set id then set else set ++ id ∷ []

unfoldable pub check_unique : List Node → List (List ℕ) → Result PlanError (List (List ℕ))
unfolding has add
check_unique [] ids = ok ids
check_unique (n ∷ nodes) ids =
    guard (not (has ids n.node_id)) (duplicate_node n.node_id)
    >> check_unique nodes (add ids n.node_id)

unfoldable pub check_known : List (List ℕ) → List (List ℕ) → Result PlanError (Unit {0})
unfolding has
check_known ids [] = ok tt
check_known ids (dep ∷ deps) = guard (has ids dep) (unknown_dependency dep) >> check_known ids deps

unfoldable pub check_dependencies : List (List ℕ) → List Node → Result PlanError (Unit {0})
unfolding check_known
check_dependencies ids [] = ok tt
check_dependencies ids (n ∷ nodes) =
    check_known ids (or_empty n.depends_on) >> check_dependencies ids nodes

unfoldable pub check_edges : List (List ℕ) → List Edge → Result PlanError (Unit {0})
unfolding has
check_edges ids [] = ok tt
check_edges ids (e ∷ edges) =
    guard (has ids e.from && has ids e.to) (unknown_endpoint e) >> check_edges ids edges

-- An empty `finalNodeId` counts as none.
unfoldable pub check_final : List (List ℕ) → Option (List ℕ) → Result PlanError (Unit {0})
unfolding has
check_final ids none = ok tt
check_final ids (some []) = ok tt
check_final ids (some (c ∷ id)) = guard (has ids (c ∷ id)) (unknown_final (c ∷ id))

-- `${edge.from}->${edge.to}`.
abbrev pub edge_key : Edge → List ℕ
edge_key e = e.from ++ codes "->" ++ e.to

unfoldable pub check_communication :
    List ℕ → List (List ℕ) → Bool → List Edge → List (List ℕ) → Result PlanError (Unit {0})
unfolding has add
check_communication executor workers self_loops [] keys = ok tt
check_communication executor workers self_loops (e ∷ edges) keys =
    guard (not (has keys (edge_key e))) (duplicate_edge e)
    >> guard (text_eq e.from executor) (foreign_source e)
    >> guard (has workers e.to) (unknown_target e)
    >> guard (self_loops || not (text_eq e.from e.to)) (self_loop e)
    >> check_communication executor workers self_loops edges (add keys (edge_key e))

abbrev pub plan_nodes : Plan → List Node
plan_nodes (dag plan) = plan.nodes
plan_nodes (graph plan) = plan.executor ∷ plan.workers
plan_nodes (discussion plan) = plan.participants

abbrev pub check_mode : Plan → List (List ℕ) → Result PlanError (Unit {0})
check_mode (dag plan) ids =
    check_dependencies ids plan.nodes
    >> check_edges ids (or_empty plan.edges)
    >> check_final ids plan.final_node_id
check_mode (discussion plan) ids = guard (has ids plan.chairman) (unknown_chairman plan.chairman)
check_mode (graph plan) ids =
    check_communication plan.executor.node_id (map (λ w. w.node_id) plan.workers)
      plan.allow_self_loop plan.communication_edges []

unfoldable pub validate_plan : Plan → Result PlanError (Unit {0})
unfolding check_unique check_dependencies check_edges check_final check_communication
validate_plan plan = check_unique (plan_nodes plan) [] >>= (λ ids. check_mode plan ids)
