-- ===== src/Workflow/State.antt =====
-- The state of `executeDag` in packages/core/src/workflow-engine.ts: the dependencies of a plan, the
-- sets of the loop, and what a resumed run brings.
use agent_phonon.Base.{ℕ, Bool, List, [], ◌∷◌, if◌then◌else◌}
use agent_phonon.Js.Text.{text_eq}
use agent_phonon.Workflow.Plan.{Node, Edge, DagPlan, or_empty, add}

pub data OnNodeFailure : Type 0 where
  fail_workflow skip_dependents continue : OnNodeFailure

pub data NodeStatus : Type 0 where
  pending ready running paused completed failed skipped cancelled : NodeStatus

-- What a run has of a node before the loop.
pub record NodeState : Type 0 where
  pub node_id : List ℕ
  pub status : NodeStatus

-- `fulfilled`: `executeNode` returns for the node. `current`: the call of `assertCurrent` with the
-- number passes, which it does only while the status of the run is running.
pub record World : Type 0 where
  pub fulfilled : List ℕ → Bool
  pub current : ℕ → Bool

pub data Entry : Type 0 where
  started : List ℕ → Entry
  finished : List ℕ → Bool → Entry
  node_skipped : List ℕ → Entry

-- The sets of the code; `trace` has what happened to nodes, the last first, and `checks` counts the
-- calls of `assertCurrent`.
pub record DagState : Type 0 where
  pub settled : List (List ℕ)
  pub succeeded : List (List ℕ)
  pub skipped : List (List ℕ)
  pub trace : List Entry
  pub checks : ℕ

pub data DagEnd : Type 0 where
  done stale cyclic : DagEnd
  workflow_failed : List ℕ → DagEnd
  out_of_fuel : DagEnd

-- The map `deps`.
unfoldable pub deps_of : List (List ℕ × List (List ℕ)) → List ℕ → List (List ℕ)
unfolding text_eq
deps_of [] id = []
deps_of ((k, ds) ∷ deps) id = if text_eq k id then ds else deps_of deps id

unfoldable pub set_deps :
    List (List ℕ × List (List ℕ)) → List ℕ → List (List ℕ) → List (List ℕ × List (List ℕ))
unfolding text_eq
set_deps [] id ds = (id, ds) ∷ []
set_deps ((k, old) ∷ deps) id ds =
    let rest = set_deps deps id ds in if text_eq k id then (k, ds) ∷ deps else (k, old) ∷ rest

-- `deps.get(e.to)?.add(e.from)`.
unfoldable pub add_dep : List (List ℕ × List (List ℕ)) → Edge → List (List ℕ × List (List ℕ))
unfolding text_eq add
add_dep [] e = []
add_dep ((k, ds) ∷ deps) e =
    let rest = add_dep deps e in
    if text_eq k e.to then (k, add ds e.from) ∷ deps else (k, ds) ∷ rest

-- `new Set(ids)`.
unfoldable pub to_set : List (List ℕ) → List (List ℕ) → List (List ℕ)
unfolding add
to_set [] set = set
to_set (id ∷ ids) set = to_set ids (add set id)

unfoldable pub node_deps : List Node → List (List ℕ × List (List ℕ)) → List (List ℕ × List (List ℕ))
unfolding set_deps to_set
node_deps [] deps = deps
node_deps (n ∷ nodes) deps =
    node_deps nodes (set_deps deps n.node_id (to_set (or_empty n.depends_on) []))

unfoldable pub edge_deps : List Edge → List (List ℕ × List (List ℕ)) → List (List ℕ × List (List ℕ))
unfolding add_dep
edge_deps [] deps = deps
edge_deps (e ∷ edges) deps = edge_deps edges (add_dep deps e)

unfoldable pub dag_deps : DagPlan → List (List ℕ × List (List ℕ))
unfolding node_deps edge_deps
dag_deps plan = edge_deps (or_empty plan.edges) (node_deps plan.nodes [])

-- What counts as settled where a run is resumed.
abbrev pub resume_node : OnNodeFailure → DagState → List ℕ → NodeStatus → DagState
resume_node policy s id completed = record s {
  settled = add s.settled id;
  succeeded = add s.succeeded id;
}
resume_node policy s id skipped = record s {
  settled = add s.settled id;
  skipped = add s.skipped id;
}
resume_node skip_dependents s id failed = record s { settled = add s.settled id }
resume_node continue s id failed = record s { settled = add s.settled id }
resume_node fail_workflow s id failed = s
resume_node policy s id _ = s

unfoldable pub resume_nodes : OnNodeFailure → List NodeState → DagState → DagState
unfolding add
resume_nodes policy [] s = s
resume_nodes policy (n ∷ nodes) s =
    resume_nodes policy nodes (resume_node policy s n.node_id n.status)

abbrev pub empty_state : DagState
empty_state = record { settled = []; succeeded = []; skipped = []; trace = []; checks = 0 }
