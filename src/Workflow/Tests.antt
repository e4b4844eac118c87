-- ===== src/Workflow/Tests.antt =====
-- Runs of DAG plans as packages/core/src/workflow-engine.ts makes them, and the theorems at them.
use agent_phonon.Base.{
  ℕ, ◌≤◌, ◌≡◌, refl, true, false, not, List, [], ◌∷◌, none, some, All, ok, err, ◌==◌,
}
use agent_phonon.Js.Text.{text_eq, codes}
use agent_phonon.Workflow.Plan.{
  Node, DagPlan, dag, has, or_empty, validate_plan, unknown_dependency,
}
use agent_phonon.Workflow.Plan.Sound.{count_id, validate_plan_sound}
use agent_phonon.Workflow.State.{
  NodeState, completed, pending, World, OnNodeFailure, fail_workflow, skip_dependents, continue,
  started, finished, node_skipped, done, workflow_failed, cyclic, stale, failed, resume_nodes,
  empty_state,
}
use agent_phonon.Workflow.Dag.{DagPolicy, execute_dag}
use agent_phonon.Workflow.Dag.Progress.{is_exhausted}
use agent_phonon.Workflow.Dag.Termination.{execute_dag-ends}
use agent_phonon.Workflow.Dag.Required.{follows_plan}
use agent_phonon.Workflow.Dag.Starts.{starts_after_dependencies}
use agent_phonon.Workflow.Dag.Once.{count_started, starts_once}
use agent_phonon.Workflow.Dag.Settles.{done_settles}

abbrev a_id : List ℕ
a_id = codes "a"

abbrev b_id : List ℕ
b_id = codes "b"

abbrev c_id : List ℕ
c_id = codes "c"

abbrev d_id : List ℕ
d_id = codes "d"

abbrev node : List ℕ → List (List ℕ) → Node
node id deps = record { node_id = id; depends_on = some deps }

-- c and b wait for a, and d, by an edge, for b.
abbrev diamond : DagPlan
diamond = record {
  nodes = node d_id [] ∷ node c_id (a_id ∷ []) ∷ node b_id (a_id ∷ []) ∷ node a_id [] ∷ [];
  edges = some (record { from = b_id; to = d_id } ∷ []);
  final_node_id = some d_id;
}

abbrev loop_plan : DagPlan
loop_plan = record {
  nodes = node a_id (b_id ∷ []) ∷ node b_id (a_id ∷ []) ∷ [];
  edges = none;
  final_node_id = none;
}

abbrev policy : OnNodeFailure → DagPolicy
policy on_failure = record { on_node_failure = on_failure; max_parallel = some 1 }

abbrev b_fails : World
b_fails = record { fulfilled = λ id. not (text_eq id b_id); current = λ k. true }

abbrev is_lost : World
is_lost = record { fulfilled = λ id. true; current = λ k. k == 2 }

-- The node d does not run behind b.
skip_run :
    let (s, end) = execute_dag (policy skip_dependents) b_fails diamond [] in
    (s.trace
      ≡ node_skipped d_id
        ∷ finished b_id false
        ∷ started b_id
        ∷ finished c_id true
        ∷ started c_id
        ∷ finished a_id true
        ∷ started a_id
        ∷ [])
    × (end ≡ some done)
unfolding execute_dag text_eq
skip_run = (refl, refl)

fail_run : (execute_dag (policy fail_workflow) b_fails diamond []).1 ≡ some (workflow_failed b_id)
unfolding execute_dag text_eq
fail_run = refl

continue_run :
    (execute_dag (policy continue) b_fails diamond []).0.succeeded ≡ a_id ∷ c_id ∷ d_id ∷ []
unfolding execute_dag text_eq
continue_run = refl

-- A failed node counts as settled where the run is resumed.
resumed_run :
    (execute_dag
      (policy skip_dependents)
      b_fails
      diamond
      (record { node_id = a_id; status = failed } ∷ [])).0.trace
    ≡ node_skipped d_id ∷ node_skipped b_id ∷ node_skipped c_id ∷ []
unfolding execute_dag text_eq
resumed_run = refl

cyclic_run : (execute_dag (policy continue) b_fails loop_plan []).1 ≡ some cyclic
unfolding execute_dag text_eq
cyclic_run = refl

stale_run : (execute_dag (policy continue) is_lost diamond []).1 ≡ some stale
unfolding execute_dag text_eq
stale_run = refl

valid_run : validate_plan (dag diamond) ≡ ok tt
unfolding validate_plan text_eq
valid_run = refl

unknown_run :
    validate_plan (dag (record diamond { nodes = node a_id (c_id ∷ []) ∷ [] }))
    ≡ err (unknown_dependency c_id)
unfolding validate_plan text_eq
unknown_run = refl

execute_dag-ends_example :
    is_exhausted (execute_dag (policy skip_dependents) b_fails diamond []).1 ≡ false
execute_dag-ends_example = execute_dag-ends (policy skip_dependents) b_fails diamond [] (λ e. cc)

starts_after_dependencies_example :
    follows_plan false empty_state diamond
      (execute_dag (policy skip_dependents) b_fails diamond []).0.trace
    ≡ true
unfolding resume_nodes
starts_after_dependencies_example =
    starts_after_dependencies (policy skip_dependents) b_fails diamond []

validate_plan_sound_example :
    ((id : List ℕ) → count_id diamond.nodes id ≤ 1)
    × All (λ n. All (λ d. count_id diamond.nodes d ≡ 1) (or_empty n.depends_on)) diamond.nodes
    × All
        (λ e. (count_id diamond.nodes e.from ≡ 1) × (count_id diamond.nodes e.to ≡ 1))
        (or_empty diamond.edges)
validate_plan_sound_example = validate_plan_sound diamond valid_run

starts_once_example :
    count_started (execute_dag (policy continue) b_fails diamond []).0.trace a_id ≤ 1
starts_once_example = starts_once (policy continue) b_fails diamond [] a_id valid_run

abbrev resumed : List NodeState
resumed =
    record { node_id = a_id; status = completed } ∷ record { node_id = b_id; status = pending } ∷ []

end_run : (execute_dag (policy skip_dependents) b_fails diamond resumed).1 ≡ some done
unfolding execute_dag text_eq
end_run = refl

done_settles_example :
    All
      (λ n.
        has (execute_dag (policy skip_dependents) b_fails diamond resumed).0.settled n.node_id
        ≡ true)
      diamond.nodes
unfolding count_id text_eq
done_settles_example =
    done_settles (policy skip_dependents) b_fails diamond resumed valid_run (refl, (refl, tt))
      end_run
