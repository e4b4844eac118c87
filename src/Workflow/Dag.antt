-- ===== src/Workflow/Dag.antt =====
-- `executeDag` of packages/core/src/workflow-engine.ts. What `executeNode` comes to for a node, and
-- whether the run is still the engine's at each `assertCurrent`, are parameters.
pub mod Sets
pub mod Required
pub mod Order
pub mod Progress
pub mod Termination
pub mod Starts
pub mod Once
pub mod Done
pub mod Settles
use agent_phonon.Base.{
  ℕ, zero, suc, ◌+◌, ◌-◌, Bool, true, false, not, ◌&&◌, ◌||◌, List, [], ◌∷◌, ◌++◌, Option, none,
  some, if◌then◌else◌, ltb, ◌==◌, length, any,
}
use agent_phonon.Js.Text.{text_eq}
use agent_phonon.Workflow.Plan.{Node, Edge, DagPlan, or_empty, has, add}
use agent_phonon.Workflow.State.{
  OnNodeFailure, NodeStatus, NodeState, World, Entry, DagState, DagEnd, deps_of, set_deps, add_dep,
  to_set, node_deps, edge_deps, dag_deps, resume_node, resume_nodes, empty_state, fail_workflow,
  skip_dependents, continue, pending, ready, running, paused, completed, failed, skipped, cancelled,
  started, finished, node_skipped, done, stale, cyclic, workflow_failed, out_of_fuel,
}

-- `[...ds].every(d => settled.has(d))`.
unfoldable pub all_in : List (List ℕ) → List (List ℕ) → Bool
unfolding has
all_in set [] = true
all_in set (d ∷ ds) = has set d && all_in set ds

unfoldable pub ready_nodes : List (List ℕ × List (List ℕ)) → List (List ℕ) → List Node → List Node
unfolding has deps_of all_in
ready_nodes deps settled [] = []
ready_nodes deps settled (n ∷ nodes) =
    let rest = ready_nodes deps settled nodes in
    if not (has settled n.node_id) && all_in settled (deps_of deps n.node_id)
    then n ∷ rest
    else rest

-- `skipped.has(d) || (!succeeded.has(d) && settled.has(d))` for one of the dependencies.
unfoldable pub is_blocked : DagState → List (List ℕ) → Bool
unfolding has
is_blocked s [] = false
is_blocked s (d ∷ ds) =
    (has s.skipped d || (not (has s.succeeded d) && has s.settled d)) || is_blocked s ds

-- The nodes of a list that are blocked, and the others.
unfoldable pub blocked_nodes : List (List ℕ × List (List ℕ)) → DagState → List Node → List Node
unfolding is_blocked deps_of
blocked_nodes deps s [] = []
blocked_nodes deps s (n ∷ nodes) =
    let rest = blocked_nodes deps s nodes in
    if is_blocked s (deps_of deps n.node_id) then n ∷ rest else rest

unfoldable pub free_nodes : List (List ℕ × List (List ℕ)) → DagState → List Node → List Node
unfolding is_blocked deps_of
free_nodes deps s [] = []
free_nodes deps s (n ∷ nodes) =
    let rest = free_nodes deps s nodes in
    if is_blocked s (deps_of deps n.node_id) then rest else n ∷ rest

abbrev pub skip_node : DagState → Node → DagState
skip_node s n = record s {
  settled = add s.settled n.node_id;
  skipped = add s.skipped n.node_id;
  trace = node_skipped n.node_id ∷ s.trace;
}

unfoldable pub skip_nodes : List Node → DagState → DagState
unfolding add
skip_nodes [] s = s
skip_nodes (n ∷ nodes) s = skip_nodes nodes (skip_node s n)

unfoldable pub start_nodes : List Node → DagState → DagState
start_nodes [] s = s
start_nodes (n ∷ batch) s = start_nodes batch (record s { trace = started n.node_id ∷ s.trace })

abbrev pub finish_node : DagState → Node → Bool → DagState
finish_node s n fulfilled = record s {
  settled = add s.settled n.node_id;
  succeeded = if fulfilled then add s.succeeded n.node_id else s.succeeded;
  trace = finished n.node_id fulfilled ∷ s.trace;
}

abbrev pub fails_run : OnNodeFailure → Bool
fails_run fail_workflow = true
fails_run skip_dependents = false
fails_run continue = false

abbrev pub runs_blocked : OnNodeFailure → Bool
runs_blocked fail_workflow = false
runs_blocked skip_dependents = false
runs_blocked continue = true

-- The loop over the results of a batch, up to the first that fails the run.
unfoldable pub finish_batch :
    OnNodeFailure → World → List Node → DagState → DagState × Option DagEnd
unfolding add
finish_batch policy world [] s = (s, none)
finish_batch policy world (n ∷ batch) s =
    let returns = world.fulfilled n.node_id in
    let next = finish_batch policy world batch (finish_node s n returns) in
    if not returns && fails_run policy
    then (finish_node s n returns, some (workflow_failed n.node_id))
    else next

-- `slice(i, i + size)`, and what is behind it.
unfoldable pub take_nodes : ℕ → List Node → List Node
take_nodes zero nodes = []
take_nodes (suc size) [] = []
take_nodes (suc size) (n ∷ nodes) = n ∷ take_nodes size nodes

unfoldable pub drop_nodes : ℕ → List Node → List Node
drop_nodes zero nodes = nodes
drop_nodes (suc size) [] = []
drop_nodes (suc size) (n ∷ nodes) = drop_nodes size nodes

-- One batch: start it, `assertCurrent` behind the wait, and the results.
unfoldable pub run_batch : OnNodeFailure → World → List Node → DagState → DagState × Option DagEnd
unfolding start_nodes finish_batch
run_batch policy world batch s =
    let waited = start_nodes batch s in
    let checked = record waited { checks = waited.checks + 1 } in
    if world.current waited.checks
    then finish_batch policy world batch checked
    else (checked, some stale)

-- What ends the run ends it; otherwise the rest of the loop follows.
abbrev pub and_then : DagState × Option DagEnd → DagState × Option DagEnd → DagState × Option DagEnd
and_then (s, some end) rest = (s, some end)
and_then (s, none) rest = rest

-- The loop over the batches; the fuel is the number of nodes.
unfoldable pub run_batches :
    ℕ → OnNodeFailure → World → ℕ → List Node → DagState → DagState × Option DagEnd
unfolding run_batch take_nodes drop_nodes
run_batches fuel policy world size [] s = (s, none)
run_batches zero policy world size (n ∷ nodes) s = (s, some out_of_fuel)
run_batches (suc fuel) policy world size (n ∷ nodes) s =
    let r = run_batch policy world (take_nodes size (n ∷ nodes)) s in
    let rest = run_batches fuel policy world size (drop_nodes size (n ∷ nodes)) r.0 in
    and_then r rest

pub record DagPolicy : Type 0 where
  pub on_node_failure : OnNodeFailure
  pub max_parallel : Option ℕ

-- `run.policy.maxParallel ?? runnable.length`.
abbrev pub batch_size : Option ℕ → List Node → ℕ
batch_size none runnable = length runnable
batch_size (some n) runnable = n

-- The nodes that may run, in batches.
unfoldable pub run_runnable :
    DagPolicy → World → List Node → List Node → DagState → DagState × Option DagEnd
unfolding run_batches
run_runnable policy world blocked runnable s =
    if length runnable == 0 && ltb 0 (length blocked)
    then (s, none)
    else run_batches (length runnable) policy.on_node_failure world
        (batch_size policy.max_parallel runnable) runnable s

-- What follows once there is a ready node.
unfoldable pub run_ready :
    DagPolicy
    → World
    → List (List ℕ × List (List ℕ))
    → List Node
    → DagState
    → DagState × Option DagEnd
unfolding blocked_nodes free_nodes skip_nodes run_runnable
run_ready policy world deps ready_now s =
    let blocked = blocked_nodes deps s ready_now in
    if runs_blocked policy.on_node_failure
    then run_runnable policy world blocked ready_now s
    else run_runnable policy world blocked (free_nodes deps s ready_now) (skip_nodes blocked s)

-- One turn of the loop.
unfoldable pub wave :
    DagPolicy
    → World
    → List (List ℕ × List (List ℕ))
    → List Node
    → DagState
    → DagState × Option DagEnd
unfolding ready_nodes run_ready
wave policy world deps nodes s =
    let ready_now = ready_nodes deps s.settled nodes in
    let checked = record s { checks = s.checks + 1 } in
    if not (ltb (length s.settled) (length nodes))
    then (s, some done)
    else if not (world.current s.checks)
    then (checked, some stale)
    else if length ready_now == 0
    then (checked, some cyclic)
    else run_ready policy world deps ready_now checked

unfoldable pub run_dag :
    ℕ
    → DagPolicy
    → World
    → List (List ℕ × List (List ℕ))
    → List Node
    → DagState
    → DagState × Option DagEnd
unfolding wave
run_dag zero policy world deps nodes s = (s, some out_of_fuel)
run_dag (suc fuel) policy world deps nodes s =
    let w = wave policy world deps nodes s in
    let rest = run_dag fuel policy world deps nodes w.0 in and_then w rest

unfoldable pub execute_dag : DagPolicy → World → DagPlan → List NodeState → DagState × Option DagEnd
unfolding run_dag dag_deps resume_nodes
execute_dag policy world plan states =
    run_dag (length plan.nodes + 1) policy world (dag_deps plan) plan.nodes
      (resume_nodes policy.on_node_failure states empty_state)
