-- ===== src/Workflow/Dag/Settles.antt =====
-- Where `executeDag` of packages/core/src/workflow-engine.ts is done, no node is left.
use agent_phonon.Base.{
  ℕ, zero, suc, ◌+◌, ◌≤◌, ◌≡◌, refl, ap, Bool, true, false, not, ◌&&◌, List, [], ◌∷◌, arith,
  if_both, Option, none, some, length, ltb, ◌==◌, ok, All,
}
use agent_phonon.Js.Text.Order.{text_eq_refl}
use agent_phonon.Workflow.Plan.{Node, has, DagPlan, dag, validate_plan}
use agent_phonon.Workflow.Plan.Sound.{count_id, validate_plan_sound, All-map}
use agent_phonon.Workflow.State.{
  DagState, OnNodeFailure, World, DagEnd, NodeState, NodeStatus, done, stale, cyclic,
  workflow_failed, out_of_fuel, empty_state, resume_node, resume_nodes, dag_deps, pending, ready,
  running, paused, completed, failed, skipped, cancelled, fail_workflow, skip_dependents, continue,
}
use agent_phonon.Workflow.Dag.{
  DagPolicy, ready_nodes, blocked_nodes, free_nodes, skip_nodes, start_nodes, finish_batch,
  finish_node, run_batch, run_batches, take_nodes, drop_nodes, run_ready, run_runnable, wave,
  run_dag, execute_dag, runs_blocked, batch_size,
}
use agent_phonon.Workflow.Dag.Progress.{and_then_both}
use agent_phonon.Workflow.Dag.Done.{
  count_open, count_open-zero, AllKnown, IsBalanced, add-IsBalanced, skip_nodes-IsBalanced,
  ready-AllKnown, split-AllKnown, run_batches-IsBalanced,
}

abbrev is_done : Option DagEnd → Bool
is_done none = false
is_done (some done) = true
is_done (some stale) = false
is_done (some cyclic) = false
is_done (some (workflow_failed id)) = false
is_done (some out_of_fuel) = false

finish_batch-is_done :
    (policy : OnNodeFailure) (world : World) (batch : List Node) (s : DagState)
    → is_done (finish_batch policy world batch s).1 ≡ false
unfolding finish_batch
finish_batch-is_done policy world [] s = refl
finish_batch-is_done policy world (n ∷ batch) s =
    ground
      (arith, finish_batch-is_done policy world batch (finish_node s n (world.fulfilled n.node_id)))

run_batch-is_done :
    (policy : OnNodeFailure) (world : World) (batch : List Node) (s : DagState)
    → is_done (run_batch policy world batch s).1 ≡ false
unfolding run_batch
run_batch-is_done policy world batch s =
    let waited = start_nodes batch s in
    let checked = record waited { checks = waited.checks + 1 } in
    if_both (λ (r : DagState × Option DagEnd). is_done r.1 ≡ false) (world.current waited.checks)
      (λ _. finish_batch-is_done policy world batch checked) (λ _. refl)

run_batches-is_done :
    (fuel : ℕ) (policy : OnNodeFailure) (world : World) (size : ℕ) (nodes : List Node)
    (s : DagState)
    → is_done (run_batches fuel policy world size nodes s).1 ≡ false
unfolding run_batches
run_batches-is_done fuel policy world size [] s = refl
run_batches-is_done zero policy world size (n ∷ nodes) s = refl
run_batches-is_done (suc fuel) policy world size (n ∷ nodes) s =
    let batch = take_nodes size (n ∷ nodes) in
    let r = run_batch policy world batch s in
    and_then_both (λ q. is_done q.1 ≡ false) r _
      (λ _. run_batches-is_done fuel policy world size (drop_nodes size (n ∷ nodes)) r.0)
      (λ _. run_batch-is_done policy world batch s)

module _ (nodes : List Node) where
  -- Settled and open nodes are all nodes, and behind the end there are as many settled as nodes.
  abbrev Ended : DagState × Option DagEnd → Type 0
  Ended r = IsBalanced nodes r.0.settled × (is_done r.1 ≡ true → length nodes ≤ length r.0.settled)

  run_runnable-Ended :
      (policy : DagPolicy) (world : World) (blocked runnable : List Node) (s : DagState)
      → AllKnown nodes runnable
      → IsBalanced nodes s.settled
      → Ended (run_runnable policy world blocked runnable s)
  unfolding run_runnable
  run_runnable-Ended policy world blocked runnable s k b =
      let size = batch_size policy.max_parallel runnable in
      let fuel = length runnable in
      let never = run_batches-is_done fuel policy.on_node_failure world size runnable s in
      if_both Ended (length runnable == 0 && ltb 0 (length blocked)) (λ _. (b, λ d. cc))
        (λ _. (
          run_batches-IsBalanced nodes fuel policy.on_node_failure world size runnable s k b,
          λ d. ground (arith, never),
        ))

  run_ready-Ended :
      (policy : DagPolicy) (world : World) (deps : List (List ℕ × List (List ℕ)))
      (ready_now : List Node) (s : DagState)
      → AllKnown nodes ready_now
      → IsBalanced nodes s.settled
      → Ended (run_ready policy world deps ready_now s)
  unfolding run_ready
  run_ready-Ended policy world deps ready_now s k b =
      let blocked = blocked_nodes deps s ready_now in
      let free = free_nodes deps s ready_now in
      let split = split-AllKnown nodes deps s ready_now k in
      if_both Ended (runs_blocked policy.on_node_failure)
        (λ _. run_runnable-Ended policy world blocked ready_now s k b)
        (λ _.
          run_runnable-Ended policy world blocked free (skip_nodes blocked s) split.0
            (skip_nodes-IsBalanced nodes blocked s split.1 b))

  wave-Ended :
      (policy : DagPolicy) (world : World) (deps : List (List ℕ × List (List ℕ))) (s : DagState)
      → AllKnown nodes nodes
      → IsBalanced nodes s.settled
      → Ended (wave policy world deps nodes s)
  unfolding wave
  wave-Ended policy world deps s k b =
      let checked = record s { checks = s.checks + 1 } in
      let ready_now = ready_nodes deps s.settled nodes in
      if_both Ended (not (ltb (length s.settled) (length nodes))) (λ h. (b, λ d. ground arith))
        (λ _.
          if_both Ended (not (world.current s.checks)) (λ _. (b, λ d. cc))
            (λ _.
              if_both Ended (length ready_now == 0) (λ _. (b, λ d. cc))
                (λ _.
                  run_ready-Ended policy world deps ready_now checked
                    (ready-AllKnown nodes deps s.settled nodes k) b)))

  run_dag-Ended :
      (fuel : ℕ) (policy : DagPolicy) (world : World) (deps : List (List ℕ × List (List ℕ)))
      (s : DagState)
      → AllKnown nodes nodes
      → IsBalanced nodes s.settled
      → Ended (run_dag fuel policy world deps nodes s)
  unfolding run_dag
  run_dag-Ended zero policy world deps s k b = (b, λ d. cc)
  run_dag-Ended (suc fuel) policy world deps s k b =
      let w = wave policy world deps nodes s in
      let one = wave-Ended policy world deps s k b in
      and_then_both Ended w _ (λ _. run_dag-Ended fuel policy world deps w.0 k one.0) (λ _. one)

  resume_node-IsBalanced :
      (policy : OnNodeFailure) (s : DagState) (id : List ℕ) (status : NodeStatus)
      → count_id nodes id ≡ 1
      → IsBalanced nodes s.settled
      → IsBalanced nodes (resume_node policy s id status).settled
  resume_node-IsBalanced policy s id pending one b = b
  resume_node-IsBalanced policy s id ready one b = b
  resume_node-IsBalanced policy s id running one b = b
  resume_node-IsBalanced policy s id paused one b = b
  resume_node-IsBalanced policy s id completed one b = add-IsBalanced nodes s.settled id one b
  resume_node-IsBalanced fail_workflow s id failed one b = b
  resume_node-IsBalanced skip_dependents s id failed one b = add-IsBalanced nodes s.settled id one b
  resume_node-IsBalanced continue s id failed one b = add-IsBalanced nodes s.settled id one b
  resume_node-IsBalanced policy s id skipped one b = add-IsBalanced nodes s.settled id one b
  resume_node-IsBalanced policy s id cancelled one b = b

  resume_nodes-IsBalanced :
      (policy : OnNodeFailure) (states : List NodeState) (s : DagState)
      → All (λ n. count_id nodes n.node_id ≡ 1) states
      → IsBalanced nodes s.settled
      → IsBalanced nodes (resume_nodes policy states s).settled
  unfolding resume_nodes
  resume_nodes-IsBalanced policy [] s k b = b
  resume_nodes-IsBalanced policy (n ∷ states) s k b =
      resume_nodes-IsBalanced policy states (resume_node policy s n.node_id n.status) k.1
        (resume_node-IsBalanced policy s n.node_id n.status k.0 b)

count_open-empty : (nodes : List Node) → count_open nodes [] ≡ length nodes
unfolding count_open has
count_open-empty [] = refl
count_open-empty (n ∷ nodes) = omega (arith, count_open-empty nodes)

count_id-All : (nodes : List Node) → All (λ n. 1 ≤ count_id nodes n.node_id) nodes
unfolding count_id
count_id-All [] = tt
count_id-All (n ∷ nodes) = (
  ground (arith, text_eq_refl n.node_id),
  All-map nodes (λ m le. ground arith) (count_id-All nodes),
)

-- Where the loop comes to its end on a plan that passes the check, each node of the plan is settled,
-- if the nodes that the run was resumed with are the plan's.
pub done_settles :
    (policy : DagPolicy) (world : World) (plan : DagPlan) (states : List NodeState)
    → validate_plan (dag plan) ≡ ok tt
    → All (λ n. count_id plan.nodes n.node_id ≡ 1) states
    → (execute_dag policy world plan states).1 ≡ some done
    → All (λ n. has (execute_dag policy world plan states).0.settled n.node_id ≡ true) plan.nodes
unfolding execute_dag
done_settles policy world plan states valid from_plan end =
    let unique = (validate_plan_sound plan valid).0 in
    let known : AllKnown plan.nodes plan.nodes =
      All-map plan.nodes (λ n le. omega (arith, unique n.node_id)) (count_id-All plan.nodes) in
    let start = resume_nodes policy.on_node_failure states empty_state in
    let balanced =
      resume_nodes-IsBalanced plan.nodes policy.on_node_failure states empty_state from_plan
        (omega (arith, count_open-empty plan.nodes)) in
    let (b, ended) =
      run_dag-Ended plan.nodes (length plan.nodes + 1) policy world (dag_deps plan) start known
        balanced in
    count_open-zero plan.nodes _ (omega (arith, b, ended (ap is_done end)))
