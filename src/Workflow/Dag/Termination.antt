-- ===== src/Workflow/Dag/Termination.antt =====
-- Each turn of the loop of `executeDag` in packages/core/src/workflow-engine.ts settles a node or ends.
use agent_phonon.Base.{
  ℕ, zero, suc, ◌+◌, ◌-◌, ◌<◌, ◌≡◌, ◌≢◌, refl, true, false, not, List, [], ◌∷◌, Option, none, some,
  ltb, ◌==◌, length, arith, if_both,
}
use agent_phonon.Workflow.Plan.{Node, DagPlan}
use agent_phonon.Workflow.State.{
  World, DagState, DagEnd, NodeState, empty_state, resume_nodes, dag_deps,
}
use agent_phonon.Workflow.Dag.{
  DagPolicy, ready_nodes, blocked_nodes, free_nodes, skip_nodes, run_batches, run_ready,
  run_runnable, wave, run_dag, execute_dag, runs_blocked, batch_size,
}
use agent_phonon.Workflow.Dag.Progress.{
  unsettled, ready_nodes-unsettled, free_nodes-unsettled, length-skip_some, and_then_both,
  is_exhausted, goes_on, run_batches-exhausted, length-run_batches, length-run_batches_some,
}

-- What goes on has settled one more node, and fuel is no reason to end.
abbrev Progress : DagState → DagState × Option DagEnd → Type 0
Progress s r =
    (goes_on r.1 ≡ true → length s.settled < length r.0.settled) × (is_exhausted r.1 ≡ false)

batch_size-suc :
    (max_parallel : Option ℕ) (nodes : List Node)
    → max_parallel ≢ some 0
    → (length nodes == 0) ≡ false
    → (k : ℕ) × (batch_size max_parallel nodes ≡ suc k)
batch_size-suc none [] h e = (0, ground arith)
batch_size-suc none (n ∷ nodes) h e = (length nodes, refl)
batch_size-suc (some zero) nodes h e = elim (h refl) [ ]
batch_size-suc (some (suc k)) nodes h e = (k, refl)

run_batches-Progress :
    (policy : DagPolicy) (world : World) (nodes : List Node) (s : DagState)
    → policy.max_parallel ≢ some 0
    → unsettled s.settled nodes ≡ true
    → (length nodes == 0) ≡ false
    → Progress s (
        run_batches
          (length nodes)
          policy.on_node_failure
          world
          (batch_size policy.max_parallel nodes)
          nodes
          s)
run_batches-Progress policy world nodes s h u some_nodes =
    let (k, e) = batch_size-suc policy.max_parallel nodes h some_nodes in
    rw e (
      length-run_batches_some policy.on_node_failure world k nodes s u some_nodes,
      run_batches-exhausted (length nodes) policy.on_node_failure world k nodes s (omega arith),
    )

-- Skipped nodes count as settled.
run_runnable-Progress :
    (policy : DagPolicy) (world : World) (blocked runnable : List Node) (s : DagState)
    → policy.max_parallel ≢ some 0
    → unsettled s.settled runnable ≡ true
    → unsettled s.settled blocked ≡ true
    → (length runnable + length blocked == 0) ≡ false
    → Progress s (run_runnable policy world blocked runnable (skip_nodes blocked s))
unfolding run_runnable skip_nodes
run_runnable-Progress policy world [] runnable s h u b e =
    let some_nodes : (length runnable == 0) ≡ false = ground arith in
    rw some_nodes (run_batches-Progress policy world runnable s h u some_nodes)
run_runnable-Progress policy world (n ∷ blocked) [] s h u b e =
    let positive : ltb 0 (suc (length blocked)) ≡ true = ground arith in
    rw positive (λ _. length-skip_some (n ∷ blocked) s b (ground arith), refl)
run_runnable-Progress policy world (n ∷ blocked) (r ∷ runnable) s h u b e =
    let some_nodes : (suc (length runnable) == 0) ≡ false = ground arith in
    let (k, size) = batch_size-suc policy.max_parallel (r ∷ runnable) h some_nodes in
    let skipped = skip_nodes (n ∷ blocked) s in
    let fuel = length (r ∷ runnable) in
    rw (some_nodes, size)
      (
        λ _. omega (
          arith,
          length-skip_some (n ∷ blocked) s b (ground arith),
          length-run_batches fuel policy.on_node_failure world (suc k) (r ∷ runnable) skipped,
        ),
        run_batches-exhausted fuel policy.on_node_failure world k (r ∷ runnable) skipped
            (omega arith),
      )

run_ready-Progress :
    (policy : DagPolicy) (world : World) (deps : List (List ℕ × List (List ℕ))) (nodes : List Node)
    (s : DagState)
    → policy.max_parallel ≢ some 0
    → unsettled s.settled nodes ≡ true
    → (length nodes == 0) ≡ false
    → Progress s (run_ready policy world deps nodes s)
unfolding run_ready run_runnable
run_ready-Progress policy world deps nodes s h u some_nodes =
    let split = free_nodes-unsettled deps s s.settled nodes u in
    if_both (Progress s) (runs_blocked policy.on_node_failure)
      (λ _. rw some_nodes (run_batches-Progress policy world nodes s h u some_nodes))
      (λ _.
        run_runnable-Progress policy world (blocked_nodes deps s nodes) (free_nodes deps s nodes) s
          h split.0 split.1 (ground (arith, split.2)))

wave-Progress :
    (policy : DagPolicy) (world : World) (deps : List (List ℕ × List (List ℕ))) (nodes : List Node)
    (s : DagState)
    → policy.max_parallel ≢ some 0
    → Progress s (wave policy world deps nodes s)
unfolding wave
wave-Progress policy world deps nodes s h =
    let checked = record s { checks = s.checks + 1 } in
    if_both (Progress s) (not (ltb (length s.settled) (length nodes))) (λ _. (λ e. cc, refl))
      (λ _.
        if_both (Progress s) (not (world.current s.checks)) (λ _. (λ e. cc, refl))
          (λ _.
            if_both (Progress s) (length (ready_nodes deps s.settled nodes) == 0)
              (λ _. (λ e. cc, refl))
              (λ e.
                run_ready-Progress policy world deps (ready_nodes deps s.settled nodes) checked h
                  (ready_nodes-unsettled deps s.settled nodes) e)))

-- A turn that goes on had a node to settle.
wave-goes_on :
    (policy : DagPolicy) (world : World) (deps : List (List ℕ × List (List ℕ))) (nodes : List Node)
    (s : DagState)
    → goes_on (wave policy world deps nodes s).1 ≡ true
    → length s.settled < length nodes
unfolding wave
wave-goes_on policy world deps nodes s =
    if_both (λ (r : DagState × Option DagEnd). goes_on r.1 ≡ true → length s.settled < length nodes)
      (not (ltb (length s.settled) (length nodes))) (λ _ e. cc) (λ open_ e. ground arith)

run_dag-ends :
    (fuel : ℕ) (policy : DagPolicy) (world : World) (deps : List (List ℕ × List (List ℕ)))
    (nodes : List Node) (s : DagState)
    → policy.max_parallel ≢ some 0
    → length nodes - length s.settled < fuel
    → is_exhausted (run_dag fuel policy world deps nodes s).1 ≡ false
unfolding run_dag
run_dag-ends zero policy world deps nodes s h le = ground arith
run_dag-ends (suc fuel) policy world deps nodes s h le =
    let w = wave policy world deps nodes s in
    let progress = wave-Progress policy world deps nodes s h in
    and_then_both (λ r. is_exhausted r.1 ≡ false) w _
      (λ go.
        run_dag-ends fuel policy world deps nodes w.0 h
          (omega (arith, progress.0 go, wave-goes_on policy world deps nodes s go)))
      (λ stop. progress.1)

-- The loop ends by itself, for any plan, any outcome of its nodes and any state that it resumes, if
-- the limit on parallel nodes is not 0: the fuel never runs out.
pub execute_dag-ends :
    (policy : DagPolicy) (world : World) (plan : DagPlan) (states : List NodeState)
    → policy.max_parallel ≢ some 0
    → is_exhausted (execute_dag policy world plan states).1 ≡ false
unfolding execute_dag
execute_dag-ends policy world plan states h =
    run_dag-ends (length plan.nodes + 1) policy world (dag_deps plan) plan.nodes
      (resume_nodes policy.on_node_failure states empty_state) h (omega arith)
