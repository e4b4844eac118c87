-- ===== src/Workflow/Dag/Once.antt =====
-- How often `executeDag` of packages/core/src/workflow-engine.ts starts a node.
use agent_phonon.Base.{
  ℕ, zero, suc, ◌+◌, ◌≤◌, ◌≡◌, refl, ap, sym, subst, true, false, not, ◌&&◌, List, [], ◌∷◌,
  if◌then◌else◌, arith, if_both, Option, length, ltb, ◌==◌, ok,
}
use agent_phonon.Js.Text.{text_eq}
use agent_phonon.Js.Text.Order.{text_eq_iff}
use agent_phonon.Workflow.Plan.{Node, has, DagPlan, dag, validate_plan}
use agent_phonon.Workflow.Plan.Sound.{count_id, validate_plan_sound}
use agent_phonon.Workflow.State.{
  DagState, Entry, started, finished, node_skipped, OnNodeFailure, World, DagEnd, NodeState,
  empty_state, resume_nodes, dag_deps,
}
use agent_phonon.Workflow.Dag.{
  DagPolicy, ready_nodes, blocked_nodes, free_nodes, skip_nodes, skip_node, start_nodes,
  finish_batch, finish_node, run_batch, run_batches, take_nodes, drop_nodes, run_ready,
  run_runnable, wave, run_dag, execute_dag, runs_blocked, batch_size, fails_run,
}
use agent_phonon.Workflow.Dag.Progress.{and_then_both, goes_on, settled-start_nodes}
use agent_phonon.Workflow.Dag.Sets.{has-add}
use agent_phonon.Workflow.Dag.Starts.{resume_nodes-trace}

unfoldable pub count_started : List Entry → List ℕ → ℕ
count_started [] id = 0
count_started (started i ∷ trace) id = (if text_eq i id then 1 else 0) + count_started trace id
count_started (finished i returns ∷ trace) id = count_started trace id
count_started (node_skipped i ∷ trace) id = count_started trace id

module _ (id : List ℕ) where
  -- The node has started at most once, and not if it is not settled.
  abbrev IsOnce : DagState → Type 0
  IsOnce s = count_started s.trace id ≤ (if has s.settled id then 1 else 0)

  abbrev Once : DagState × Option DagEnd → Type 0
  Once r = (count_started r.0.trace id ≤ 1) × (goes_on r.1 ≡ true → IsOnce r.0)

  count-start_nodes :
      (batch : List Node) (s : DagState)
      → count_started (start_nodes batch s).trace id ≡ count_id batch id + count_started s.trace id
  unfolding start_nodes count_started count_id
  count-start_nodes [] s = omega arith
  count-start_nodes (n ∷ batch) s =
      omega (arith, count-start_nodes batch (record s { trace = started n.node_id ∷ s.trace }))

  count-finish_batch :
      (policy : OnNodeFailure) (world : World) (batch : List Node) (s : DagState)
      → let r = finish_batch policy world batch s in
        (count_started r.0.trace id ≡ count_started s.trace id)
        × (has s.settled id ≡ true → has r.0.settled id ≡ true)
        × (goes_on r.1 ≡ true → has r.0.settled id ≡ false → count_id batch id ≡ 0)
  unfolding finish_batch count_started count_id
  count-finish_batch policy world [] s = (refl, λ h. h, λ g h. refl)
  count-finish_batch policy world (n ∷ batch) s =
      let next = finish_node s n (world.fulfilled n.node_id) in
      let ih = count-finish_batch policy world batch next in
      let added = has-add s.settled n.node_id id in
      if_both
        (λ (r : DagState × Option DagEnd).
          (count_started r.0.trace id ≡ count_started s.trace id)
          × (has s.settled id ≡ true → has r.0.settled id ≡ true)
          × (goes_on r.1 ≡ true → has r.0.settled id ≡ false → count_id (n ∷ batch) id ≡ 0))
        (not (world.fulfilled n.node_id) && fails_run policy)
        (λ _. (refl, λ h. ground (arith, added), λ g h. cc))
        (λ _.
          (ih.0, λ h. ground (arith, added, ih.1), λ g h. ground (arith, added, ih.1, ih.2 g h)))

  count-skip_nodes :
      (nodes : List Node) (s : DagState)
      → (count_started (skip_nodes nodes s).trace id ≡ count_started s.trace id)
        × (has s.settled id ≡ true → has (skip_nodes nodes s).settled id ≡ true)
  unfolding skip_nodes count_started
  count-skip_nodes [] s = (refl, λ h. h)
  count-skip_nodes (n ∷ nodes) s =
      let ih = count-skip_nodes nodes (skip_node s n) in
      (ih.0, λ h. ground (arith, ih.1, has-add s.settled n.node_id id))

  count-take_nodes :
      (size : ℕ) (nodes : List Node)
      → count_id (take_nodes size nodes) id + count_id (drop_nodes size nodes) id
        ≡ count_id nodes id
  unfolding take_nodes drop_nodes count_id
  count-take_nodes zero nodes = omega arith
  count-take_nodes (suc size) [] = omega arith
  count-take_nodes (suc size) (n ∷ nodes) = omega (arith, count-take_nodes size nodes)

  count-ready_nodes :
      (deps : List (List ℕ × List (List ℕ))) (settled : List (List ℕ)) (nodes : List Node)
      → count_id (ready_nodes deps settled nodes) id
        ≤ (if has settled id then 0 else count_id nodes id)
  unfolding ready_nodes count_id
  count-ready_nodes deps settled [] = ground arith
  count-ready_nodes deps settled (n ∷ nodes) =
      ground (arith, count-ready_nodes deps settled nodes, text_eq_iff n.node_id id)

  count-free_nodes :
      (deps : List (List ℕ × List (List ℕ))) (s : DagState) (nodes : List Node)
      → count_id (free_nodes deps s nodes) id ≤ count_id nodes id
  unfolding free_nodes count_id
  count-free_nodes deps s [] = omega arith
  count-free_nodes deps s (n ∷ nodes) = ground (arith, count-free_nodes deps s nodes)

  run_batch-Once :
      (policy : OnNodeFailure) (world : World) (batch : List Node) (s : DagState)
      → count_started s.trace id + count_id batch id ≤ 1
      → IsOnce s
      → Once (run_batch policy world batch s)
        × (count_started (run_batch policy world batch s).0.trace id
            ≡ count_started s.trace id + count_id batch id)
  unfolding run_batch
  run_batch-Once policy world batch s le o =
      let waited = start_nodes batch s in
      let checked = record waited { checks = waited.checks + 1 } in
      let first = count-start_nodes batch s in
      let same = settled-start_nodes batch s in
      let (kept, grows, ends) = count-finish_batch policy world batch checked in
      if_both
        (λ (r : DagState × Option DagEnd).
          Once r × (count_started r.0.trace id ≡ count_started s.trace id + count_id batch id))
        (world.current waited.checks)
        (λ _. (
          (
            omega (arith, kept, first),
            λ go. ground (arith, kept, first, ends go, grows, ap (λ l. has l id) same, o),
          ),
          omega (arith, kept, first),
        ))
        (λ _. ((omega (arith, first), λ go. cc), omega (arith, first)))

  run_batches-Once :
      (fuel : ℕ) (policy : OnNodeFailure) (world : World) (size : ℕ) (nodes : List Node)
      (s : DagState)
      → count_started s.trace id + count_id nodes id ≤ 1
      → IsOnce s
      → Once (run_batches fuel policy world size nodes s)
  unfolding run_batches
  run_batches-Once fuel policy world size [] s le o = (omega arith, λ go. o)
  run_batches-Once zero policy world size (n ∷ nodes) s le o = (omega arith, λ go. cc)
  run_batches-Once (suc fuel) policy world size (n ∷ nodes) s le o =
      let batch = take_nodes size (n ∷ nodes) in
      let rest = drop_nodes size (n ∷ nodes) in
      let r = run_batch policy world batch s in
      let sum = count-take_nodes size (n ∷ nodes) in
      let (one, total) = run_batch-Once policy world batch s (omega (arith, sum)) o in
      and_then_both Once r _
        (λ go.
          run_batches-Once fuel policy world size rest r.0 (omega (arith, sum, total)) (one.1 go))
        (λ stop. (one.0, λ go. cc))

  run_runnable-Once :
      (policy : DagPolicy) (world : World) (blocked runnable : List Node) (s : DagState)
      → count_started s.trace id + count_id runnable id ≤ 1
      → IsOnce s
      → Once (run_runnable policy world blocked runnable s)
  unfolding run_runnable
  run_runnable-Once policy world blocked runnable s le o =
      if_both Once (length runnable == 0 && ltb 0 (length blocked)) (λ _. (omega arith, λ _. o))
        (λ _.
          run_batches-Once (length runnable) policy.on_node_failure world
            (batch_size policy.max_parallel runnable) runnable s le o)

  run_ready-Once :
      (policy : DagPolicy) (world : World) (deps : List (List ℕ × List (List ℕ)))
      (nodes : List Node) (s : DagState)
      → count_started s.trace id + count_id nodes id ≤ 1
      → IsOnce s
      → Once (run_ready policy world deps nodes s)
  unfolding run_ready
  run_ready-Once policy world deps nodes s le o =
      let blocked = blocked_nodes deps s nodes in
      let free = free_nodes deps s nodes in
      let skips = count-skip_nodes blocked s in
      if_both Once (runs_blocked policy.on_node_failure)
        (λ _. run_runnable-Once policy world blocked nodes s le o)
        (λ _.
          run_runnable-Once policy world blocked free (skip_nodes blocked s)
            (omega (arith, skips.0, count-free_nodes deps s nodes))
            (ground (arith, skips.0, skips.1, o)))

  wave-Once :
      (policy : DagPolicy) (world : World) (deps : List (List ℕ × List (List ℕ)))
      (nodes : List Node) (s : DagState)
      → count_id nodes id ≤ 1
      → IsOnce s
      → Once (wave policy world deps nodes s)
  unfolding wave
  wave-Once policy world deps nodes s unique o =
      let checked = record s { checks = s.checks + 1 } in
      let ready_now = ready_nodes deps s.settled nodes in
      let at_most : count_started s.trace id ≤ 1 = ground arith in
      if_both Once (not (ltb (length s.settled) (length nodes))) (λ _. (at_most, λ go. cc))
        (λ _.
          if_both Once (not (world.current s.checks)) (λ _. (at_most, λ go. cc))
            (λ _.
              if_both Once (length ready_now == 0) (λ _. (at_most, λ go. cc))
                (λ _.
                  run_ready-Once policy world deps ready_now checked
                    (ground (arith, o, count-ready_nodes deps s.settled nodes)) o)))

  run_dag-once :
      (fuel : ℕ) (policy : DagPolicy) (world : World) (deps : List (List ℕ × List (List ℕ)))
      (nodes : List Node) (s : DagState)
      → count_id nodes id ≤ 1
      → IsOnce s
      → count_started (run_dag fuel policy world deps nodes s).0.trace id ≤ 1
  unfolding run_dag
  run_dag-once zero policy world deps nodes s unique o = ground arith
  run_dag-once (suc fuel) policy world deps nodes s unique o =
      let w = wave policy world deps nodes s in
      let one = wave-Once policy world deps nodes s unique o in
      and_then_both (λ r. count_started r.0.trace id ≤ 1) w _
        (λ go. run_dag-once fuel policy world deps nodes w.0 unique (one.1 go)) (λ stop. one.0)

-- A plan that passes the check never starts a node twice in one run, whatever the nodes come to and
-- whatever state is resumed.
pub starts_once :
    (policy : DagPolicy) (world : World) (plan : DagPlan) (states : List NodeState) (id : List ℕ)
    → validate_plan (dag plan) ≡ ok tt
    → count_started (execute_dag policy world plan states).0.trace id ≤ 1
unfolding execute_dag count_started
starts_once policy world plan states id valid =
    let start = resume_nodes policy.on_node_failure states empty_state in
    let none_yet = resume_nodes-trace policy.on_node_failure states empty_state in
    let fresh : count_started start.trace id ≡ 0 =
      subst (λ t. count_started t id ≡ 0) (sym none_yet) refl in
    run_dag-once id (length plan.nodes + 1) policy world (dag_deps plan) plan.nodes start
      ((validate_plan_sound plan valid).0 id) (omega (arith, fresh))
