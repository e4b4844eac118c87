-- ===== src/Workflow/Dag/Done.antt =====
-- What the loop of `executeDag` in packages/core/src/workflow-engine.ts has done where it ends.
use agent_phonon.Base.{
  ℕ, zero, suc, ◌+◌, ◌≡◌, true, not, ◌&&◌, List, [], ◌∷◌, if◌then◌else◌, arith, if_both, Option,
  length, All,
}
use agent_phonon.Js.Text.Order.{text_eq_iff}
use agent_phonon.Workflow.Plan.{Node, has, add}
use agent_phonon.Workflow.Plan.Sound.{count_id}
use agent_phonon.Workflow.State.{DagState, OnNodeFailure, World, DagEnd, deps_of}
use agent_phonon.Workflow.Dag.{
  ready_nodes, blocked_nodes, free_nodes, skip_nodes, skip_node, start_nodes, finish_batch,
  finish_node, run_batch, run_batches, take_nodes, drop_nodes, all_in, is_blocked, fails_run,
}
use agent_phonon.Workflow.Dag.Progress.{and_then_both, settled-start_nodes, length-add}
use agent_phonon.Workflow.Dag.Sets.{has-add}

-- How many of the nodes are not settled.
unfoldable pub count_open : List Node → List (List ℕ) → ℕ
count_open [] settled = 0
count_open (n ∷ nodes) settled = (if has settled n.node_id then 0 else 1) + count_open nodes settled

count_open-add :
    (nodes : List Node) (settled : List (List ℕ)) (id : List ℕ)
    → count_open nodes (add settled id) + (if has settled id then 0 else count_id nodes id)
      ≡ count_open nodes settled
unfolding count_open count_id
count_open-add [] settled id = ground arith
count_open-add (n ∷ nodes) settled id = ground (
  arith,
  count_open-add nodes settled id,
  has-add settled id n.node_id,
  text_eq_iff n.node_id id,
  text_eq_iff id n.node_id,
)

pub count_open-zero :
    (nodes : List Node) (settled : List (List ℕ))
    → count_open nodes settled ≡ 0
    → All (λ n. has settled n.node_id ≡ true) nodes
unfolding count_open
count_open-zero [] settled h = tt
count_open-zero (n ∷ nodes) settled h = (ground arith, count_open-zero nodes settled (ground arith))

module _ (nodes : List Node) where
  -- Each node of the list is one of the plan's.
  abbrev pub AllKnown : List Node → Type 0
  AllKnown = All (λ n. count_id nodes n.node_id ≡ 1)

  -- Settled and open nodes are all nodes.
  abbrev pub IsBalanced : List (List ℕ) → Type 0
  IsBalanced settled = length settled + count_open nodes settled ≡ length nodes

  pub add-IsBalanced :
      (settled : List (List ℕ)) (id : List ℕ)
      → count_id nodes id ≡ 1
      → IsBalanced settled
      → IsBalanced (add settled id)
  add-IsBalanced settled id one b =
      ground (arith, one, b, count_open-add nodes settled id, length-add settled id)

  finish_batch-IsBalanced :
      (policy : OnNodeFailure) (world : World) (batch : List Node) (s : DagState)
      → AllKnown batch
      → IsBalanced s.settled
      → IsBalanced (finish_batch policy world batch s).0.settled
  unfolding finish_batch
  finish_batch-IsBalanced policy world [] s k b = b
  finish_batch-IsBalanced policy world (n ∷ batch) s k b =
      let one = add-IsBalanced s.settled n.node_id k.0 b in
      if_both (λ (r : DagState × Option DagEnd). IsBalanced r.0.settled)
        (not (world.fulfilled n.node_id) && fails_run policy) (λ _. one)
        (λ _.
          finish_batch-IsBalanced policy world batch (finish_node s n (world.fulfilled n.node_id))
            k.1 one)

  pub skip_nodes-IsBalanced :
      (skipped : List Node) (s : DagState)
      → AllKnown skipped
      → IsBalanced s.settled
      → IsBalanced (skip_nodes skipped s).settled
  unfolding skip_nodes
  skip_nodes-IsBalanced [] s k b = b
  skip_nodes-IsBalanced (n ∷ skipped) s k b =
      skip_nodes-IsBalanced skipped (skip_node s n) k.1 (add-IsBalanced s.settled n.node_id k.0 b)

  parts-AllKnown :
      (size : ℕ) (batch : List Node)
      → AllKnown batch
      → AllKnown (take_nodes size batch) × AllKnown (drop_nodes size batch)
  unfolding take_nodes drop_nodes
  parts-AllKnown zero batch k = (tt, k)
  parts-AllKnown (suc size) [] k = (tt, tt)
  parts-AllKnown (suc size) (n ∷ batch) k =
      let ih = parts-AllKnown size batch k.1 in ((k.0, ih.0), ih.1)

  pub ready-AllKnown :
      (deps : List (List ℕ × List (List ℕ))) (settled : List (List ℕ)) (some_nodes : List Node)
      → AllKnown some_nodes
      → AllKnown (ready_nodes deps settled some_nodes)
  unfolding ready_nodes
  ready-AllKnown deps settled [] k = tt
  ready-AllKnown deps settled (n ∷ some_nodes) k =
      let ih = ready-AllKnown deps settled some_nodes k.1 in
      if_both AllKnown (not (has settled n.node_id) && all_in settled (deps_of deps n.node_id))
        (λ _. (k.0, ih)) (λ _. ih)

  pub split-AllKnown :
      (deps : List (List ℕ × List (List ℕ))) (s : DagState) (some_nodes : List Node)
      → AllKnown some_nodes
      → AllKnown (free_nodes deps s some_nodes) × AllKnown (blocked_nodes deps s some_nodes)
  unfolding free_nodes blocked_nodes
  split-AllKnown deps s [] k = (tt, tt)
  split-AllKnown deps s (n ∷ some_nodes) k =
      let ih = split-AllKnown deps s some_nodes k.1 in
      let test = is_blocked s (deps_of deps n.node_id) in
      (
        if_both AllKnown test (λ _. ih.0) (λ _. (k.0, ih.0)),
        if_both AllKnown test (λ _. (k.0, ih.1)) (λ _. ih.1),
      )

  run_batch-IsBalanced :
      (policy : OnNodeFailure) (world : World) (batch : List Node) (s : DagState)
      → AllKnown batch
      → IsBalanced s.settled
      → IsBalanced (run_batch policy world batch s).0.settled
  unfolding run_batch
  run_batch-IsBalanced policy world batch s k b =
      let waited = start_nodes batch s in
      let checked = record waited { checks = waited.checks + 1 } in
      let same : IsBalanced waited.settled = rw (settled-start_nodes batch s) b in
      if_both (λ (r : DagState × Option DagEnd). IsBalanced r.0.settled)
        (world.current waited.checks)
        (λ _. finish_batch-IsBalanced policy world batch checked k same) (λ _. same)

  pub run_batches-IsBalanced :
      (fuel : ℕ) (policy : OnNodeFailure) (world : World) (size : ℕ) (batch : List Node)
      (s : DagState)
      → AllKnown batch
      → IsBalanced s.settled
      → IsBalanced (run_batches fuel policy world size batch s).0.settled
  unfolding run_batches
  run_batches-IsBalanced fuel policy world size [] s k b = b
  run_batches-IsBalanced zero policy world size (n ∷ batch) s k b = b
  run_batches-IsBalanced (suc fuel) policy world size (n ∷ batch) s k b =
      let first = take_nodes size (n ∷ batch) in
      let rest = drop_nodes size (n ∷ batch) in
      let parts = parts-AllKnown size (n ∷ batch) k in
      let r = run_batch policy world first s in
      let one = run_batch-IsBalanced policy world first s parts.0 b in
      and_then_both (λ q. IsBalanced q.0.settled) r _
        (λ _. run_batches-IsBalanced fuel policy world size rest r.0 parts.1 one) (λ _. one)
