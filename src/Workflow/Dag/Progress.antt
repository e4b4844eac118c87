-- ===== src/Workflow/Dag/Progress.antt =====
-- The loop of `executeDag` in packages/core/src/workflow-engine.ts ends.
use agent_phonon.Base.{
  ℕ, zero, suc, ◌+◌, ◌≤◌, ◌<◌, ◌≡◌, refl, Bool, true, false, not, ◌&&◌, List, [], ◌∷◌, Option, none,
  some, if◌then◌else◌, ◌==◌, length, length-append, arith, if_both,
}
use agent_phonon.Workflow.Plan.{Node, has, add}
use agent_phonon.Workflow.State.{
  OnNodeFailure, World, DagState, DagEnd, done, stale, cyclic, workflow_failed, out_of_fuel,
}
use agent_phonon.Workflow.Dag.{
  ready_nodes, blocked_nodes, free_nodes, skip_nodes, skip_node, start_nodes, finish_batch,
  finish_node, run_batch, run_batches, take_nodes, drop_nodes, and_then,
}

pub length-add :
    (set : List (List ℕ)) (id : List ℕ)
    → length (add set id) ≡ (if has set id then length set else suc (length set))
unfolding add
length-add set id = ground (arith, length-append set (id ∷ []))

length-start_nodes :
    (batch : List Node) (s : DagState) → length (start_nodes batch s).settled ≡ length s.settled
unfolding start_nodes
length-start_nodes [] s = refl
length-start_nodes (n ∷ batch) s = length-start_nodes batch _

pub settled-start_nodes :
    (batch : List Node) (s : DagState) → (start_nodes batch s).settled ≡ s.settled
unfolding start_nodes
settled-start_nodes [] s = refl
settled-start_nodes (n ∷ batch) s = settled-start_nodes batch _

length-finish_batch :
    (policy : OnNodeFailure) (world : World) (batch : List Node) (s : DagState)
    → length s.settled ≤ length (finish_batch policy world batch s).0.settled
unfolding finish_batch
length-finish_batch policy world [] s = omega arith
length-finish_batch policy world (n ∷ batch) s = ground (
  arith,
  length-finish_batch policy world batch (finish_node s n (world.fulfilled n.node_id)),
  length-add s.settled n.node_id,
)

length-finish_head :
    (policy : OnNodeFailure) (world : World) (n : Node) (batch : List Node) (s : DagState)
    → has s.settled n.node_id ≡ false
    → length s.settled < length (finish_batch policy world (n ∷ batch) s).0.settled
unfolding finish_batch
length-finish_head policy world n batch s h = ground (
  arith,
  length-finish_batch policy world batch (finish_node s n (world.fulfilled n.node_id)),
  length-add s.settled n.node_id,
)

pub length-skip_nodes :
    (nodes : List Node) (s : DagState) → length s.settled ≤ length (skip_nodes nodes s).settled
unfolding skip_nodes
length-skip_nodes [] s = omega arith
length-skip_nodes (n ∷ nodes) s =
    ground (arith, length-skip_nodes nodes (skip_node s n), length-add s.settled n.node_id)

-- None of the nodes is settled.
unfoldable pub unsettled : List (List ℕ) → List Node → Bool
unsettled settled [] = true
unsettled settled (n ∷ nodes) = not (has settled n.node_id) && unsettled settled nodes

pub ready_nodes-unsettled :
    (deps : List (List ℕ × List (List ℕ))) (settled : List (List ℕ)) (nodes : List Node)
    → unsettled settled (ready_nodes deps settled nodes) ≡ true
unfolding ready_nodes unsettled
ready_nodes-unsettled deps settled [] = refl
ready_nodes-unsettled deps settled (n ∷ nodes) =
    ground (arith, ready_nodes-unsettled deps settled nodes)

pub free_nodes-unsettled :
    (deps : List (List ℕ × List (List ℕ))) (s : DagState) (settled : List (List ℕ))
    (nodes : List Node)
    → unsettled settled nodes ≡ true
    → (unsettled settled (free_nodes deps s nodes) ≡ true)
      × (unsettled settled (blocked_nodes deps s nodes) ≡ true)
      × (length (free_nodes deps s nodes) + length (blocked_nodes deps s nodes) ≡ length nodes)
unfolding free_nodes blocked_nodes unsettled
free_nodes-unsettled deps s settled [] h = (refl, refl, omega arith)
free_nodes-unsettled deps s settled (n ∷ nodes) h =
    let ih = free_nodes-unsettled deps s settled nodes (ground arith) in
    (ground (arith, ih.0), ground (arith, ih.1), ground (arith, ih.2))

pub length-skip_some :
    (nodes : List Node) (s : DagState)
    → unsettled s.settled nodes ≡ true
    → (length nodes == 0) ≡ false
    → length s.settled < length (skip_nodes nodes s).settled
unfolding skip_nodes unsettled
length-skip_some [] s u h = ground arith
length-skip_some (n ∷ nodes) s u h =
    ground (arith, length-skip_nodes nodes (skip_node s n), length-add s.settled n.node_id)

-- The fuel ran out.
abbrev pub is_exhausted : Option DagEnd → Bool
is_exhausted none = false
is_exhausted (some done) = false
is_exhausted (some stale) = false
is_exhausted (some cyclic) = false
is_exhausted (some (workflow_failed id)) = false
is_exhausted (some out_of_fuel) = true

abbrev pub goes_on : Option DagEnd → Bool
goes_on none = true
goes_on (some end) = false

finish_batch-exhausted :
    (policy : OnNodeFailure) (world : World) (batch : List Node) (s : DagState)
    → is_exhausted (finish_batch policy world batch s).1 ≡ false
unfolding finish_batch
finish_batch-exhausted policy world [] s = refl
finish_batch-exhausted policy world (n ∷ batch) s =
    ground (
      arith,
      finish_batch-exhausted policy world batch (finish_node s n (world.fulfilled n.node_id)),
    )

run_batch-exhausted :
    (policy : OnNodeFailure) (world : World) (batch : List Node) (s : DagState)
    → is_exhausted (run_batch policy world batch s).1 ≡ false
unfolding run_batch
run_batch-exhausted policy world batch s =
    let waited = start_nodes batch s in
    let checked = record waited { checks = waited.checks + 1 } in
    if_both (λ (r : DagState × Option DagEnd). is_exhausted r.1 ≡ false)
      (world.current waited.checks) (λ _. finish_batch-exhausted policy world batch checked)
      (λ _. refl)

length-run_batch :
    (policy : OnNodeFailure) (world : World) (batch : List Node) (s : DagState)
    → length s.settled ≤ length (run_batch policy world batch s).0.settled
unfolding run_batch
length-run_batch policy world batch s =
    let waited = start_nodes batch s in
    let checked = record waited { checks = waited.checks + 1 } in
    if_both (λ (r : DagState × Option DagEnd). length s.settled ≤ length r.0.settled)
      (world.current waited.checks)
      (λ _.
        omega (arith, length-finish_batch policy world batch checked, length-start_nodes batch s))
      (λ _. omega (arith, length-start_nodes batch s))

length-run_batch_head :
    (policy : OnNodeFailure) (world : World) (n : Node) (batch : List Node) (s : DagState)
    → has s.settled n.node_id ≡ false
    → goes_on (run_batch policy world (n ∷ batch) s).1 ≡ true
    → length s.settled < length (run_batch policy world (n ∷ batch) s).0.settled
unfolding run_batch
length-run_batch_head policy world n batch s h =
    let waited = start_nodes (n ∷ batch) s in
    let checked = record waited { checks = waited.checks + 1 } in
    if_both
      (λ (r : DagState × Option DagEnd). goes_on r.1 ≡ true → length s.settled < length r.0.settled)
      (world.current waited.checks)
      (λ _ _. omega (
        arith,
        length-finish_head policy world n batch checked (rw (settled-start_nodes (n ∷ batch) s) h),
        length-start_nodes (n ∷ batch) s,
      ))
      (λ _ e. cc)

length-drop_nodes : (size : ℕ) (nodes : List Node) → length (drop_nodes size nodes) ≤ length nodes
unfolding drop_nodes
length-drop_nodes zero nodes = omega arith
length-drop_nodes (suc size) [] = omega arith
length-drop_nodes (suc size) (n ∷ nodes) = omega (arith, length-drop_nodes size nodes)

pub and_then_both :
    (P : DagState × Option DagEnd → Type 0) (r rest : DagState × Option DagEnd)
    → (goes_on r.1 ≡ true → P rest)
    → (goes_on r.1 ≡ false → P r)
    → P (and_then r rest)
and_then_both P (s, none) rest go stop = go refl
and_then_both P (s, some end) rest go stop = stop refl

pub run_batches-exhausted :
    (fuel : ℕ) (policy : OnNodeFailure) (world : World) (size : ℕ) (nodes : List Node)
    (s : DagState)
    → length nodes ≤ fuel
    → is_exhausted (run_batches fuel policy world (suc size) nodes s).1 ≡ false
unfolding run_batches drop_nodes take_nodes
run_batches-exhausted fuel policy world size [] s le = refl
run_batches-exhausted zero policy world size (n ∷ nodes) s le = ground arith
run_batches-exhausted (suc fuel) policy world size (n ∷ nodes) s le =
    and_then_both (λ r. is_exhausted r.1 ≡ false)
      (run_batch policy world (n ∷ take_nodes size nodes) s) _
      (λ _.
        run_batches-exhausted fuel policy world size (drop_nodes size nodes) _
          (omega (arith, length-drop_nodes size nodes)))
      (λ _. run_batch-exhausted policy world (n ∷ take_nodes size nodes) s)

pub length-run_batches :
    (fuel : ℕ) (policy : OnNodeFailure) (world : World) (size : ℕ) (nodes : List Node)
    (s : DagState)
    → length s.settled ≤ length (run_batches fuel policy world size nodes s).0.settled
unfolding run_batches
length-run_batches fuel policy world size [] s = omega arith
length-run_batches zero policy world size (n ∷ nodes) s = omega arith
length-run_batches (suc fuel) policy world size (n ∷ nodes) s =
    let batch = take_nodes size (n ∷ nodes) in
    let r = run_batch policy world batch s in
    let one = length-run_batch policy world batch s in
    and_then_both (λ q. length s.settled ≤ length q.0.settled) r _
      (λ _.
        omega
          (arith, one, length-run_batches fuel policy world size (drop_nodes size (n ∷ nodes)) r.0))
      (λ _. one)

pub length-run_batches_some :
    (policy : OnNodeFailure) (world : World) (size : ℕ) (nodes : List Node) (s : DagState)
    → unsettled s.settled nodes ≡ true
    → (length nodes == 0) ≡ false
    → goes_on (run_batches (length nodes) policy world (suc size) nodes s).1 ≡ true
    → length s.settled
      < length (run_batches (length nodes) policy world (suc size) nodes s).0.settled
unfolding run_batches take_nodes unsettled
length-run_batches_some policy world size [] s u h = ground arith
length-run_batches_some policy world size (n ∷ nodes) s u h =
    let r = run_batch policy world (n ∷ take_nodes size nodes) s in
    and_then_both (λ q. goes_on q.1 ≡ true → length s.settled < length q.0.settled) r _
      (λ go _. omega (
        arith,
        length-run_batch_head policy world n (take_nodes size nodes) s (ground arith) go,
        length-run_batches (length nodes) policy world (suc size)
            (drop_nodes (suc size) (n ∷ nodes)) r.0,
      ))
      (λ stop go. cc)
