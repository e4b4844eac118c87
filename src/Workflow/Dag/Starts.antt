-- ===== src/Workflow/Dag/Starts.antt =====
-- No node of `executeDag` in packages/core/src/workflow-engine.ts starts before what it depends on.
use agent_phonon.Base.{
  ℕ, zero, suc, ◌+◌, ◌≡◌, refl, subst, sym, ◌∙◌, Bool, true, false, not, ◌&&◌, List, [], ◌∷◌, arith,
  if_both, Option, length, ltb, ◌==◌,
}
use agent_phonon.Workflow.Plan.{Node, DagPlan}
use agent_phonon.Workflow.State.{
  DagState, Entry, deps_of, OnNodeFailure, World, DagEnd, NodeState, NodeStatus, empty_state,
  resume_nodes, dag_deps, resume_node,
}
use agent_phonon.Workflow.Dag.{
  DagPolicy, ready_nodes, blocked_nodes, free_nodes, skip_nodes, start_nodes, run_batch,
  run_batches, take_nodes, drop_nodes, run_ready, run_runnable, wave, run_dag, execute_dag,
  runs_blocked, batch_size, all_in, is_blocked,
}
use agent_phonon.Workflow.Dag.Progress.{and_then_both}
use agent_phonon.Workflow.Dag.Required.{follows_plan, is_ordered-follows_plan}
use agent_phonon.Workflow.Dag.Sets.{
  settled_in, succeeded_in, all_pass, is_ordered, may_start, may_start_later,
}
use agent_phonon.Workflow.Dag.Order.{
  IsTraced, Extends, Extends-same, skip_nodes-Extends, start_nodes-Extends, finish_batch-Extends,
}

-- Each of the nodes has its dependencies in the set.
unfoldable waits_for_none : List (List ℕ × List (List ℕ)) → List (List ℕ) → List Node → Bool
waits_for_none deps settled [] = true
waits_for_none deps settled (n ∷ nodes) =
    all_in settled (deps_of deps n.node_id) && waits_for_none deps settled nodes

ready_nodes-waits_for_none :
    (deps : List (List ℕ × List (List ℕ))) (settled : List (List ℕ)) (nodes : List Node)
    → waits_for_none deps settled (ready_nodes deps settled nodes) ≡ true
unfolding waits_for_none ready_nodes
ready_nodes-waits_for_none deps settled [] = refl
ready_nodes-waits_for_none deps settled (n ∷ nodes) =
    ground (arith, ready_nodes-waits_for_none deps settled nodes)

module _ (start : DagState) (deps : List (List ℕ × List (List ℕ))) (s : DagState) where
  all_in-all_pass :
      (any_end : Bool) (ds : List (List ℕ))
      → IsTraced any_end start deps s
      → all_in s.settled ds ≡ true
      → all_pass true start s.trace ds ≡ true
  unfolding all_in all_pass
  all_in-all_pass any_end [] t h = refl
  all_in-all_pass any_end (d ∷ ds) t h = ground (arith, t.settled d, all_in-all_pass any_end ds t)

  unblocked-all_pass :
      (any_end : Bool) (ds : List (List ℕ))
      → IsTraced any_end start deps s
      → all_in s.settled ds ≡ true
      → is_blocked s ds ≡ false
      → all_pass false start s.trace ds ≡ true
  unfolding all_in all_pass is_blocked
  unblocked-all_pass any_end [] t h b = refl
  unblocked-all_pass any_end (d ∷ ds) t h b =
      ground (arith, t.succeeded d, unblocked-all_pass any_end ds t)

  ready-may_start :
      (any_end : Bool) (nodes : List Node)
      → IsTraced any_end start deps s
      → waits_for_none deps s.settled nodes ≡ true
      → may_start true start deps s.trace nodes ≡ true
  unfolding waits_for_none may_start
  ready-may_start any_end [] t h = refl
  ready-may_start any_end (n ∷ nodes) t h =
      ground
        (arith, all_in-all_pass any_end (deps_of deps n.node_id) t, ready-may_start any_end nodes t)

  free-may_start :
      (any_end : Bool) (nodes : List Node)
      → IsTraced any_end start deps s
      → waits_for_none deps s.settled nodes ≡ true
      → may_start false start deps s.trace (free_nodes deps s nodes) ≡ true
  unfolding waits_for_none may_start free_nodes
  free-may_start any_end [] t h = refl
  free-may_start any_end (n ∷ nodes) t h =
      ground (
        arith,
        unblocked-all_pass any_end (deps_of deps n.node_id) t,
        free-may_start any_end nodes t,
      )

module _ (any_end : Bool) (start : DagState) (deps : List (List ℕ × List (List ℕ))) where
  run_batch-Extends :
      (policy : OnNodeFailure) (world : World) (batch : List Node) (s : DagState)
      → may_start any_end start deps s.trace batch ≡ true
      → IsTraced any_end start deps s
      → Extends any_end start deps s (run_batch policy world batch s).0
  unfolding run_batch
  run_batch-Extends policy world batch s m t =
      let waited = start_nodes batch s in
      let checked = record waited { checks = waited.checks + 1 } in
      let one = start_nodes-Extends any_end start deps batch s m t in
      let same = Extends-same any_end start deps waited checked refl refl refl one.0 in
      let rest = finish_batch-Extends any_end start deps policy world batch checked same.0 in
      if_both (λ (r : DagState × Option DagEnd). Extends any_end start deps s r.0)
        (world.current waited.checks) (λ _. (rest.0, λ d h. rest.1 d (one.1 d h)))
        (λ _. (same.0, one.1))

  may_start-parts :
      (size : ℕ) (trace : List Entry) (nodes : List Node)
      → may_start any_end start deps trace nodes ≡ true
      → (may_start any_end start deps trace (take_nodes size nodes) ≡ true)
        × (may_start any_end start deps trace (drop_nodes size nodes) ≡ true)
  unfolding may_start take_nodes drop_nodes
  may_start-parts zero trace nodes m = (refl, m)
  may_start-parts (suc size) trace [] m = (refl, refl)
  may_start-parts (suc size) trace (n ∷ nodes) m =
      let ih = may_start-parts size trace nodes (ground arith) in (ground (arith, ih.0), ih.1)

  run_batches-IsTraced :
      (fuel : ℕ) (policy : OnNodeFailure) (world : World) (size : ℕ) (nodes : List Node)
      (s : DagState)
      → may_start any_end start deps s.trace nodes ≡ true
      → IsTraced any_end start deps s
      → IsTraced any_end start deps (run_batches fuel policy world size nodes s).0
  unfolding run_batches
  run_batches-IsTraced fuel policy world size [] s m t = t
  run_batches-IsTraced zero policy world size (n ∷ nodes) s m t = t
  run_batches-IsTraced (suc fuel) policy world size (n ∷ nodes) s m t =
      let parts = may_start-parts size s.trace (n ∷ nodes) m in
      let batch = take_nodes size (n ∷ nodes) in
      let r = run_batch policy world batch s in
      let one = run_batch-Extends policy world batch s parts.0 t in
      and_then_both (λ q. IsTraced any_end start deps q.0) r _
        (λ _.
          run_batches-IsTraced fuel policy world size (drop_nodes size (n ∷ nodes)) r.0
            (may_start_later any_end start deps s.trace r.0.trace (drop_nodes size (n ∷ nodes))
              one.1 parts.1)
            one.0)
        (λ _. one.0)

  run_runnable-IsTraced :
      (policy : DagPolicy) (world : World) (blocked runnable : List Node) (s : DagState)
      → may_start any_end start deps s.trace runnable ≡ true
      → IsTraced any_end start deps s
      → IsTraced any_end start deps (run_runnable policy world blocked runnable s).0
  unfolding run_runnable
  run_runnable-IsTraced policy world blocked runnable s m t =
      if_both (λ (r : DagState × Option DagEnd). IsTraced any_end start deps r.0)
        (length runnable == 0 && ltb 0 (length blocked)) (λ _. t)
        (λ _.
          run_batches-IsTraced (length runnable) policy.on_node_failure world
            (batch_size policy.max_parallel runnable) runnable s m t)

module _ (start : DagState) (deps : List (List ℕ × List (List ℕ))) (policy : DagPolicy)
    (world : World) where
  run_ready-IsTraced :
      (any_end : Bool) (nodes : List Node) (s : DagState)
      → runs_blocked policy.on_node_failure ≡ any_end
      → waits_for_none deps s.settled nodes ≡ true
      → IsTraced any_end start deps s
      → IsTraced any_end start deps (run_ready policy world deps nodes s).0
  unfolding run_ready
  run_ready-IsTraced true nodes s e w t = rw e (
      run_runnable-IsTraced true start deps policy world (blocked_nodes deps s nodes) nodes s
        (ready-may_start start deps s true nodes t w) t)
  run_ready-IsTraced false nodes s e w t =
      let blocked = blocked_nodes deps s nodes in
      let skipped = skip_nodes blocked s in
      let free = free_nodes deps s nodes in
      let one = skip_nodes-Extends false start deps blocked s t in
      rw e (
        run_runnable-IsTraced false start deps policy world blocked free skipped
          (may_start_later false start deps s.trace skipped.trace free one.1
            (free-may_start start deps s false nodes t w))
          one.0)

  wave-IsTraced :
      (any_end : Bool) (nodes : List Node) (s : DagState)
      → runs_blocked policy.on_node_failure ≡ any_end
      → IsTraced any_end start deps s
      → IsTraced any_end start deps (wave policy world deps nodes s).0
  unfolding wave
  wave-IsTraced any_end nodes s e t =
      let checked = record s { checks = s.checks + 1 } in
      let same = Extends-same any_end start deps s checked refl refl refl t in
      let ready_now = ready_nodes deps s.settled nodes in
      if_both (λ (r : DagState × Option DagEnd). IsTraced any_end start deps r.0)
        (not (ltb (length s.settled) (length nodes))) (λ _. t)
        (λ _.
          if_both (λ (r : DagState × Option DagEnd). IsTraced any_end start deps r.0)
            (not (world.current s.checks)) (λ _. same.0)
            (λ _.
              if_both (λ (r : DagState × Option DagEnd). IsTraced any_end start deps r.0)
                (length ready_now == 0) (λ _. same.0)
                (λ _.
                  run_ready-IsTraced any_end ready_now checked e
                    (ready_nodes-waits_for_none deps s.settled nodes) same.0)))

  run_dag-IsTraced :
      (fuel : ℕ) (any_end : Bool) (nodes : List Node) (s : DagState)
      → runs_blocked policy.on_node_failure ≡ any_end
      → IsTraced any_end start deps s
      → IsTraced any_end start deps (run_dag fuel policy world deps nodes s).0
  unfolding run_dag
  run_dag-IsTraced zero any_end nodes s e t = t
  run_dag-IsTraced (suc fuel) any_end nodes s e t =
      let w = wave policy world deps nodes s in
      let one = wave-IsTraced any_end nodes s e t in
      and_then_both (λ r. IsTraced any_end start deps r.0) w _
        (λ _. run_dag-IsTraced fuel any_end nodes w.0 e one) (λ _. one)

pub resume_nodes-trace :
    (policy : OnNodeFailure) (states : List NodeState) (s : DagState)
    → (resume_nodes policy states s).trace ≡ s.trace
unfolding resume_nodes
resume_nodes-trace policy [] s = refl
resume_nodes-trace policy (n ∷ states) s =
    resume_nodes-trace policy states _ ∙ resume_node-trace policy s n.node_id n.status
  where
    resume_node-trace :
        (policy : OnNodeFailure) (s : DagState) (id : List ℕ) (status : NodeStatus)
        → (resume_node policy s id status).trace ≡ s.trace
    resume_node-trace policy s id status = ground arith

start-IsTraced :
    (any_end : Bool) (start : DagState) (deps : List (List ℕ × List (List ℕ)))
    → start.trace ≡ []
    → IsTraced any_end start deps start
unfolding settled_in succeeded_in is_ordered
start-IsTraced any_end start deps e = record {
  settled = λ d h. subst (λ t. settled_in start t d ≡ true) (sym e) h;
  succeeded = λ d h. subst (λ t. succeeded_in start t d ≡ true) (sym e) h;
  ordered = subst (λ t. is_ordered any_end start deps t ≡ true) (sym e) refl;
}

-- No node starts before all that the plan requires of it, the ids in its `dependsOn` and the sources of the
-- edges to it, has come to an end in this run or before the run was resumed; unless the policy is to continue
-- past failures, each of these has succeeded. Of nodes with the same id, the last one counts.
pub starts_after_dependencies :
    (policy : DagPolicy) (world : World) (plan : DagPlan) (states : List NodeState)
    → follows_plan
        (runs_blocked policy.on_node_failure)
        (resume_nodes policy.on_node_failure states empty_state)
        plan
        (execute_dag policy world plan states).0.trace
      ≡ true
unfolding execute_dag
starts_after_dependencies policy world plan states =
    let start = resume_nodes policy.on_node_failure states empty_state in
    let any_end = runs_blocked policy.on_node_failure in
    is_ordered-follows_plan any_end start plan (execute_dag policy world plan states).0.trace
      (run_dag-IsTraced start (dag_deps plan) policy world (length plan.nodes + 1) any_end
        plan.nodes start refl
        (start-IsTraced any_end start (dag_deps plan)
          (resume_nodes-trace policy.on_node_failure states empty_state))).ordered
