-- ===== src/Workflow/Dag/Order.antt =====
-- The order in which `executeDag` of packages/core/src/workflow-engine.ts starts nodes.
use agent_phonon.Base.{ℕ, ◌≡◌, Bool, true, not, ◌&&◌, List, [], ◌∷◌, arith, if_both, Option}
use agent_phonon.Workflow.Plan.{Node, has}
use agent_phonon.Workflow.State.{
  DagState, started, finished, node_skipped, OnNodeFailure, World, DagEnd,
}
use agent_phonon.Workflow.Dag.{
  skip_nodes, skip_node, start_nodes, finish_batch, finish_node, fails_run,
}
use agent_phonon.Workflow.Dag.Sets.{
  has-add, settled_in, succeeded_in, is_ordered, may_start, IsLater, may_start_later, entry-IsLater,
}

-- The sets say what the trace does, and the trace is in order.
pub record IsTraced (any_end : Bool) (start : DagState) (deps : List (List ℕ × List (List ℕ)))
    (s : DagState) : Type 0 where
  pub settled : (d : List ℕ) → has s.settled d ≡ true → settled_in start s.trace d ≡ true
  pub succeeded : (d : List ℕ) → has s.succeeded d ≡ true → succeeded_in start s.trace d ≡ true
  pub ordered : is_ordered any_end start deps s.trace ≡ true

module _ (any_end : Bool) (start : DagState) (deps : List (List ℕ × List (List ℕ))) where
  -- A step keeps the trace in order, and what has passed.
  abbrev pub Extends : DagState → DagState → Type 0
  Extends s q = IsTraced any_end start deps q × IsLater any_end start s.trace q.trace

  pub Extends-same :
      (s q : DagState)
      → q.settled ≡ s.settled
      → q.succeeded ≡ s.succeeded
      → q.trace ≡ s.trace
      → IsTraced any_end start deps s
      → Extends s q
  Extends-same s q a b c t = (
    record {
      settled = λ d. rw (a, c) (t.settled d);
      succeeded = λ d. rw (b, c) (t.succeeded d);
      ordered = rw c t.ordered;
    },
    λ d h. rw c h,
  )

  skip_node-Extends :
      (s : DagState) (n : Node) → IsTraced any_end start deps s → Extends s (skip_node s n)
  unfolding settled_in succeeded_in is_ordered
  skip_node-Extends s n t = (
    record {
      settled = λ d h. ground (arith, t.settled d, has-add s.settled n.node_id d);
      succeeded = t.succeeded;
      ordered = t.ordered;
    },
    entry-IsLater any_end start (node_skipped n.node_id) s.trace,
  )

  finish_node-Extends :
      (s : DagState) (n : Node) (returns : Bool)
      → IsTraced any_end start deps s
      → Extends s (finish_node s n returns)
  unfolding settled_in succeeded_in is_ordered
  finish_node-Extends s n returns t = (
    record {
      settled = λ d h. ground (arith, t.settled d, has-add s.settled n.node_id d);
      succeeded = λ d h. ground (arith, t.succeeded d, has-add s.succeeded n.node_id d);
      ordered = t.ordered;
    },
    entry-IsLater any_end start (finished n.node_id returns) s.trace,
  )

  pub skip_nodes-Extends :
      (nodes : List Node) (s : DagState)
      → IsTraced any_end start deps s
      → Extends s (skip_nodes nodes s)
  unfolding skip_nodes
  skip_nodes-Extends [] s t = (t, λ d h. h)
  skip_nodes-Extends (n ∷ nodes) s t =
      let one = skip_node-Extends s n t in
      let rest = skip_nodes-Extends nodes (skip_node s n) one.0 in
      (rest.0, λ d h. rest.1 d (one.1 d h))

  pub start_nodes-Extends :
      (batch : List Node) (s : DagState)
      → may_start any_end start deps s.trace batch ≡ true
      → IsTraced any_end start deps s
      → Extends s (start_nodes batch s)
  unfolding start_nodes may_start settled_in succeeded_in is_ordered
  start_nodes-Extends [] s m t = (t, λ d h. h)
  start_nodes-Extends (n ∷ batch) s m t =
      let next = record s { trace = started n.node_id ∷ s.trace } in
      let later = entry-IsLater any_end start (started n.node_id) s.trace in
      let rest =
        start_nodes-Extends batch next
          (may_start_later any_end start deps s.trace next.trace batch later (ground arith))
          (record {
            settled = t.settled;
            succeeded = t.succeeded;
            ordered = ground (arith, t.ordered);
          }) in
      (rest.0, λ d h. rest.1 d (later d h))

  pub finish_batch-Extends :
      (policy : OnNodeFailure) (world : World) (batch : List Node) (s : DagState)
      → IsTraced any_end start deps s
      → Extends s (finish_batch policy world batch s).0
  unfolding finish_batch
  finish_batch-Extends policy world [] s t = (t, λ d h. h)
  finish_batch-Extends policy world (n ∷ batch) s t =
      let returns = world.fulfilled n.node_id in
      let one = finish_node-Extends s n returns t in
      let rest = finish_batch-Extends policy world batch (finish_node s n returns) one.0 in
      if_both (λ (r : DagState × Option DagEnd). Extends s r.0) (not returns && fails_run policy)
        (λ _. one) (λ _. (rest.0, λ d h. rest.1 d (one.1 d h)))
