-- ===== src/Workflow/Dag/Sets.antt =====
-- The sets of packages/core/src/workflow-engine.ts, and what the trace of a run knows of them.
use agent_phonon.Base.{
  ℕ, ◌≡◌, refl, Bool, true, ◌&&◌, ◌||◌, List, [], ◌∷◌, ◌++◌, if◌then◌else◌, arith,
}
use agent_phonon.Js.Text.{text_eq}
use agent_phonon.Js.Text.Order.{text_eq_iff}
use agent_phonon.Workflow.Plan.{Node, has, add}
use agent_phonon.Workflow.State.{DagState, Entry, started, finished, node_skipped, deps_of}

has-append :
    (set : List (List ℕ)) (id d : List ℕ) → has (set ++ id ∷ []) d ≡ (has set d || text_eq id d)
unfolding has
has-append [] id d = ground arith
has-append (x ∷ set) id d = ground (arith, has-append set id d)

pub has-add :
    (set : List (List ℕ)) (id d : List ℕ) → has (add set id) d ≡ (has set d || text_eq id d)
unfolding add
has-add set id d = ground (arith, has-append set id d, text_eq_iff id d)

-- The trace, behind the state that the run resumed, has the node as ended, or as ended well.
unfoldable pub settled_in : DagState → List Entry → List ℕ → Bool
settled_in start [] d = has start.settled d
settled_in start (started id ∷ trace) d = settled_in start trace d
settled_in start (finished id returns ∷ trace) d = text_eq id d || settled_in start trace d
settled_in start (node_skipped id ∷ trace) d = text_eq id d || settled_in start trace d

unfoldable pub succeeded_in : DagState → List Entry → List ℕ → Bool
succeeded_in start [] d = has start.succeeded d
succeeded_in start (started id ∷ trace) d = succeeded_in start trace d
succeeded_in start (finished id returns ∷ trace) d =
    (returns && text_eq id d) || succeeded_in start trace d
succeeded_in start (node_skipped id ∷ trace) d = succeeded_in start trace d

-- What a dependency must have come to: with `any_end` it has ended, without it has ended well.
abbrev pub passes : Bool → DagState → List Entry → List ℕ → Bool
passes any_end start trace d =
    if any_end then settled_in start trace d else succeeded_in start trace d

unfoldable pub all_pass : Bool → DagState → List Entry → List (List ℕ) → Bool
unfolding settled_in succeeded_in
all_pass any_end start trace [] = true
all_pass any_end start trace (d ∷ ds) =
    passes any_end start trace d && all_pass any_end start trace ds

-- Each node of a trace started when all that it depends on had come to that.
unfoldable pub is_ordered : Bool → DagState → List (List ℕ × List (List ℕ)) → List Entry → Bool
unfolding all_pass deps_of
is_ordered any_end start deps [] = true
is_ordered any_end start deps (started id ∷ trace) =
    all_pass any_end start trace (deps_of deps id) && is_ordered any_end start deps trace
is_ordered any_end start deps (finished id returns ∷ trace) = is_ordered any_end start deps trace
is_ordered any_end start deps (node_skipped id ∷ trace) = is_ordered any_end start deps trace

-- Each of the nodes may start now.
unfoldable pub may_start :
    Bool → DagState → List (List ℕ × List (List ℕ)) → List Entry → List Node → Bool
unfolding all_pass
may_start any_end start deps trace [] = true
may_start any_end start deps trace (n ∷ nodes) =
    all_pass any_end start trace (deps_of deps n.node_id)
    && may_start any_end start deps trace nodes

-- What has passed in one trace has in the other.
abbrev pub IsLater : Bool → DagState → List Entry → List Entry → Type 0
IsLater any_end start earlier later =
    (d : List ℕ) → passes any_end start earlier d ≡ true → passes any_end start later d ≡ true

all_pass_later :
    (any_end : Bool) (start : DagState) (earlier later : List Entry) (ds : List (List ℕ))
    → IsLater any_end start earlier later
    → all_pass any_end start earlier ds ≡ true
    → all_pass any_end start later ds ≡ true
unfolding all_pass
all_pass_later any_end start earlier later [] l h = refl
all_pass_later any_end start earlier later (d ∷ ds) l h =
    ground (arith, l d, all_pass_later any_end start earlier later ds l)

pub may_start_later :
    (any_end : Bool) (start : DagState) (deps : List (List ℕ × List (List ℕ)))
    (earlier later : List Entry) (nodes : List Node)
    → IsLater any_end start earlier later
    → may_start any_end start deps earlier nodes ≡ true
    → may_start any_end start deps later nodes ≡ true
unfolding may_start
may_start_later any_end start deps earlier later [] l h = refl
may_start_later any_end start deps earlier later (n ∷ nodes) l h = ground (
  arith,
  all_pass_later any_end start earlier later (deps_of deps n.node_id) l,
  may_start_later any_end start deps earlier later nodes l,
)

pub entry-IsLater :
    (any_end : Bool) (start : DagState) (e : Entry) (trace : List Entry)
    → IsLater any_end start trace (e ∷ trace)
unfolding settled_in succeeded_in
entry-IsLater any_end start (started id) trace d h = h
entry-IsLater any_end start (finished id returns) trace d h = ground arith
entry-IsLater any_end start (node_skipped id) trace d h = ground arith
