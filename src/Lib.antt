-- ===== src/Lib.antt =====
-- agent-phonon is a daemon on a device that runs local coding agents for a server. This library models
-- parts of its core, packages/core/src, and proves what makes them correct.
--
-- The program's parts and how they meet. A client (client.ts) holds a connection to the server: a
-- two-way JSON-RPC peer (rpc.ts) carries requests both ways, and the outbox (outbox.ts) keeps each
-- downlink event until the server acknowledges it. The outbox writes through to tables of the SQLite
-- store (store.ts), so it survives a restart. Sessions, workflows and schedules run on top; a schedule
-- asks the cron clock (cron.ts) when it is due next, each of its runs (scheduler-engine.ts) is a session or
-- a workflow, and a workflow runs its plan as a DAG of nodes. The policy of the device's owner (policy.ts)
-- stands before all that touches files and projects.
--
-- Which file models what:
--   * Base: natural numbers, lists, results and tests that all parts share.
--   * Js/Text: the strings, as lists of UTF-16 code units, and the operations on them that the code
--     calls (split, trim, includes, comparison, parseInt). Js/Sort is Array.prototype.sort.
--   * Cron: packages/core/src/cron.ts. Cron/Parse is parseField and parseCron, Cron/Match is partsInTz,
--     dateMatches and timeMatches, Cron/Next is nextCronAfter. What Intl.DateTimeFormat answers for
--     an instant is a parameter, FormatParts. Instants are milliseconds from the epoch on.
--   * Store: packages/core/src/store.ts. Store/Write is deliveryWrite: a Disk says for each call
--     whether the transaction commits, fails, or commits with the failure reported after it. Store/Outbox
--     is the tables outbox_events, outbox_acks, native_proactive_seen and the stream_seq of sessions,
--     with the operations named after outboxAdd, outboxDelete, outboxAck, outboxLoad and so on. A row's
--     payload is the event itself, which JSON.parse gives back.
--     Store/Runs is the tables runs and run_events with upsertRun, appendRunEvent, ackRun, claimRun,
--     renewRunLease, releaseRun and the queries; Store/Runs/Traces has sequences of these operations. A
--     statement on one row goes to the first row with the id, which is the only one by the primary key.
--     acked is acked_seq plus one, and what the clock says is an argument.
--   * Outbox: packages/core/src/outbox.ts. The record Outbox has the fields of the class; enqueue,
--     ack, resume_from, pending and construct are its methods. sha256 is a parameter.
--   * Rpc: packages/core/src/rpc.ts. The record Peer has the fields of RpcPeer, and beside them the
--     timers that are set, the promises that were settled and what was put on which transport. handle
--     is cut at the call of the handler: receive is the part before, complete the part behind.
--     What a transport's send throws is an argument of each call. Rpc/Events has the events that
--     can happen to a peer: a list of them is an interleaving of the asynchronous parts, since
--     nothing else runs within one.
--   * Delivery: packages/core/src/delivery-capacity.ts, the monitor that warns of pending bytes and keeps
--     new work out once the store has failed. Math.ceil(max * 0.8) is the exact ceiling of four fifths,
--     which it is below 2^50. What readPending returns or throws is an argument of each call.
--   * Idempotency: packages/core/src/idempotency.ts, with the rows that idempotencyPut and idempotencyGet
--     of packages/core/src/store.ts keep. The clock and the fingerprint are arguments of a call, and the
--     end of a promise is an event of its own.
--   * Scheduler: packages/core/src/scheduler-engine.ts. The record Engine has the fields of SchedulerEngine and
--     the rows it works on, what was pushed and what was asked of the engines of sessions and workflows.
--     A method is cut at its first await: Scheduler/Launch has launchAttempt up to there, failAttempt and
--     drainQueue, Scheduler/Finish finishRun and assertRunOwner, Scheduler/Resume what comes back from
--     awaits, timers and sessions, Scheduler/Flows onWorkflowEvent, Scheduler/Requests launchRun and
--     createRuntime, Scheduler/Triggers the table of schedules and armCron, Scheduler/Schedules update and
--     delete, Scheduler/Calls the calls on runs, leases and disposal, Scheduler/Clock onCronFire and the timer
--     of armCron, Scheduler/Restore restoreCron and create, Scheduler/Replay
--     replayUnacked, transportReconnected and resolve; acceptCronRun of packages/core/src/store.ts is
--     with launchRun. A round of onCronFire is cut at its await as well; what it throws leaves the state as
--     it is. Scheduler/Events has what can happen, but for the adoption of orphaned runs: a list of events
--     is an interleaving. A runtime
--     object is known by its run id, since no id comes back into the map once it has left it. finishRun and
--     failAttempt return whether the queue is drained next, which the code does as their last call. The
--     writes to the store commit.
--   * Policy: packages/core/src/policy.ts, packages/core/src/workspace-paths.ts and isPathUnderRoots of
--     packages/protocol/src/schemas/policy.ts. Policy/Glob makes the pieces of the regular expression that
--     matchGlob builds, its question marks included, and tests a path on them; Policy/Language says what
--     the pieces stand for. Policy/Enforcer is PolicyEnforcer, Policy/Paths the comparisons of paths.
--   * Workflow: packages/core/src/workflow-engine.ts. Workflow/Plan is validatePlan, over the plans of
--     packages/protocol/src/schemas/workflow.ts, and Workflow/State and Workflow/Dag are executeDag. What
--     executeNode comes to for a node, and whether assertCurrent passes, are parameters.
--
-- Bounds and fuel. The loop of nextCronAfter has a cap of its own, hardIterCap, and the model's fuel is
-- what is left of it, so no occurrence is lost to the model. All other loops run over lists. The
-- loop of executeDag runs on one more step than the plan has nodes; each step settles a node or ends.
-- Sequence numbers are non-negative; ack takes any integer and tests for a safe one as the code does.
-- drainQueue takes at least one id from the queue in each round and runs on as many rounds as the queue is
-- long. A retry's delay doubles in the unbounded numbers, and the minimum with 1000 is taken of that.
--
-- Not modelled: the sessions, adapters and file services, the adoption of orphaned runs by a scheduler
-- (reconcileOrphanedRuns), the graph and discussion modes of workflows beyond the check of
-- their plans, and everything that only calls the operating system. Schema migrations and the SQL engine
-- itself are taken as they are documented: a statement has its effect on the rows, and a transaction is
-- all or nothing.
pub mod Base
pub mod Js
pub mod Cron
pub mod Store
pub mod Outbox
pub mod Rpc
pub mod Workflow
pub mod Delivery
pub mod Idempotency
pub mod Scheduler
pub mod Policy
