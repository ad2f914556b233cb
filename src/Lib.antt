-- ===== src/Lib.antt =====
-- go_claw: a verification library for go-claw, a daemon that runs tasks of language-model agents.
--
-- The program keeps its work in one SQLite database. A session's prompt becomes a task; the workers of
-- an engine claim tasks under leases, run them through a model provider, and complete or fail them; a
-- failed task is retried with backoff until it is a dead letter. Plans split work into steps that run in
-- waves. A policy decides what tools may reach.
--
-- The files and the code that they model:
--   * Tasks/Model, Tasks/Transition: rows, statuses and constants of internal/persistence/store.go,
--     canTransition, appendTaskEventTx and transitionTaskTx. A table is a list of records, a statement of
--     SQL a function on it, a transaction a function that returns the new store or an error, with commit
--     and rollback in `commit`.
--   * Tasks/Lifecycle, Tasks/Finish, Tasks/Failure, Tasks/Recovery: the operations of
--     internal/persistence/tasks.go: createTask, CreateSubtask, RecordToolTask, claimNextPendingTask,
--     StartTaskRun, HeartbeatLease, CompleteTask, FailTask, RequestCancel, AbortTask, RecordTaskMetrics, HandleTaskFailure, retryDelay,
--     RequeueExpiredLeases, RecoverRunningTasks and AgeQueuedPriorities.
--   * Tasks/Steps, Tasks/Moves, Tasks/Refinement: the abstract step (rows change one by one along the
--     table of transitions, the log grows) and that each operation takes it; Tasks/Inserts, Runs and Unique:
--     runs of operations; Tasks/Outcomes, Tasks/Queue, Tasks/Claimed, Tasks/Failed, Tasks/Backoff: what
--     single operations come to.
--   * Dedup: the table tool_call_dedup (CheckToolCallDedup, RegisterSuccessfulToolCall).
--   * Coordinator/Plan: Plan.Validate of internal/coordinator/plan.go and topoSort of executor.go. The
--     loop has fuel of one more than the number of steps, which is enough, since each round processes a
--     new step. Coordinator/Keys, TopoSort, Layers, Cycles, Complete
--     and Validated hold the proofs.
--   * Memory/Window: BuildWindow of internal/memory/window.go; Memory/Fits its proofs.
--   * Policy/Model, Policy/Live: internal/policy/policy.go; Policy/Mcp, Policy/Urls and Policy/Known the
--     proofs.
--   * Engine/Failover: internal/engine/failover.go; Engine/Breakers, Requests and Tripped the proofs.
--   * Engine/Loop: LoopRunner.Run of internal/engine/loop.go and the rows of internal/persistence/loops.go;
--     its fuel is one more than the step limit, since each pass that goes on makes a step. Engine/Checkpoints
--     loads and removes checkpoints; Engine/Budget and Engine/Resumption hold the proofs.
--   * Tasks/Sessions: EnsureSession and AddHistory of internal/persistence/sessions.go, and the queue
--     depths; Tasks/Aborted and Tasks/Started: what an abort and a start come to.
--   * Workers/Model, Handling, Passes, Intake, Streams: internal/engine/engine.go: the engine's state and
--     what others do with the database meanwhile, handleTask, a pass of worker, createChatTaskWithDepth
--     and streamChatTask. Workers/Valid, Handled and Served hold the proofs.
--   * Delegations/Model, Requests, Injection: the table of internal/persistence/delegations.go,
--     delegateTaskAsync of internal/tools/delegate.go, and injectPendingDelegations of
--     internal/engine/brain.go. Delegations/Delivered and Workers/Delegated hold the proofs that follow a
--     delegation from its request to the conversation of the agent that asked.
--   * Bus/Model: internal/bus/bus.go, a channel as the list of its buffered events; Bus/Delivery, Runs,
--     Fifo and Threshold the proofs. The loop of dropThreshold has the count as fuel, since every round
--     multiplies the threshold by ten.
--   * Plans/Records: the tables plan_executions and plan_execution_steps of internal/persistence/store.go;
--     Plans/Router: the task router and the waiter, an interface with laws; Plans/Waves and
--     Plans/Execution: executeWave, Execute and Resume of internal/coordinator/executor.go and
--     RetryWithError of retry.go; the other modules of Plans hold the proofs.
--   * Gateway/Access: the middleware of internal/gateway/auth.go and ratelimit.go, in the order of
--     buildHandler in gateway.go; Gateway/Limits, Guarded, Bounded and Keys the proofs.
--   * Cron/Model: the table of schedules in internal/persistence/store.go, fire and tick of
--     internal/cron/scheduler.go; Cron/Requests: the cron methods of handleRPC in
--     internal/gateway/gateway.go; Cron/Ticks and Cron/Silent the proofs.
--   * Common: Boolean tests, lists, sorting by a key, and options; Examples: the theorems at concrete inputs.
--
-- The workers of several engines and the callers of the program use the store at the same time. The
-- theorems on runs quantify over every sequence of the operations of Tasks/Runs. The others of
-- Workers/Model use those operations, sessions, history and delegations, at the points that a pass and a
-- handling name; the calls of handleTask that follow the processor count as one step.
--
-- Bounds and arguments. Go's int and time values that the code keeps nonnegative are natural numbers
-- (priorities, attempts, tokens, times in nanoseconds); FNV-1a hashing wraps at 2 ^ 64. Times, uuids, the
-- answers of model providers, the processor's results, the encoding of JSON, URL and address parsing,
-- and the lower-casing and trimming of text are arguments. The text of an error is hashed over its bytes, which an argument gives; a task id is ASCII.
--
-- A MaxTokens below zero, which turns the token budget of a loop off, is left out.
--
-- Not modelled: DeleteAgent's update of tasks, retention and PurgeSessionPII, which also write to the
-- tasks; the token counters of tasks; errors of the database itself (input and output, a busy lock and its retries), the
-- comparison of two encodings of one time as text, costs in floating point, the rounding of
-- the rate limiter's tokens, locks and goroutines (each
-- operation is one transaction on the one connection), logs, the policy's file paths, the copy of the
-- breakers in the key-value table, int64 overflow of the bus's counters, the approval gate of plans
-- (which nothing calls), the wire protocols, the tools and the user interfaces.
pub mod Common
pub mod Tasks
pub mod Coordinator
pub mod Memory
pub mod Policy
pub mod Engine
pub mod Dedup
pub mod Bus
pub mod Delegations
pub mod Workers
pub mod Plans
pub mod Gateway
pub mod Cron
pub mod Examples
