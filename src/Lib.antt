-- ===== src/Lib.antt =====
-- Verification library of kithkit, a daemon that runs personal-assistant agents.
--
-- The daemon starts workers and queues their jobs, keeps tasks in a database and serves them over
-- HTTP, limits how often its routes are called and how often a sender is heard, and holds outbound
-- messages until a human approves them. It restarts the orchestrator where that is stuck and shuts it
-- down where that is idle. It runs scheduled tasks, passes messages between agents and
-- to other daemons, and keeps its tables up to date by migrations. The library models these parts:
--
-- - Tasks/Status.antt: daemon/src/core/task-state-machine.ts, the statuses, the transition table,
--   aliases and timestamp side effects. `status_text` renders a status as the source's string.
-- - Tasks/Row.antt, Tasks/Plan.antt, Tasks/Ending.antt, Tasks/Writes.antt, Tasks/Update.antt: the
--   lifecycle routes of daemon/src/api/unified-tasks.ts; PUT is `update`, and Tasks/Writes.antt what it
--   writes into the columns. A route is a function from the row as the handler read it and
--   the request to an `Answer`: a refusal with its status code, or the UPDATE as a function of the
--   row that stands in the table when it is written. So a request that slips in between the read
--   and the write can be stated. Tasks/Requests.antt puts the routes together as one step on a row.
-- - TaskQueue.antt and TaskQueue/: daemon/src/api/task-queue.ts, the older routes, on the same rows and in
--   the same form. TaskQueue/Update.antt is PUT, TaskQueue/Rows.antt the creation and the list.
--   TaskQueue/Both.antt mixes requests at the older and the newer routes.
-- - Watchdog.antt, Watchdog/Frozen.antt, Watchdog/Signals.antt: the wedge detector of
--   daemon/src/automation/tasks/context-watchdog.ts on the tables `tasks` and `worker_jobs`. A tick gives
--   the new state and what it came to; a `Sight` says what it finds outside and which of its
--   statements throw. Watchdog/Context.antt: the warnings to comms about a full context, of the same file.
--   Watchdog/Daemon.antt: its ticks in between requests at both sets of task routes and the sweeps of the
--   idle monitor.
-- - Idle.antt, Idle/Sweeps.antt: daemon/src/automation/tasks/orchestrator-idle.ts, the idle monitor of the
--   orchestrator, and helpers/task-worker-guard.ts there. The checks of `run` are functions of their
--   own that are chained as the source returns early.
-- - Limits/Fixed.antt: the class `RateLimiter` of daemon/src/core/rate-limiter.ts.
-- - Limits/Sliding.antt: `createRateLimiter` of daemon/src/api/rate-limit.ts.
-- - Approval/Gate.antt: `approvalGate`, `resolveGate`, `recordSuccessfulSend` and
--   `sweepStaleApprovals` of daemon/src/comms/approval-gate.ts. A promise that the gate returned is
--   settled when its id enters `settled`; timers and failed deliveries are events.
-- - Approval/Router.antt: daemon/src/comms/channel-router.ts. The channels of one `routeMessage` end
--   in any order, each with the answers of the gate and of its adapter.
-- - Access.antt: daemon/src/core/access-control.ts, the tier of a sender and its requests per minute.
-- - Agents/Agent.antt, Agents/Job.antt: the rows of the tables `agents` and `worker_jobs`.
--   Agents/Lifecycle.antt, Agents/Control.antt: daemon/src/agents/lifecycle.ts. `spawn_worker_job`,
--   `finish_job`, `process_queue`, `kill_job`, `poll` and `cleanup_orphaned_agents` act on one state
--   of both tables, the queue, the stored requests and the poll timers. The recursion of `finishJob`
--   and `processQueue` is cut by the guard of the latter, so the loop recurs on the queue.
--   Agents/Recovery.antt: daemon/src/agents/recovery.ts, on the same tables.
-- - Scheduler.antt, Scheduler/Interval.antt, Scheduler/Engine.antt: the class `Scheduler` of
--   daemon/src/automation/scheduler.ts and `parseInterval` of daemon/src/core/config.ts. The task
--   objects stand in a store and the map of names points into it, since an execution in flight keeps
--   its object when a reload replaces it. The part of `_runTask` before the execution is `run_task`,
--   the part after it `complete`.
-- - Messages.antt: daemon/src/agents/message-router.ts. `send_message` gives the new state, the
--   effects outside the tables and what the caller sees. Messages/Reads.antt: the reads of the rows and
--   the marks on them.
-- - Migrations.antt: daemon/src/core/migrations.ts, from the names of the files and the lines of a
--   script to the table `migrations`. A transaction is a function to the state after it or an error.
-- - Network/Queue.antt: the class `RetryQueue` of .a2a-sdk/packages/sdk/src/retry.ts. Its loop over the
--   map is cut where it waits for the send function, and the rounds of the timer interleave.
--   Network/Communities.antt: the failover between the relays of a community and the parsing of a
--   qualified name, of .a2a-sdk/packages/sdk/src/community-manager.ts.
--   Network/Registration.antt: daemon/src/extensions/comms/network/retry.ts.
-- - Tokens.antt: daemon/src/auth/agent-tokens.ts.
-- - Routes.antt: daemon/src/core/route-registry.ts.
--
-- Base.antt has what they share: names of the libraries, tests on the native numbers, list lemmas,
-- `Base.Dict` for a JavaScript `Map`, `Base.Heap` for objects that several parts hold, `Base.Sort`
-- for a stable sort, and `Base.Js` for values of a request body,
-- whose numbers are fractions with a sign.
--
-- Instants are numbers of milliseconds and an argument of each operation, in place of the clock. Only
-- `retry_loop` of Network/Registration.antt runs on fuel, one for each attempt; ten are enough, as
-- the code makes at most ten. Parameters stand for code from elsewhere: JavaScript's `trim`, the verdict
-- of the credential guard, the configuration, the canonical form of an address, the launch of a
-- worker by the SDK, the cron library, the tmux injector, the answers of callbacks, the execution of
-- SQL by SQLite, random bytes, the send function of the retry queue, and the answers of relays and of
-- route handlers.
--
-- The parts meet in few places. The older and the newer task routes, the watchdog and the idle
-- monitor act on the same rows, and the last two read the jobs of the worker lifecycle. The
-- channel router asks the gate before each send. The task routes, the limiters, access control,
-- the scheduler, the message router, the tokens, the routes and the retries keep states of their
-- own. The recovery acts on the tables of the worker lifecycle.
--
-- Not modelled: retro evaluations beyond their request; the warnings to the orchestrator about a
-- full context, whose injections are awaited; creation, listing and deletion of tasks at the newer
-- routes; failures of the database outside the migrations and the watchdog; the messages of the
-- recovery; the reminders and post-mortems of the idle monitor; log lines and the texts of
-- messages; and the rest of the daemon, the command line and the network SDK, much of it calls of
-- other services.
pub mod Base
pub mod Access
pub mod Agents
pub mod Approval
pub mod Idle
pub mod Limits
pub mod Messages
pub mod Migrations
pub mod Network
pub mod Routes
pub mod Scheduler
pub mod TaskQueue
pub mod Tasks
pub mod Tokens
pub mod Watchdog
