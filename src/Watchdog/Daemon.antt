-- ===== src/Watchdog/Daemon.antt =====
-- The wedge detector of daemon/src/automation/tasks/context-watchdog.ts beside the routes of
-- daemon/src/api/unified-tasks.ts and daemon/src/api/task-queue.ts and the sweeps of
-- daemon/src/automation/tasks/orchestrator-idle.ts, on one table of tasks.
use kithkit.Base.{ℕ, zero, suc, ◌≤◌, String, Bool, false, List, [], ◌∷◌, Option, ◌≡◌}
use kithkit.Tasks.Checked.{Checked, ok, fail}
use kithkit.Tasks.Row.{Task}
use kithkit.Tasks.Requests
use kithkit.TaskQueue
use kithkit.TaskQueue.Both.{AnyRequest, newer, older, any_step}
use kithkit.TaskQueue.Rows.{CreateBody, create}
use kithkit.Agents.Job.{JobRecord, JobStatus}
use kithkit.Idle.Sweeps.{cleanup_zombie_tasks, cleanup_orphaned_tasks}
use kithkit.Watchdog.{State, monitor_orchestrator_wedge}
use kithkit.Watchdog.Signals.{Activity, Sight, reset_tasks}

-- What happens to the tables: a tick of the watchdog, a request for the task at a position, the
-- creation of a task, a change of the jobs and of the row of the orchestrator, or one of the two sweeps
-- of the idle monitor.
pub data Event : Type 0 where
  ticks : Sight → Event
  asks : ℕ → AnyRequest → Event
  creates : String → CreateBody → ℕ → Event
  lives : List JobRecord → Option Activity → Event
  buries : (Option String → Option (List JobStatus)) → ℕ → Event
  sweeps : (Option String → Option (List JobStatus)) → Option ℕ → ℕ → Event

-- What the routes take from elsewhere.
pub record Surroundings : Type 0 where
  pub newer_env : Requests.Env
  pub older_env : TaskQueue.Env
  pub clean : String → String
  pub safe : CreateBody → Bool

abbrev pub with_task : (Task → Task) → ℕ → List Task → List Task
with_task change n [] = []
with_task change zero (t ∷ ts) = change t ∷ ts
with_task change (suc n) (t ∷ ts) = t ∷ with_task change n ts

abbrev pub add_created : Checked Task → List Task → List Task
add_created (ok t) tasks = t ∷ tasks
add_created (fail code) tasks = tasks

unfoldable pub happen : Surroundings → State → Event → State
unfolding monitor_orchestrator_wedge any_step create cleanup_zombie_tasks cleanup_orphaned_tasks
happen e s (ticks v) = (monitor_orchestrator_wedge v s).0
happen e s (asks n r) = record s {
  tasks = with_task (λ t. any_step e.newer_env e.older_env t r) n s.tasks;
}
happen e s (creates id b ts) = record s {
  tasks = add_created (create e.clean e.safe id b ts) s.tasks;
}
happen e s (lives jobs agent) = record s { jobs = jobs; agent = agent }
happen e s (buries workers now) = record s { tasks = cleanup_zombie_tasks workers now s.tasks }
happen e s (sweeps workers started now) = record s {
  tasks = cleanup_orphaned_tasks workers started now s.tasks;
}

unfoldable pub run : Surroundings → State → List Event → State
unfolding happen
run e s [] = s
run e s (x ∷ xs) = run e (happen e s x) xs

abbrev pub newer_time : Requests.Request → ℕ
newer_time (Requests.submits f ts) = ts
newer_time (Requests.rejects f ts) = ts
newer_time (Requests.retries f ts) = ts
newer_time (Requests.approves ts) = ts
newer_time (Requests.cancels ws ts) = ts
newer_time (Requests.updates b ts) = ts

abbrev pub older_time : TaskQueue.Request → ℕ
older_time (TaskQueue.submits f ts) = ts
older_time (TaskQueue.rejects f ts) = ts
older_time (TaskQueue.retries ts) = ts
older_time (TaskQueue.approves ts) = ts
older_time (TaskQueue.cancels ws ts) = ts
older_time (TaskQueue.updates b ts) = ts
older_time (TaskQueue.posts b ts) = ts

abbrev pub request_time : AnyRequest → ℕ
request_time (newer r) = newer_time r
request_time (older r) = older_time r

-- The instant of an event, at the latest instant before it.
abbrev pub time : ℕ → Event → ℕ
time clock (ticks v) = v.now
time clock (asks n r) = request_time r
time clock (creates id b ts) = ts
time clock (lives jobs agent) = clock
time clock (buries workers now) = now
time clock (sweeps workers started now) = now

-- The events come in the order of their instants.
abbrev pub IsTimely : ℕ → List Event → Type 0
IsTimely clock [] = Unit
IsTimely clock (x ∷ xs) = (clock ≤ time clock x) × IsTimely (time clock x) xs

abbrev pub Resets : Event → Type 0
Resets (ticks v) = v.fails reset_tasks ≡ false
Resets (asks n r) = Unit
Resets (creates id b ts) = Unit
Resets (lives jobs agent) = Unit
Resets (buries workers now) = Unit
Resets (sweeps workers started now) = Unit

-- In no tick the statements fail that make the frozen tasks pending.
abbrev pub IsResetting : List Event → Type 0
IsResetting [] = Unit
IsResetting (x ∷ xs) = Resets x × IsResetting xs
