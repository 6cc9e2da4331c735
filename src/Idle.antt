-- ===== src/Idle.antt =====
-- daemon/src/automation/tasks/orchestrator-idle.ts: one tick of the idle monitor, on the tables and on the
-- variables of the module. One instant stands for all the times that a tick reads.
pub mod Sweeps
pub mod Mercy
pub mod Zombies
pub mod Reaped
mod Samples
use kithkit.Base.{
  ℕ, ◌+◌, ◌*◌, String, Bool, true, false, not, ◌&&◌, ◌||◌, List, [], ◌∷◌, Option, none, some, any,
  ltb, leb, ◌==◌, if◌then◌else◌,
}
use kithkit.Tasks.Status.{TaskStatus, pending, awaiting_approval, same}
use kithkit.Tasks.Row.{Task, is_todo}
use kithkit.Agents.Agent.{AgentRecord, AgentStatus, stopped, crashed}
use kithkit.Agents.Agent
use kithkit.Agents.Job.{JobStatus, JobRecord, queued, running, completed, failed, timeout}
use kithkit.Watchdog.Context.{ContextFile}
use kithkit.Watchdog.Frozen.{later}
use kithkit.Idle.Sweeps.{is_zombie, cleanup_zombie_tasks, cleanup_orphaned_tasks}

pub record State : Type 0 where
  pub just_spawned_at : Option ℕ
  pub shutdown_nudged_at : Option ℕ
  pub pending_active_nudged_at : Option ℕ
  pub last_in_progress_updated_at : Option ℕ
  pub in_progress_no_progress_ticks : ℕ
  pub tasks : List Task
  pub jobs : List JobRecord
  pub agent : Option AgentRecord

-- What a tick finds outside the tables: whether the session is alive, whether Claude has child processes,
-- whether the injection of a message succeeds, what the spawn gives, the file with the usage of the
-- context, the configuration, and the statuses of a task's workers.
pub record Look : Type 0 where
  pub now : ℕ
  pub alive : Bool
  pub processing : Bool
  pub injected : Bool
  pub session : Option String
  pub context_file : Option ContextFile
  pub idle_timeout_minutes : Option ℕ
  pub workers : Option String → Option (List JobStatus)

pub data Outcome : Type 0 where
  exited extended force_killed in_grace respawning dead : Outcome
  renudged received busy working awaiting unregistered not_idle woken resumed : Outcome
  nudged killed : Outcome

abbrev default_idle_timeout_ms : ℕ
default_idle_timeout_ms = 10 * 60 * 1000

abbrev grace_period_ms : ℕ
grace_period_ms = 60 * 1000

abbrev fast_retry_window_ms : ℕ
fast_retry_window_ms = 30000

abbrev pending_active_nudge_cooldown_ms : ℕ
pending_active_nudge_cooldown_ms = 10 * 60 * 1000

abbrev in_progress_no_progress_budget : ℕ
in_progress_no_progress_budget = 3

abbrev context_threshold_pct : ℕ
context_threshold_pct = 65

abbrev context_stale_seconds : ℕ
context_stale_seconds = 600

abbrev is_active : JobStatus → Bool
is_active queued = true
is_active running = true
is_active completed = false
is_active failed = false
is_active timeout = false

abbrev pub has_active : List JobRecord → Bool
has_active jobs = any (λ j. is_active j.status) jobs

abbrev pub has_status : TaskStatus → List Task → Bool
has_status status tasks = any (λ t. not (is_todo t.kind) && same t.status status) tasks

abbrev pub has_live_work : State → Bool
has_live_work s = has_active s.jobs || has_status awaiting_approval s.tasks

-- `UPDATE agents` on the row of the orchestrator, where there is one.
abbrev on_agent : (AgentRecord → AgentRecord) → State → State
on_agent change s = record s { agent = elim s.agent [ none ↦ none | some a ↦ some (change a) ] }

abbrev pub touch : ℕ → State → State
touch now s = on_agent (λ a. record a { last_activity = some now; updated_at = now }) s

abbrev pub stop : ℕ → State → State
stop now s = on_agent (λ a. record a { status = stopped; updated_at = now }) s

abbrev is_down : AgentStatus → Bool
is_down stopped = true
is_down crashed = true
is_down _ = false

abbrev correct : ℕ → State → State
correct now s =
    on_agent (λ a. if is_down a.status then a else record a { status = stopped; updated_at = now })
      s

abbrev bury_zombies : Look → State → State
bury_zombies v s = record s { tasks = cleanup_zombie_tasks v.workers v.now s.tasks }

abbrev pub started : Option AgentRecord → Option ℕ
started none = none
started (some a) = a.started_at

abbrev pub sweep : Look → State → State
sweep v s = record s { tasks = cleanup_orphaned_tasks v.workers (started s.agent) v.now s.tasks }

abbrev registered : ℕ → Option AgentRecord → AgentRecord
registered now (some a) = record a {
  status = Agent.running;
  started_at = some now;
  updated_at = now;
}
registered now none = record {
  kind = Agent.orchestrator;
  profile = some "orchestrator";
  status = Agent.running;
  started_at = some now;
  last_activity = none;
  state = none;
  created_at = now;
  updated_at = now;
}

abbrev pub respawn : Look → State → State
respawn v s = elim v.session [
  | none ↦ s
  | some _ ↦ record s { agent = some (registered v.now s.agent); just_spawned_at = some v.now }
]

-- A nudge to shut down has been sent at an instant.
unfoldable pub after_nudge : Look → ℕ → State → State × Outcome
unfolding cleanup_zombie_tasks
after_nudge v at s =
    if not v.alive
    then (record (bury_zombies v s) { shutdown_nudged_at = none }, exited)
    else if ltb v.now (at + grace_period_ms)
    then (s, in_grace)
    else if has_live_work s
    then (record s { shutdown_nudged_at = some v.now }, extended)
    else (record (bury_zombies v (stop v.now s)) { shutdown_nudged_at = none }, force_killed)

unfoldable pub while_dead : Look → State → State × Outcome
unfolding cleanup_zombie_tasks
while_dead v s =
    let t = correct v.now (bury_zombies v s) in
    if has_status pending t.tasks || has_status awaiting_approval t.tasks
    then (respawn v t, respawning)
    else (t, dead)

-- Where the message cannot be injected the session is killed.
unfoldable pub shut_down : Look → State → State × Outcome
shut_down v s =
    if v.injected
    then (record s { shutdown_nudged_at = some v.now }, nudged)
    else (stop v.now s, killed)

abbrev is_cool : ℕ → Option ℕ → Bool
is_cool now none = true
is_cool now (some at) = leb (at + pending_active_nudge_cooldown_ms) now

unfoldable pub while_busy : Look → State → State
while_busy v s =
    if not (has_status pending s.tasks)
    then record s { pending_active_nudged_at = none }
    else if is_cool v.now s.pending_active_nudged_at && v.injected
    then record s { pending_active_nudged_at = some v.now }
    else s

abbrev usage : ℕ → Option ContextFile → Option ℕ
usage now none = none
usage now (some f) =
    if ltb (f.mtime + context_stale_seconds * 1000) now
    then none
    else elim f.content [ none ↦ none | some d ↦ d.used_percentage ]

abbrev is_full : Option ℕ → Bool
is_full none = false
is_full (some used) = leb context_threshold_pct used

-- `MAX(updated_at)` of the tasks that the orchestrator holds.
unfoldable pub max_held : List Task → Option ℕ
max_held [] = none
max_held (t ∷ ts) =
    let rest = max_held ts in if is_zombie t then some (later t.updated_at rest) else rest

abbrev is_same : ℕ → Option ℕ → Bool
is_same m none = false
is_same m (some n) = m == n

unfoldable pub count_tick : ℕ → State → State
count_tick m s =
    if is_same m s.last_in_progress_updated_at
    then record s { in_progress_no_progress_ticks = s.in_progress_no_progress_ticks + 1 }
    else record s { last_in_progress_updated_at = some m; in_progress_no_progress_ticks = 0 }

abbrev after_message : Look → State → State
after_message v s = if v.injected then touch v.now s else s

-- Check 3b, after the ticks without progress have been counted.
unfoldable pub resume : Look → State → State × Outcome
unfolding shut_down
resume v s =
    if ltb s.in_progress_no_progress_ticks in_progress_no_progress_budget
    then (after_message v s, resumed)
    else shut_down v
        (record s { last_in_progress_updated_at = none; in_progress_no_progress_ticks = 0 })

unfoldable pub time_out : Look → State → State × Outcome
unfolding resume shut_down max_held count_tick
time_out v s =
    if has_status pending s.tasks
    then (after_message v s, woken)
    else elim (max_held s.tasks) [ none ↦ shut_down v s | some m ↦ resume v (count_tick m s) ]

abbrev idle_timeout_ms : Option ℕ → ℕ
idle_timeout_ms none = default_idle_timeout_ms
idle_timeout_ms (some minutes) = minutes * 60 * 1000

abbrev last_active : Option AgentRecord → Option ℕ
last_active none = none
last_active (some a) = elim a.last_activity [ none ↦ a.started_at | some at ↦ some at ]

unfoldable pub check_idle : Look → Option ℕ → State → State × Outcome
unfolding time_out
check_idle v none s = (s, unregistered)
check_idle v (some at) s =
    if ltb v.now (at + idle_timeout_ms v.idle_timeout_minutes) then (s, not_idle) else time_out v s

-- Claude is at its prompt.
unfoldable pub while_idle : Look → State → State × Outcome
unfolding check_idle shut_down
while_idle v s =
    if has_active s.jobs
    then (s, working)
    else if has_status awaiting_approval s.tasks
    then (touch v.now s, awaiting)
    else if is_full (usage v.now v.context_file)
    then shut_down v s
    else check_idle v (last_active s.agent) s

unfoldable pub check_processing : Look → State → State × Outcome
unfolding while_busy while_idle
check_processing v s =
    if v.processing
    then (while_busy v (touch v.now s), busy)
    else while_idle v (record s { pending_active_nudged_at = none })

unfoldable pub while_alive : Look → State → State × Outcome
unfolding check_processing
while_alive v s = elim s.just_spawned_at [
  | none ↦ check_processing v s
  | some at ↦
      if ltb (at + fast_retry_window_ms) v.now
      then check_processing v (record s { just_spawned_at = none })
      else if v.processing
      then (record s { just_spawned_at = none }, received)
      else (s, renudged)
]

abbrev pub attend : Look → State → State × Outcome
attend v s = elim s.shutdown_nudged_at [
  | some at ↦ after_nudge v at s
  | none ↦ if v.alive then while_alive v s else while_dead v s
]

unfoldable pub run : Look → State → State × Outcome
unfolding after_nudge while_alive while_dead cleanup_orphaned_tasks
run v s = attend v (sweep v s)
