-- ===== src/Idle/Sweeps.antt =====
-- daemon/src/automation/tasks/orchestrator-idle.ts: `cleanupZombieTasks` and `cleanupOrphanedTasks`, and
-- daemon/src/automation/tasks/helpers/task-worker-guard.ts. The updates name a task by its external
-- id, which the schema makes unique; one without an id is left. `workers` are the statuses of the workers
-- of the task with an external id.
use kithkit.Base.{
  ℕ, ◌-◌, ◌*◌, String, Bool, true, false, not, ◌&&◌, ◌||◌, List, map, Option, none, some, any, ltb,
  if◌then◌else◌,
}
use kithkit.Tasks.Status.{TaskStatus, assigned, in_progress, same}
use kithkit.Tasks.Status
use kithkit.Tasks.Row.{Task, is_todo}
use kithkit.Agents.Job.{JobStatus, queued, running, completed, failed, timeout}

abbrev is_dead : JobStatus → Bool
is_dead failed = true
is_dead timeout = true
is_dead queued = false
is_dead running = false
is_dead completed = false

-- `statuses` are those of the workers of the task, `none` where the query throws.
unfoldable pub has_recoverable_worker : (statuses : Option (List JobStatus)) → Bool
has_recoverable_worker none = true
has_recoverable_worker (some statuses) = any (λ s. not (is_dead s)) statuses

abbrev pub is_held : TaskStatus → Bool
is_held s = same s in_progress || same s assigned

abbrev pub has_id : Task → Bool
has_id t = elim t.external_id [ none ↦ false | some id ↦ true ]

-- `kind = 'orchestrator' AND status IN ('in_progress', 'assigned')`
abbrev pub is_zombie : Task → Bool
is_zombie t = not (is_todo t.kind) && is_held t.status

abbrev pub recover_zombie : ℕ → Task → Task
recover_zombie now t = record t { status = assigned; assigned_at = some now; updated_at = now }

abbrev pub bury : String → ℕ → Task → Task
bury why now t = record t {
  status = Status.failed;
  error = some why;
  completed_at = some now;
  updated_at = now;
}

module _ (workers : Option String → Option (List JobStatus)) where
  abbrev pub sweep_zombie : ℕ → Task → Task
  sweep_zombie now t =
      if is_zombie t && has_id t
      then (if has_recoverable_worker (workers t.external_id)
          then recover_zombie now t
          else bury "orchestrator_died" now t)
      else t

  unfoldable pub cleanup_zombie_tasks : ℕ → List Task → List Task
  unfolding has_recoverable_worker
  cleanup_zombie_tasks now tasks = map (sweep_zombie now) tasks

  abbrev or_created : Option ℕ → ℕ → ℕ
  or_created none created = created
  or_created (some at) created = at

  -- Whether the task is older than the orchestrator.
  abbrev predates : ℕ → Task → Bool
  predates started t =
      same t.status in_progress && ltb (or_created t.started_at t.created_at) started
      || same t.status assigned && ltb (or_created t.assigned_at t.created_at) started

  abbrev pub orphan_recent_activity_ms : ℕ
  orphan_recent_activity_ms = 5 * 60 * 1000

  abbrev pub is_orphan : ℕ → ℕ → Task → Bool
  is_orphan started now t =
      is_zombie t && predates started t && ltb t.updated_at (now - orphan_recent_activity_ms)

  abbrev pub sweep_orphan : ℕ → ℕ → Task → Task
  sweep_orphan started now t =
      if is_orphan started now t && has_id t
      then (if has_recoverable_worker (workers t.external_id)
          then record t { status = assigned; error = none; updated_at = now }
          else bury "orchestrator_restarted" now t)
      else t

  -- `started` is that of the orchestrator's row, where there is one.
  unfoldable pub cleanup_orphaned_tasks : (started : Option ℕ) → ℕ → List Task → List Task
  unfolding has_recoverable_worker
  cleanup_orphaned_tasks none now tasks = tasks
  cleanup_orphaned_tasks (some started) now tasks = map (sweep_orphan started now) tasks
