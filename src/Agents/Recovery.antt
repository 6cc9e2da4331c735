-- ===== src/Agents/Recovery.antt =====
-- daemon/src/agents/recovery.ts: what the daemon does about jobs and agents after a crash.
use kithkit.Base.{
  ℕ, String, Bool, true, false, not, ◌&&◌, List, [], ◌∷◌, Option, none, some, length, filter,
  if◌then◌else◌, ◌≡◌, refl, inl, inr, arith, Option-cases,
}
use kithkit.Base.Dict
use kithkit.Base.Dict.{Dict}
use kithkit.Agents.Agent
use kithkit.Agents.Agent.{AgentRecord}
use kithkit.Agents.Job
use kithkit.Agents.Job.{JobRecord, is_finished, is_queued}
use kithkit.Agents.Lifecycle.{State}
use kithkit.Agents.Control.{crash, abandon_job, abandon, orphans, cleanup_orphaned_agents}

-- `status IN ('running', 'queued') AND finished_at IS NULL`
abbrev pub is_interrupted : JobRecord → Bool
is_interrupted job =
    not (is_finished job.status) && elim job.finished_at [ none ↦ true | some _ ↦ false ]

abbrev pub fail_interrupted : ℕ → JobRecord → JobRecord
fail_interrupted now job =
    if is_interrupted job
    then record job { status = Job.failed; error = some "Daemon restarted"; finished_at = some now }
    else job

-- The interrupted jobs are updated one by one.
unfoldable pub fail_each : ℕ → Dict JobRecord → Dict JobRecord
fail_each now [] = []
fail_each now ((id, job) ∷ jobs) = (id, fail_interrupted now job) ∷ fail_each now jobs

pub record RecoveryReport : Type 0 where
  pub orphans_cleaned : ℕ
  pub failed_jobs_recovered : ℕ

unfoldable pub recover_from_restart : State → ℕ → State × RecoveryReport
unfolding fail_each cleanup_orphaned_agents
recover_from_restart s now =
    let (cleaned, count) = cleanup_orphaned_agents s now in
    (
      record cleaned { worker_jobs = fail_each now cleaned.worker_jobs },
      record {
        orphans_cleaned = count;
        failed_jobs_recovered = length (filter (λ e. is_interrupted e.1) cleaned.worker_jobs);
      },
    )

-- A job has the id of its agent.
abbrev pub fail_crashed : ℕ → JobRecord → JobRecord
fail_crashed now job =
    if is_finished job.status
    then job
    else record job { status = Job.failed; error = some "Agent crashed"; finished_at = some now }

unfoldable pub mark_agent_crashed : State → String → ℕ → State
mark_agent_crashed s id now = record s {
  agents = Dict.modify id (crash now) s.agents;
  worker_jobs = Dict.modify id (fail_crashed now) s.worker_jobs;
}

abbrev time_out : ℕ → JobRecord → JobRecord
time_out now job = record job {
  status = Job.timeout;
  error = some "Worker inactivity timeout (5 min default)";
  finished_at = some now;
}

abbrev stop_agent : ℕ → AgentRecord → AgentRecord
stop_agent now a = record a { status = Agent.stopped; updated_at = now }

-- Without the message to the orchestrator.
unfoldable pub handle_worker_timeout : State → String → ℕ → State
handle_worker_timeout s id now = record s {
  agents = Dict.modify id (stop_agent now) s.agents;
  worker_jobs = Dict.modify id (time_out now) s.worker_jobs;
}

unfoldable pub get_pending_jobs_for_recovery : State → Dict JobRecord
get_pending_jobs_for_recovery s = filter (λ e. is_queued e.1.status) s.worker_jobs

module _ (id : String) where
  abbrev failed_at : ℕ → Option JobRecord → Option JobRecord
  failed_at now none = none
  failed_at now (some job) = some (fail_interrupted now job)

  get-fail_each :
      (now : ℕ) (jobs : Dict JobRecord)
      → Dict.get id (fail_each now jobs) ≡ failed_at now (Dict.get id jobs)
  unfolding fail_each Dict.get
  get-fail_each now [] = refl
  get-fail_each now ((j, job) ∷ jobs) = ground (arith, get-fail_each now jobs)

  abandon-finished :
      (ids : List String) (now : ℕ) (s : State) (job : JobRecord)
      → Dict.get id s.worker_jobs ≡ some job
      → is_finished job.status ≡ true
      → Dict.get id (abandon ids now s).worker_jobs ≡ some job
  unfolding abandon
  abandon-finished [] now s job e f = e
  abandon-finished (j ∷ ids) now s job e f =
      abandon-finished ids now
        (record s {
          agents = Dict.modify j (crash now) s.agents;
          worker_jobs = Dict.modify j (abandon_job now) s.worker_jobs;
        })
        job (ground (arith, e, f, Dict.get-modify j id (abandon_job now) s.worker_jobs)) f

  abbrev pub IsSettled : Option JobRecord → Type 0
  IsSettled none = Unit
  IsSettled (some job) = is_interrupted job ≡ false

  -- Whatever the tables hold when the daemon starts, after the recovery a job is not queued or running
  -- without an end.
  pub recovered :
      (s : State) (now : ℕ) → IsSettled (Dict.get id (recover_from_restart s now).0.worker_jobs)
  unfolding recover_from_restart cleanup_orphaned_agents
  recovered s now =
      let cleaned = (abandon (orphans s.agents) now s).worker_jobs in
      elim (Option-cases (Dict.get id cleaned)) [
        | inl e ↦ ground (arith, e, get-fail_each now cleaned)
        | inr (job, e) ↦ ground (arith, e, get-fail_each now cleaned)
      ]

  -- A job that had ended before the daemon starts keeps its row.
  pub recovery_keeps_finished :
      (s : State) (now : ℕ) (job : JobRecord)
      → Dict.get id s.worker_jobs ≡ some job
      → is_finished job.status ≡ true
      → Dict.get id (recover_from_restart s now).0.worker_jobs ≡ some job
  unfolding recover_from_restart cleanup_orphaned_agents
  recovery_keeps_finished s now job e f = ground (
    arith,
    f,
    abandon-finished (orphans s.agents) now s job e f,
    get-fail_each now (abandon (orphans s.agents) now s).worker_jobs,
  )
