-- ===== src/Agents/Control.antt =====
-- The rest of daemon/src/agents/lifecycle.ts: the poll of a worker, the kill of a job, the cleanup of
-- orphans, and all operations as events.
pub mod Capacity
pub mod Finality
pub mod Custody
use kithkit.Base.{
  ℕ, String, Bool, true, false, not, ◌&&◌, List, [], ◌∷◌, Option, none, some, any, length, str_eq,
  if◌then◌else◌, ◌≡◌,
}
use kithkit.Base.Dict
use kithkit.Base.Dict.{Dict}
use kithkit.Agents.Agent
use kithkit.Agents.Agent.{AgentRecord, is_running, is_orphan}
use kithkit.Agents.Job
use kithkit.Agents.Job.{JobRecord, SpawnRequest, Outcome, is_finished}
use kithkit.Agents.Lifecycle.{State, Env, failure, finish_job, stop_polling, spawn_worker_job}

-- What the SDK says of a worker.
pub data Report : Type 0 where
  gone still_running : Report
  ended : Outcome → Report

abbrev pub touch : ℕ → AgentRecord → AgentRecord
touch now a = record a { last_activity = some now; updated_at = now }

-- The first occurrence leaves the queue.
unfoldable pub without : String → List String → List String
without id [] = []
without id (j ∷ js) = let rest = without id js in if str_eq j id then js else j ∷ rest

-- An agent that runs and has a `state`.
abbrev pub is_killable : AgentRecord → Bool
is_killable a = is_running a.status && elim a.state [ none ↦ false | some _ ↦ true ]

module _ (env : Env) where
  -- What a tick does with the SDK's answer.
  unfoldable pub polled : State → String → Report → ℕ → State
  unfolding finish_job stop_polling
  polled s id gone now =
      stop_polling (finish_job env s id (failure "Worker disappeared from SDK tracking") now) id
  polled s id still_running now = record s { agents = Dict.modify id (touch now) s.agents }
  polled s id (ended o) now = stop_polling (finish_job env s id o now) id

  -- One tick of the timer of a job, if it still has one.
  unfoldable pub poll : State → String → Report → ℕ → State
  unfolding polled
  poll s id report now = elim (Dict.get id s.poll_timers) [
    | none ↦ s
    | some sdk ↦ polled s id report now
  ]

  unfoldable pub kill_job : State → String → ℕ → State × Bool
  unfolding finish_job stop_polling
  kill_job s id now = elim (Dict.get id s.agents) [
    | none ↦ (s, false)
    | some agent ↦
        if any (λ j. str_eq j id) s.job_queue
        then (
          finish_job env
              (record s {
                job_queue = without id s.job_queue;
                queued_requests = Dict.delete id s.queued_requests;
              })
              id (failure "Killed while queued") now,
          true,
        )
        else if is_killable agent
        then (stop_polling (finish_job env s id (failure "Killed by user") now) id, true)
        else (s, false)
  ]

unfoldable pub orphans : Dict AgentRecord → List String
orphans [] = []
orphans ((id, a) ∷ agents) =
    let rest = orphans agents in if is_orphan a.status then id ∷ rest else rest

abbrev pub crash : ℕ → AgentRecord → AgentRecord
crash now a = record a { status = Agent.crashed; updated_at = now }

-- `UPDATE … WHERE agent_id = ? AND status IN ('queued', 'running')`; a job has the id of its agent.
abbrev pub abandon_job : ℕ → JobRecord → JobRecord
abandon_job now job = if is_finished job.status then job else record job {
  status = Job.failed;
  error = some "Daemon restarted (orphan cleanup)";
  finished_at = some now;
}

unfoldable pub abandon : List String → ℕ → State → State
abandon [] now s = s
abandon (id ∷ ids) now s = abandon ids now (record s {
  agents = Dict.modify id (crash now) s.agents;
  worker_jobs = Dict.modify id (abandon_job now) s.worker_jobs;
})

unfoldable pub cleanup_orphaned_agents : State → ℕ → State × ℕ
cleanup_orphaned_agents s now = (
  record (abandon (orphans s.agents) now s) { job_queue = []; queued_requests = [] },
  length (orphans s.agents),
)

-- The process ends and starts again: the tables stay.
unfoldable pub restart : State → State
restart s = record s { job_queue = []; queued_requests = []; poll_timers = []; notified = [] }

pub data Event : Type 0 where
  spawns : String → SpawnRequest → ℕ → Event
  polls : String → Report → ℕ → Event
  kills : String → ℕ → Event
  cleans : ℕ → Event

-- The id of a spawned job is a fresh UUID.
abbrev pub IsFresh : State → Event → Type 0
IsFresh s (spawns id req now) = (Dict.get id s.worker_jobs ≡ none) × (Dict.get id s.agents ≡ none)
IsFresh s _ = Unit

module _ (env : Env) where
  unfoldable pub step : State → Event → State
  step s (spawns id req now) = (spawn_worker_job env s id req now).0
  step s (polls id report now) = poll env s id report now
  step s (kills id now) = (kill_job env s id now).0
  step s (cleans now) = (cleanup_orphaned_agents s now).0

  unfoldable pub run : State → List Event → State
  run s [] = s
  run s (e ∷ es) = run (step s e) es

  abbrev pub AreFresh : State → List Event → Type 0
  AreFresh s [] = Unit
  AreFresh s (e ∷ es) = IsFresh s e × AreFresh (step s e) es
