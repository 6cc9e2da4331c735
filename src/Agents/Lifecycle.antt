-- ===== src/Agents/Lifecycle.antt =====
-- daemon/src/agents/lifecycle.ts: jobs are started up to a number of agents, and wait in a queue
-- beyond it. `notified` is the sequence of the jobs, with their status, that the listeners were told
-- of. An operation is one turn of the event loop, so the guard of `processQueue` against being
-- entered again is off at its start, and a failure inside its loop ends without another round.
use kithkit.Base.{
  ℕ, String, Bool, false, List, [], ◌∷◌, ◌++◌, Option, none, some, suc, ltb, if◌then◌else◌,
}
use kithkit.Base.Dict
use kithkit.Base.Dict.{Dict}
use kithkit.Agents.Agent
use kithkit.Agents.Agent.{AgentRecord, is_active, is_running, is_orphan}
use kithkit.Agents.Job
use kithkit.Agents.Job.{
  JobStatus, JobRecord, SpawnRequest, Outcome, gave_up, ending_status, is_finished, is_queued,
}

pub record State : Type 0 where
  pub agents : Dict AgentRecord
  pub worker_jobs : Dict JobRecord
  pub max_concurrent_agents : ℕ
  pub job_queue : List String
  pub queued_requests : Dict SpawnRequest
  pub poll_timers : Dict String
  pub notified : List (String × JobStatus)

unfoldable pub count_running_agents : Dict AgentRecord → ℕ
count_running_agents [] = 0
count_running_agents ((id, a) ∷ agents) =
    let rest = count_running_agents agents in if is_active a.status then suc rest else rest

abbrev pub has_room : State → Bool
has_room s = ltb (count_running_agents s.agents) s.max_concurrent_agents

-- An outcome that lifecycle.ts itself gives, with no state of the SDK. The source appends the cause
-- of a failed start to the message.
abbrev pub failure : String → Outcome
failure message = record {
  ending = gave_up;
  result = none;
  error = some message;
  tokens_in = 0;
  tokens_out = 0;
  resolved_model = none;
  turns_used = none;
}

abbrev pub finished : Option JobRecord → Bool
finished none = false
finished (some job) = is_finished job.status

-- Who is told of a job: the row is read again, and missing for an agent that is no worker.
abbrev pub notice : String → Option JobRecord → List (String × JobStatus)
notice id none = []
notice id (some job) = (id, job.status) ∷ []

abbrev pub mark_stopped : ℕ → AgentRecord → AgentRecord
mark_stopped now a = record a { status = Agent.stopped; last_activity = some now; updated_at = now }

abbrev pub start_agent : String → ℕ → AgentRecord → AgentRecord
start_agent sdk now a = record a {
  status = Agent.running;
  started_at = some now;
  last_activity = some now;
  state = some sdk;
  updated_at = now;
}

abbrev pub start_job : ℕ → JobRecord → JobRecord
start_job now job = record job { status = Job.running; started_at = some now }

unfoldable pub new_agent : SpawnRequest → ℕ → AgentRecord
new_agent req now = record {
  kind = Agent.worker;
  profile = some req.profile;
  status = Agent.queued;
  started_at = none;
  last_activity = none;
  state = none;
  created_at = now;
  updated_at = now;
}

unfoldable pub new_job : SpawnRequest → ℕ → JobRecord
new_job req now = record {
  profile = req.profile;
  prompt = req.prompt;
  status = Job.queued;
  result = none;
  error = none;
  tokens_in = 0;
  tokens_out = 0;
  resolved_model = none;
  turns_used = none;
  started_at = none;
  finished_at = none;
  created_at = now;
  spawned_by = req.spawned_by;
}

-- The rows and the timer of a worker that the SDK has started.
unfoldable pub started : State → String → String → ℕ → State
started s id sdk now = record s {
  agents = Dict.modify id (start_agent sdk now) s.agents;
  worker_jobs = Dict.modify id (start_job now) s.worker_jobs;
  poll_timers = Dict.set id sdk s.poll_timers;
}

unfoldable pub insert_rows : State → String → SpawnRequest → ℕ → State
unfolding new_agent new_job
insert_rows s id req now = record s {
  agents = Dict.set id (new_agent req now) s.agents;
  worker_jobs = Dict.set id (new_job req now) s.worker_jobs;
}

unfoldable pub stop_polling : State → String → State
stop_polling s id = record s { poll_timers = Dict.delete id s.poll_timers }

unfoldable pub stop_all_polling : State → State
stop_all_polling s = record s { poll_timers = [] }

unfoldable pub set_max_concurrent_agents : State → ℕ → State
set_max_concurrent_agents s n = record s { max_concurrent_agents = n }

-- `sanitize` replaces a text that carries a credential, `safe` says that a text carries none,
-- `prepare` adds the session directory and the learnings to a prompt, and `launch` makes the
-- worktree and starts the SDK's worker: it gives the SDK's id, or `none` where it throws.
pub record Env : Type 0 where
  pub sanitize : Option String → Option String
  pub safe : String → Bool
  pub prepare : String → SpawnRequest → String
  pub launch : String → SpawnRequest → Option String

module _ (env : Env) where
  abbrev pub close_job : Outcome → ℕ → JobRecord → JobRecord
  close_job o now job = record job {
    status = ending_status o.ending;
    result = env.sanitize o.result;
    error = env.sanitize o.error;
    tokens_in = o.tokens_in;
    tokens_out = o.tokens_out;
    resolved_model = o.resolved_model;
    turns_used = o.turns_used;
    finished_at = some now;
  }

  -- `finishJob` after its guard, up to its call of `processQueue`.
  unfoldable pub conclude : State → String → Outcome → ℕ → State
  conclude s id o now =
      let jobs = Dict.modify id (close_job o now) s.worker_jobs in
      record s {
        agents = Dict.modify id (mark_stopped now) s.agents;
        worker_jobs = jobs;
        notified = s.notified ++ notice id (Dict.get id jobs);
      }

  -- `finishJob` inside the loop of `processQueue`.
  unfoldable pub finish_nested : State → String → Outcome → ℕ → State
  unfolding conclude
  finish_nested s id o now = if finished (Dict.get id s.worker_jobs) then s else conclude s id o now

  -- What the loop does with the SDK's answer.
  unfoldable pub dispatch : State → String → Option String → ℕ → State
  unfolding finish_nested started
  dispatch s id none now = finish_nested s id (failure "Worker spawn failed") now
  dispatch s id (some sdk) now = started s id sdk now

  -- A job that has left the queue, with its row and its request: it is started, unless it is no
  -- longer queued.
  unfoldable pub take : State → String → Option JobRecord → Option SpawnRequest → ℕ → State
  unfolding dispatch
  take s id none req now = s
  take s id (some job) none now = s
  take s id (some job) (some req) now =
      if is_queued job.status
      then dispatch (record s { queued_requests = Dict.delete id s.queued_requests }) id
          (env.launch id req) now
      else s

  unfoldable pub attempt : State → String → ℕ → State
  unfolding take
  attempt s id now = take s id (Dict.get id s.worker_jobs) (Dict.get id s.queued_requests) now

  -- The loop of `processQueue` over the jobs that wait.
  unfoldable pub drain : List String → State → ℕ → State
  unfolding attempt
  drain [] s now = record s { job_queue = [] }
  drain (id ∷ ids) s now =
      let rest = drain ids (attempt s id now) now in
      if has_room s then rest else record s { job_queue = id ∷ ids }

  unfoldable pub process_queue : State → ℕ → State
  unfolding drain
  process_queue s now = drain s.job_queue s now

  unfoldable pub finish_job : State → String → Outcome → ℕ → State
  unfolding process_queue conclude
  finish_job s id o now =
      if finished (Dict.get id s.worker_jobs) then s else process_queue (conclude s id o now) now

  -- What a call with room for the job does with the SDK's answer.
  unfoldable pub start_now : State → String → Option String → ℕ → State × JobStatus
  unfolding started finish_job
  start_now s id none now = (finish_job s id (failure "Worker spawn failed") now, Job.failed)
  start_now s id (some sdk) now = (started s id sdk now, Job.running)

  -- With the rows in the tables: started at once if there is room, else queued.
  unfoldable pub place_job : State → String → SpawnRequest → ℕ → State × JobStatus
  unfolding start_now
  place_job s id req now = if has_room s then start_now s id (env.launch id req) now else (
    record s {
      queued_requests = Dict.set id req s.queued_requests;
      job_queue = s.job_queue ++ id ∷ [];
    },
    Job.queued,
  )

  -- `none` where the prompt is refused and the call throws.
  unfoldable pub spawn_worker_job : State → String → SpawnRequest → ℕ → State × Option JobStatus
  unfolding insert_rows place_job
  spawn_worker_job s id request now =
      let req = record request { prompt = env.prepare id request } in
      if env.safe req.prompt
      then (
        (place_job (insert_rows s id req now) id req now).0,
        some (place_job (insert_rows s id req now) id req now).1,
      )
      else (s, none)
