-- ===== src/Agents/Control/Capacity.antt =====
-- The number of agents that are active, and the jobs that wait.
use kithkit.Base.{
  ℕ, ◌+◌, ◌≤◌, ◌<◌, String, List, [], ◌∷◌, Option, none, some, ◌≡◌, ◌⊎◌, inl, inr, refl, ap, arith,
}
use kithkit.Base.Dict
use kithkit.Base.Dict.{Dict}
use kithkit.Agents.Agent.{AgentRecord}
use kithkit.Agents.Job.{JobRecord, SpawnRequest, Outcome}
use kithkit.Agents.Lifecycle.{
  State, Env, count_running_agents, mark_stopped, conclude, finish_nested, start_agent, started,
  attempt, drain, process_queue, finish_job, new_agent, insert_rows, place_job, spawn_worker_job,
  dispatch, take, start_now, stop_polling, failure,
}
use kithkit.Agents.Control.{
  poll, polled, kill_job, orphans, crash, touch, abandon, abandon_job, cleanup_orphaned_agents,
  without, Report, gone, still_running, ended, Event, spawns, polls, kills, cleans, IsFresh,
  AreFresh, step, run,
}

count-stop :
    (id : String) (now : ℕ) (m : Dict AgentRecord)
    → count_running_agents (Dict.modify id (mark_stopped now) m) ≤ count_running_agents m
unfolding count_running_agents Dict.modify
count-stop id now [] = omega arith
count-stop id now ((j, a) ∷ m) = ground (arith, count-stop id now m)

count-start :
    (id sdk : String) (now : ℕ) (m : Dict AgentRecord)
    → count_running_agents (Dict.modify id (start_agent sdk now) m) ≤ count_running_agents m + 1
unfolding count_running_agents Dict.modify
count-start id sdk now [] = omega arith
count-start id sdk now ((j, a) ∷ m) = ground (arith, count-start id sdk now m)

count-touch :
    (id : String) (now : ℕ) (m : Dict AgentRecord)
    → count_running_agents (Dict.modify id (touch now) m) ≡ count_running_agents m
unfolding count_running_agents Dict.modify
count-touch id now [] = refl
count-touch id now ((j, a) ∷ m) = ground (arith, count-touch id now m)

count-crash :
    (id : String) (now : ℕ) (m : Dict AgentRecord)
    → count_running_agents (Dict.modify id (crash now) m) ≤ count_running_agents m
unfolding count_running_agents Dict.modify
count-crash id now [] = omega arith
count-crash id now ((j, a) ∷ m) = ground (arith, count-crash id now m)

count-new :
    (id : String) (req : SpawnRequest) (now : ℕ) (m : Dict AgentRecord)
    → Dict.get id m ≡ none
    → count_running_agents (Dict.set id (new_agent req now) m) ≡ count_running_agents m
unfolding count_running_agents Dict.set Dict.get new_agent
count-new id req now [] f = refl
count-new id req now ((j, a) ∷ m) f = ground (arith, f, count-new id req now m)

-- There are at most as many active agents as configured, and exactly as many while a job waits.
abbrev pub IsBalanced : State → Type 0
IsBalanced s =
    (count_running_agents s.agents ≤ s.max_concurrent_agents)
    × ((s.job_queue ≡ []) ⊎ (count_running_agents s.agents ≡ s.max_concurrent_agents))

abbrev IsBounded : State → Type 0
IsBounded s = count_running_agents s.agents ≤ s.max_concurrent_agents

-- At most one agent more, and the same limit.
abbrev Grows : State → State → Type 0
Grows s t =
    (t.max_concurrent_agents ≡ s.max_concurrent_agents)
    × (count_running_agents t.agents ≤ count_running_agents s.agents + 1)

module _ (env : Env) where
  finish_nested-Grows :
      (s : State) (id : String) (o : Outcome) (now : ℕ) → Grows s (finish_nested env s id o now)
  unfolding finish_nested conclude
  finish_nested-Grows s id o now = ground (arith, count-stop id now s.agents)

  dispatch-Grows :
      (s : State) (id : String) (sdk : Option String) (now : ℕ)
      → Grows s (dispatch env s id sdk now)
  unfolding dispatch started
  dispatch-Grows s id none now = finish_nested-Grows s id (failure "Worker spawn failed") now
  dispatch-Grows s id (some sdk) now = (refl, count-start id sdk now s.agents)

  take-Grows :
      (s : State) (id : String) (job : Option JobRecord) (req : Option SpawnRequest) (now : ℕ)
      → Grows s (take env s id job req now)
  unfolding take
  take-Grows s id none req now = (refl, omega arith)
  take-Grows s id (some job) none now = (refl, omega arith)
  take-Grows s id (some job) (some req) now = ground (
    arith,
    dispatch-Grows (record s { queued_requests = Dict.delete id s.queued_requests }) id
        (env.launch id req) now,
  )

  drain-IsBalanced :
      (ids : List String) (s : State) (now : ℕ) → IsBounded s → IsBalanced (drain env ids s now)
  unfolding drain attempt
  drain-IsBalanced [] s now b = (b, inl refl)
  drain-IsBalanced (id ∷ ids) s now b = ground (
    arith,
    b,
    drain-IsBalanced ids (attempt env s id now) now,
    take-Grows s id (Dict.get id s.worker_jobs) (Dict.get id s.queued_requests) now,
  )

  finish_job-IsBalanced :
      (s : State) (id : String) (o : Outcome) (now : ℕ)
      → IsBalanced s
      → IsBalanced (finish_job env s id o now)
  unfolding finish_job process_queue conclude
  finish_job-IsBalanced s id o now (b, w) = ground (
    arith,
    b,
    w,
    count-stop id now s.agents,
    drain-IsBalanced s.job_queue (conclude env s id o now) now,
  )

  poll-IsBalanced :
      (s : State) (id : String) (report : Report) (now : ℕ)
      → IsBalanced s
      → IsBalanced (poll env s id report now)
  unfolding poll polled stop_polling
  poll-IsBalanced s id gone now v =
      ground (
        arith,
        v,
        finish_job-IsBalanced s id (failure "Worker disappeared from SDK tracking") now v,
      )
  poll-IsBalanced s id still_running now v = ground (arith, v, count-touch id now s.agents)
  poll-IsBalanced s id (ended o) now v = ground (arith, v, finish_job-IsBalanced s id o now v)

  dequeued-IsBalanced :
      (s : State) (id : String)
      → IsBalanced s
      → IsBalanced (record s {
        job_queue = without id s.job_queue;
        queued_requests = Dict.delete id s.queued_requests;
      })
  unfolding without
  dequeued-IsBalanced s id (b, inl e) = (b, inl (ap (without id) e))
  dequeued-IsBalanced s id (b, inr e) = (b, inr e)

  kill_job-IsBalanced :
      (s : State) (id : String) (now : ℕ) → IsBalanced s → IsBalanced (kill_job env s id now).0
  unfolding kill_job stop_polling
  kill_job-IsBalanced s id now v =
      let t = record s {
        job_queue = without id s.job_queue;
        queued_requests = Dict.delete id s.queued_requests;
      } in
      ground (
        arith,
        v,
        finish_job-IsBalanced t id (failure "Killed while queued") now (dequeued-IsBalanced s id v),
        finish_job-IsBalanced s id (failure "Killed by user") now v,
      )

  start_now-IsBalanced :
      (s : State) (id : String) (sdk : Option String) (now : ℕ)
      → count_running_agents s.agents < s.max_concurrent_agents
      → IsBalanced s
      → IsBalanced (start_now env s id sdk now).0
  unfolding start_now started
  start_now-IsBalanced s id none now lt v =
      finish_job-IsBalanced s id (failure "Worker spawn failed") now v
  start_now-IsBalanced s id (some sdk) now lt v =
      ground (arith, v, lt, count-start id sdk now s.agents)

  spawn_worker_job-IsBalanced :
      (s : State) (id : String) (req : SpawnRequest) (now : ℕ)
      → Dict.get id s.agents ≡ none
      → IsBalanced s
      → IsBalanced (spawn_worker_job env s id req now).0
  unfolding spawn_worker_job place_job insert_rows
  spawn_worker_job-IsBalanced s id request now f v =
      let req = record request { prompt = env.prepare id request } in
      ground (
        arith,
        v,
        count-new id req now s.agents f,
        start_now-IsBalanced (insert_rows s id req now) id (env.launch id req) now,
      )

abandon-count :
    (ids : List String) (now : ℕ) (s : State)
    → (count_running_agents (abandon ids now s).agents ≤ count_running_agents s.agents)
      × ((abandon ids now s).max_concurrent_agents ≡ s.max_concurrent_agents)
unfolding abandon
abandon-count [] now s = (omega arith, refl)
abandon-count (id ∷ ids) now s = ground (
  arith,
  count-crash id now s.agents,
  abandon-count ids now (record s {
    agents = Dict.modify id (crash now) s.agents;
    worker_jobs = Dict.modify id (abandon_job now) s.worker_jobs;
  }),
)

step-IsBalanced :
    (env : Env) (s : State) (e : Event) → IsFresh s e → IsBalanced s → IsBalanced (step env s e)
unfolding step cleanup_orphaned_agents
step-IsBalanced env s (spawns id req now) f v = spawn_worker_job-IsBalanced env s id req now f.1 v
step-IsBalanced env s (polls id report now) f v = poll-IsBalanced env s id report now v
step-IsBalanced env s (kills id now) f v = kill_job-IsBalanced env s id now v
step-IsBalanced env s (cleans now) f v = ground (arith, v, abandon-count (orphans s.agents) now s)

-- Spawns, polls, kills and cleanups, in any order and with any answers of the SDK, keep a balance:
-- no more agents are active than `maxConcurrentAgents`, and while a job waits in the queue no place
-- is free. The ids of the spawned jobs are new, and the state is balanced to start with.
pub run-IsBalanced :
    (env : Env) (s : State) (es : List Event)
    → AreFresh env s es
    → IsBalanced s
    → IsBalanced (run env s es)
unfolding run
run-IsBalanced env s [] f v = v
run-IsBalanced env s (e ∷ es) f v =
    run-IsBalanced env (step env s e) es f.1 (step-IsBalanced env s e f.0 v)
