-- ===== src/Agents/Control/Custody/Runs.antt =====
-- Each operation of the lifecycle keeps jobs in custody, and so does any history of them.
use kithkit.Base.{
  ℕ, String, true, false, List, [], ◌∷◌, ◌++◌, Option, none, some, str_eq, eq_iff, eq_refl,
  if◌then◌else◌, ◌≡◌, ◌⊎◌, inl, inr, refl, arith, Bool-cases,
}
use kithkit.Base.Dict
use kithkit.Base.Dict.{Dict, get-set, get-modify, get-delete}
use kithkit.Agents.Agent.{AgentRecord}
use kithkit.Agents.Job.{SpawnRequest}
use kithkit.Agents.Lifecycle.{
  State, Env, finished, finish_job, new_agent, new_job, insert_rows, start_now, place_job,
  spawn_worker_job, failure,
}
use kithkit.Agents.Control.{
  poll, polled, kill_job, orphans, crash, touch, abandon_job, abandon, cleanup_orphaned_agents,
  without, Report, gone, still_running, ended, Event, spawns, polls, kills, cleans, restart, step,
  run,
}
use kithkit.Agents.Control.Custody.{
  listed, is_cleanable, waiting, IsQuiet, IsInCustody, QuietIn, dispatch-IsHeld,
  finish_job-IsInCustody, finish_stop-IsInCustody,
}

module _ (id : String) where
  module _ (env : Env) where
    polled-IsInCustody :
        (s : State) (j : String) (report : Report) (now : ℕ)
        → IsInCustody id s
        → IsInCustody id (polled env s j report now)
    unfolding polled
    polled-IsInCustody s j gone now h =
        finish_stop-IsInCustody id env s j (failure "Worker disappeared from SDK tracking") now h
    polled-IsInCustody s j still_running now h =
        ground (arith, h, eq_iff j id, get-modify j id (touch now) s.agents)
    polled-IsInCustody s j (ended o) now h = finish_stop-IsInCustody id env s j o now h

    poll-IsInCustody :
        (s : State) (j : String) (report : Report) (now : ℕ)
        → IsInCustody id s
        → IsInCustody id (poll env s j report now)
    unfolding poll
    poll-IsInCustody s j report now h = ground (arith, h, polled-IsInCustody s j report now h)

    listed-without :
        (j : String) (queue : List String)
        → str_eq j id ≡ false
        → listed id (without j queue) ≡ listed id queue
    unfolding without
    listed-without j [] n = refl
    listed-without j (k ∷ ks) n =
        ground (arith, n, eq_iff k j, eq_iff k id, eq_iff j id, listed-without j ks n)

    -- A job that is killed in the queue leaves it, and ends.
    kill_queued-IsInCustody :
        (s : State) (j : String) (now : ℕ)
        → IsInCustody id s
        → IsInCustody id (
            finish_job env
              (record s {
                job_queue = without j s.job_queue;
                queued_requests = Dict.delete j s.queued_requests;
              })
              j
              (failure "Killed while queued")
              now)
    kill_queued-IsInCustody s j now h =
        finish_job-IsInCustody id env
          (record s {
            job_queue = without j s.job_queue;
            queued_requests = Dict.delete j s.queued_requests;
          })
          j (failure "Killed while queued") now
          (λ n.
            ground (arith, n, h, listed-without j s.job_queue n, get-delete j id s.queued_requests))
          (λ f. ground (
            arith,
            f,
            h,
            eq_iff j id,
            listed-without j s.job_queue,
            get-delete j id s.queued_requests,
          ))

    kill_job-IsInCustody :
        (s : State) (j : String) (now : ℕ)
        → IsInCustody id s
        → IsInCustody id (kill_job env s j now).0
    unfolding kill_job
    kill_job-IsInCustody s j now h = ground (
      arith,
      h,
      kill_queued-IsInCustody s j now h,
      finish_stop-IsInCustody id env s j (failure "Killed by user") now h,
    )

    start_now-IsInCustody :
        (s : State) (j : String) (sdk : Option String) (now : ℕ)
        → finished (Dict.get j s.worker_jobs) ≡ false
        → (str_eq j id ≡ true → is_cleanable (Dict.get id s.agents) ≡ true)
        → (str_eq j id ≡ false → IsInCustody id s)
        → IsInCustody id (start_now env s j sdk now).0
    unfolding start_now
    start_now-IsInCustody s j none now u c h =
        finish_job-IsInCustody id env s j (failure "Worker spawn failed") now h
          (λ f. ground (arith, f, u))
    start_now-IsInCustody s j (some sdk) now u c h =
        dispatch-IsHeld id env s s.job_queue j (some sdk) now u c h

    inserted :
        (s : State) (j : String) (req : SpawnRequest) (now : ℕ)
        → let t = insert_rows s j req now in
          (waiting (Dict.get j t.worker_jobs) ≡ true)
          × (str_eq j id ≡ true → is_cleanable (Dict.get id t.agents) ≡ true)
          × (str_eq j id ≡ false → IsInCustody id s → IsInCustody id t)
    unfolding insert_rows new_job new_agent
    inserted s j req now =
        let m = get-set j id (new_job req now) s.worker_jobs in
        let n = get-set j j (new_job req now) s.worker_jobs in
        let a = get-set j id (new_agent req now) s.agents in
        (ground (arith, n, eq_refl j), λ e. ground (arith, e, a), λ e h. ground (arith, e, h, m, a))

    listed-append :
        (queue : List String) (j : String)
        → listed id (queue ++ j ∷ []) ≡ (if str_eq j id then true else listed id queue)
    listed-append [] j = ground arith
    listed-append (k ∷ ks) j = ground (arith, listed-append ks j)

    place_job-IsInCustody :
        (s : State) (j : String) (req : SpawnRequest) (now : ℕ)
        → waiting (Dict.get j s.worker_jobs) ≡ true
        → (str_eq j id ≡ true → is_cleanable (Dict.get id s.agents) ≡ true)
        → (str_eq j id ≡ false → IsInCustody id s)
        → IsInCustody id (place_job env s j req now).0
    unfolding place_job
    place_job-IsInCustody s j req now u c h = ground (
      arith,
      u,
      c,
      h,
      eq_iff j id,
      get-set j id req s.queued_requests,
      listed-append s.job_queue j,
      start_now-IsInCustody s j (env.launch j req) now (ground (arith, u)) c h,
    )

    spawn_worker_job-IsInCustody :
        (s : State) (j : String) (req : SpawnRequest) (now : ℕ)
        → IsInCustody id s
        → IsInCustody id (spawn_worker_job env s j req now).0
    unfolding spawn_worker_job
    spawn_worker_job-IsInCustody s j request now h =
        let req = record request { prompt = env.prepare j request } in
        let (u, c, others) = inserted s j req now in
        let placed =
          place_job-IsInCustody (insert_rows s j req now) j req now u c (λ n. others n h) in
        elim (Bool-cases (env.safe req.prompt)) [
          | inl y ↦ rw (y, spawn_worker_job) placed
          | inr n ↦ rw (n, spawn_worker_job) h
        ]

  abandon-quiet :
      (ids : List String) (now : ℕ) (s : State)
      → QuietIn id s ⊎ (listed id ids ≡ true)
      → QuietIn id (abandon ids now s)
  unfolding abandon
  abandon-quiet [] now s (inl q) = q
  abandon-quiet [] now s (inr l) = ground (arith, l)
  abandon-quiet (j ∷ ids) now s q =
      abandon-quiet ids now
        (record s {
          agents = Dict.modify j (crash now) s.agents;
          worker_jobs = Dict.modify j (abandon_job now) s.worker_jobs;
        })
        (ground (arith, q, eq_iff j id, get-modify j id (abandon_job now) s.worker_jobs))

  orphan_listed :
      (agents : Dict AgentRecord)
      → is_cleanable (Dict.get id agents) ≡ true
      → listed id (orphans agents) ≡ true
  unfolding orphans Dict.get
  orphan_listed [] c = ground (arith, c)
  orphan_listed ((j, a) ∷ agents) c = ground (arith, c, orphan_listed agents)

  cleanup-quiet :
      (s : State) (now : ℕ) → IsInCustody id s → QuietIn id (abandon (orphans s.agents) now s)
  cleanup-quiet s now h =
      abandon-quiet (orphans s.agents) now s (ground (arith, h, orphan_listed s.agents))

  step-IsInCustody :
      (env : Env) (s : State) (e : Event) → IsInCustody id s → IsInCustody id (step env s e)
  unfolding step cleanup_orphaned_agents
  step-IsInCustody env s (spawns j req now) h = spawn_worker_job-IsInCustody env s j req now h
  step-IsInCustody env s (polls j report now) h = poll-IsInCustody env s j report now h
  step-IsInCustody env s (kills j now) h = kill_job-IsInCustody env s j now h
  step-IsInCustody env s (cleans now) h = ground (arith, cleanup-quiet s now h)

  -- No job is lost: whatever spawns, polls, kills and cleanups happen, in any order and with any
  -- answers of the SDK, a job whose row says `queued` stands in the queue with its request stored,
  -- and one whose row says `running` has a poll timer, and the agent of either is one that the
  -- cleanup selects, if that holds of the job at the start.
  pub run-IsInCustody :
      (env : Env) (s : State) (es : List Event) → IsInCustody id s → IsInCustody id (run env s es)
  unfolding run
  run-IsInCustody env s [] h = h
  run-IsInCustody env s (e ∷ es) h =
      run-IsInCustody env (step env s e) es (step-IsInCustody env s e h)

  -- The daemon runs through any spawns, polls, kills and cleanups, from a state in which a job is
  -- absent or in custody, ends at any moment, and starts again: the cleanup at startup leaves the
  -- job neither queued nor running.
  pub cleanup_ends_all :
      (env : Env) (s : State) (es : List Event) (now : ℕ)
      → IsInCustody id s
      → IsQuiet (Dict.get id (cleanup_orphaned_agents (restart (run env s es)) now).0.worker_jobs)
  unfolding cleanup_orphaned_agents restart
  cleanup_ends_all env s es now h =
      let t = run env s es in
      abandon-quiet (orphans t.agents) now (restart t)
        (ground (arith, run-IsInCustody env s es h, orphan_listed t.agents))
