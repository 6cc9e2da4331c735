-- ===== src/Agents/Control/Custody.antt =====
-- No job is lost: a queued job waits in the queue, and a running one is polled.
pub mod Runs
use kithkit.Base.{
  ℕ, String, Bool, true, false, List, [], ◌∷◌, ◌++◌, Option, none, some, any, str_eq, eq_iff,
  eq_refl, if◌then◌else◌, ◌≡◌, ◌≢◌, ◌⊎◌, inl, inr, refl, arith, Bool-cases,
}
use kithkit.Base.Dict
use kithkit.Base.Dict.{Dict, get-set, get-modify, get-delete}
use kithkit.Agents.Agent.{AgentRecord, is_orphan}
use kithkit.Agents.Job
use kithkit.Agents.Job.{
  JobStatus, JobRecord, SpawnRequest, Outcome, is_finished, is_queued, completed, failed, timeout,
}
use kithkit.Agents.Lifecycle.{
  State, Env, finished, mark_stopped, close_job, conclude, finish_nested, start_agent, start_job,
  started, attempt, dispatch, take, drain, process_queue, finish_job, new_agent, new_job,
  insert_rows, start_now, place_job, spawn_worker_job, stop_polling, failure, has_room,
}
use kithkit.Agents.Control.{
  poll, polled, kill_job, orphans, crash, touch, abandon_job, abandon, cleanup_orphaned_agents,
  without, Report, gone, still_running, ended, Event, spawns, polls, kills, cleans, restart, step,
  run,
}

abbrev pub listed : String → List String → Bool
listed id ids = any (λ j. str_eq j id) ids

abbrev pub is_cleanable : Option AgentRecord → Bool
is_cleanable none = false
is_cleanable (some a) = is_orphan a.status

-- A queued job stands in the queue and its request is stored; a running one has a poll timer; and
-- the agent of either is one that the cleanup of orphans selects.
abbrev pub IsHeld :
    Option JobRecord → Option AgentRecord → Bool → Option SpawnRequest → Option String → Type 0
IsHeld none agent waits req timer = Unit
IsHeld (some job) agent waits req timer = elim job.status [
  | Job.queued ↦ (waits ≡ true) × (req ≢ none) × (is_cleanable agent ≡ true)
  | Job.running ↦ (timer ≢ none) × (is_cleanable agent ≡ true)
  | Job.completed ↦ Unit
  | Job.failed ↦ Unit
  | Job.timeout ↦ Unit
]

abbrev pub waiting : Option JobRecord → Bool
waiting none = false
waiting (some job) = is_queued job.status

-- No row, or one that has ended.
abbrev pub IsQuiet : Option JobRecord → Type 0
IsQuiet none = Unit
IsQuiet (some job) = is_finished job.status ≡ true

module _ (id : String) where
  abbrev pub IsHeldWith : List String → State → Type 0
  IsHeldWith queue s =
      IsHeld (Dict.get id s.worker_jobs) (Dict.get id s.agents) (listed id queue)
        (Dict.get id s.queued_requests) (Dict.get id s.poll_timers)

  abbrev pub IsInCustody : State → Type 0
  IsInCustody s = IsHeldWith s.job_queue s

  abbrev pub QuietIn : State → Type 0
  QuietIn s = IsQuiet (Dict.get id s.worker_jobs)

  quiet-IsHeld : (s : State) (queue : List String) → QuietIn s → IsHeldWith queue s
  quiet-IsHeld s queue q = ground (arith, q)

  module _ (env : Env) where
    concluded :
        (s : State) (queue : List String) (j : String) (o : Outcome) (now : ℕ)
        → (str_eq j id ≡ false → IsHeldWith queue s)
        → IsHeldWith queue (conclude env s j o now)
    unfolding conclude
    concluded s queue j o now h = ground (
      arith,
      h,
      eq_iff j id,
      get-modify j id (close_job env o now) s.worker_jobs,
      get-modify j id (mark_stopped now) s.agents,
    )

    -- An unfinished job that has left the queue is started or ended, and no other is touched.
    pub dispatch-IsHeld :
        (s : State) (queue : List String) (j : String) (sdk : Option String) (now : ℕ)
        → finished (Dict.get j s.worker_jobs) ≡ false
        → (str_eq j id ≡ true → is_cleanable (Dict.get id s.agents) ≡ true)
        → (str_eq j id ≡ false → IsHeldWith queue s)
        → IsHeldWith queue (dispatch env s j sdk now)
    unfolding dispatch finish_nested conclude started
    dispatch-IsHeld s queue j none now u c h = ground (
      arith,
      u,
      c,
      h,
      eq_iff j id,
      get-modify j id (close_job env (failure "Worker spawn failed") now) s.worker_jobs,
      get-modify j id (mark_stopped now) s.agents,
    )
    dispatch-IsHeld s queue j (some sdk) now u c h = ground (
      arith,
      u,
      c,
      h,
      eq_iff j id,
      get-modify j id (start_job now) s.worker_jobs,
      get-modify j id (start_agent sdk now) s.agents,
      get-set j id sdk s.poll_timers,
    )

    take-IsHeld :
        (s : State) (j : String) (ids : List String) (job : Option JobRecord)
        (req : Option SpawnRequest) (now : ℕ)
        → Dict.get j s.worker_jobs ≡ job
        → Dict.get j s.queued_requests ≡ req
        → IsHeldWith (j ∷ ids) s
        → IsHeldWith ids (take env s j job req now)
    unfolding take
    take-IsHeld s j ids none req now e r h = ground (arith, e, r, h, eq_iff j id)
    take-IsHeld s j ids (some job) none now e r h = ground (arith, e, r, h, eq_iff j id)
    take-IsHeld s j ids (some job) (some req) now e r h = elim (Bool-cases (is_queued job.status)) [
      | inl q ↦
          rw (q, take)
            (dispatch-IsHeld (record s { queued_requests = Dict.delete j s.queued_requests }) ids j
              (env.launch j req) now (ground (arith, q, e))
              (λ k. ground (arith, k, q, e, h, eq_iff j id))
              (λ k. ground (arith, k, h, get-delete j id s.queued_requests)))
      | inr n ↦ rw (n, take) (ground (arith, n, e, h, eq_iff j id))
    ]

    drain-IsInCustody :
        (ids : List String) (s : State) (now : ℕ)
        → IsHeldWith ids s
        → IsInCustody (drain env ids s now)
    unfolding drain attempt
    drain-IsInCustody [] s now h = h
    drain-IsInCustody (j ∷ ids) s now h = ground (
      arith,
      h,
      drain-IsInCustody ids (attempt env s j now) now,
      take-IsHeld s j ids (Dict.get j s.worker_jobs) (Dict.get j s.queued_requests) now refl refl h,
    )

    pub finish_job-IsInCustody :
        (s : State) (j : String) (o : Outcome) (now : ℕ)
        → (str_eq j id ≡ false → IsInCustody s)
        → (finished (Dict.get j s.worker_jobs) ≡ true → IsInCustody s)
        → IsInCustody (finish_job env s j o now)
    unfolding finish_job process_queue
    finish_job-IsInCustody s j o now h q = elim (Bool-cases (finished (Dict.get j s.worker_jobs))) [
      | inl f ↦ rw (f, finish_job) (q f)
      | inr u ↦
          rw (u, finish_job)
            (drain-IsInCustody s.job_queue (conclude env s j o now) now
              (concluded s s.job_queue j o now h))
    ]

    dispatch-other :
        (s : State) (j : String) (sdk : Option String) (now : ℕ)
        → str_eq j id ≡ false
        → QuietIn s
        → QuietIn (dispatch env s j sdk now)
    unfolding dispatch finish_nested conclude started
    dispatch-other s j none now n q = ground (
      arith,
      n,
      q,
      get-modify j id (close_job env (failure "Worker spawn failed") now) s.worker_jobs,
    )
    dispatch-other s j (some sdk) now n q =
        ground (arith, n, q, get-modify j id (start_job now) s.worker_jobs)

    take-quiet :
        (s : State) (j : String) (job : Option JobRecord) (req : Option SpawnRequest) (now : ℕ)
        → Dict.get j s.worker_jobs ≡ job
        → QuietIn s
        → QuietIn (take env s j job req now)
    unfolding take
    take-quiet s j none req now e q = q
    take-quiet s j (some job) none now e q = q
    take-quiet s j (some job) (some req) now e q = elim (Bool-cases (is_queued job.status)) [
      | inl k ↦
          rw (k, take)
            (dispatch-other (record s { queued_requests = Dict.delete j s.queued_requests }) j
              (env.launch j req) now (ground (arith, k, e, q, eq_iff j id)) q)
      | inr n ↦ rw (n, take) q
    ]

    drain-quiet :
        (ids : List String) (s : State) (now : ℕ) → QuietIn s → QuietIn (drain env ids s now)
    unfolding drain attempt
    drain-quiet [] s now q = q
    drain-quiet (j ∷ ids) s now q = elim (Bool-cases (has_room s)) [
      | inl y ↦
          rw (y, drain)
            (drain-quiet ids (attempt env s j now) now
              (take-quiet s j (Dict.get j s.worker_jobs) (Dict.get j s.queued_requests) now refl q))
      | inr n ↦ rw (n, drain) q
    ]

    finish_job-quiet :
        (s : State) (j : String) (o : Outcome) (now : ℕ)
        → str_eq j id ≡ true
        → QuietIn (finish_job env s j o now)
    unfolding finish_job process_queue conclude
    finish_job-quiet s j o now e = elim (Bool-cases (finished (Dict.get j s.worker_jobs))) [
      | inl f ↦ rw (f, finish_job) (ground (arith, e, f, eq_iff j id))
      | inr u ↦
          rw (u, finish_job)
            (drain-quiet s.job_queue (conclude env s j o now) now
              (ground (arith, e, eq_iff j id, get-modify j id (close_job env o now) s.worker_jobs)))
    ]

    -- The job ends, and its timer is cleared.
    pub finish_stop-IsInCustody :
        (s : State) (j : String) (o : Outcome) (now : ℕ)
        → IsInCustody s
        → IsInCustody (stop_polling (finish_job env s j o now) j)
    unfolding stop_polling
    finish_stop-IsInCustody s j o now h =
        let t = finish_job env s j o now in
        ground (
          arith,
          finish_job-IsInCustody s j o now (λ _. h) (λ _. h),
          finish_job-quiet s j o now,
          get-delete j id t.poll_timers,
        )
