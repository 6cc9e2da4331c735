-- ===== src/Agents/Control/Finality.antt =====
-- Finished jobs stay as they are, and the listeners are told of each once.
use kithkit.Base.{
  ℕ, String, true, false, List, [], ◌∷◌, ◌++◌, Option, none, some, str_eq, eq_iff, eq_refl,
  if◌then◌else◌, ◌≡◌, ◌⊎◌, inl, inr, refl, arith, Bool-cases, Option-cases,
}
use kithkit.Base.Dict
use kithkit.Base.Dict.{Dict, get-set, get-modify}
use kithkit.Agents.Job.{JobStatus, JobRecord, SpawnRequest, Outcome, is_finished, is_queued}
use kithkit.Agents.Lifecycle.{
  State, Env, finished, notice, close_job, conclude, finish_nested, start_job, started, attempt,
  dispatch, take, drain, process_queue, finish_job, new_job, insert_rows, start_now, place_job,
  spawn_worker_job, stop_polling, failure, has_room,
}
use kithkit.Agents.Control.{
  poll, polled, kill_job, orphans, crash, abandon_job, abandon, cleanup_orphaned_agents, without,
  Report, gone, still_running, ended, Event, spawns, polls, kills, cleans, IsFresh, AreFresh, step,
  run,
}

-- What the listeners were told of a job.
unfoldable pub told : String → List (String × JobStatus) → List JobStatus
told id [] = []
told id ((j, status) ∷ l) = let rest = told id l in if str_eq j id then status ∷ rest else rest

told-append :
    (id : String) (l r : List (String × JobStatus)) → told id (l ++ r) ≡ told id l ++ told id r
unfolding told
told-append id [] r = refl
told-append id ((j, status) ∷ l) r = ground (arith, told-append id l r)

-- Nothing yet, or once the status that the finished job has.
abbrev pub IsTold : Option JobRecord → List JobStatus → Type 0
IsTold none outs = outs ≡ []
IsTold (some job) outs = (outs ≡ []) ⊎ ((outs ≡ job.status ∷ []) × (is_finished job.status ≡ true))

module _ (id : String) where
  abbrev pub IsReported : State → Type 0
  IsReported s = IsTold (Dict.get id s.worker_jobs) (told id s.notified)

  -- A finished job keeps its row, and the listeners' knowledge stays in order.
  abbrev Respects : State → State → Type 0
  Respects s t =
      (finished (Dict.get id s.worker_jobs) ≡ true
        → Dict.get id t.worker_jobs ≡ Dict.get id s.worker_jobs)
      × (IsReported s → IsReported t)

  Respects-trans : (s t u : State) → Respects s t → Respects t u → Respects s u
  Respects-trans s t u (a, b) (c, d) = (λ f. ground (arith, f, a f, c), λ r. d (b r))

  module _ (env : Env) where
    conclude-Respects :
        (s : State) (j : String) (o : Outcome) (now : ℕ)
        → finished (Dict.get j s.worker_jobs) ≡ false
        → Respects s (conclude env s j o now)
    unfolding conclude told
    conclude-Respects s j o now u =
        let m = get-modify j id (close_job env o now) s.worker_jobs in
        let n = get-modify j j (close_job env o now) s.worker_jobs in
        let a =
          told-append id s.notified
            (notice j (Dict.get j (Dict.modify j (close_job env o now) s.worker_jobs))) in
        (
          λ f. ground (arith, f, u, m, eq_iff j id),
          λ r. ground (arith, r, u, m, n, a, eq_iff j id, eq_refl j),
        )

    finish_nested-Respects :
        (s : State) (j : String) (o : Outcome) (now : ℕ) → Respects s (finish_nested env s j o now)
    unfolding finish_nested
    finish_nested-Respects s j o now = elim (Bool-cases (finished (Dict.get j s.worker_jobs))) [
      | inl f ↦ rw (f, finish_nested) (λ _. refl, λ r. r)
      | inr u ↦ rw (u, finish_nested) (conclude-Respects s j o now u)
    ]

    started-Respects :
        (s : State) (j sdk : String) (now : ℕ)
        → finished (Dict.get j s.worker_jobs) ≡ false
        → Respects s (started s j sdk now)
    unfolding started
    started-Respects s j sdk now u =
        let m = get-modify j id (start_job now) s.worker_jobs in
        (λ f. ground (arith, f, u, m, eq_iff j id), λ r. ground (arith, r, u, m, eq_iff j id))

    dispatch-Respects :
        (s : State) (j : String) (sdk : Option String) (now : ℕ)
        → finished (Dict.get j s.worker_jobs) ≡ false
        → Respects s (dispatch env s j sdk now)
    unfolding dispatch
    dispatch-Respects s j none now u =
        finish_nested-Respects s j (failure "Worker spawn failed") now
    dispatch-Respects s j (some sdk) now u = started-Respects s j sdk now u

    take-Respects :
        (s : State) (j : String) (job : Option JobRecord) (req : Option SpawnRequest) (now : ℕ)
        → Dict.get j s.worker_jobs ≡ job
        → Respects s (take env s j job req now)
    unfolding take
    take-Respects s j none req now e = (λ _. refl, λ r. r)
    take-Respects s j (some job) none now e = (λ _. refl, λ r. r)
    take-Respects s j (some job) (some req) now e = elim (Bool-cases (is_queued job.status)) [
      | inl q ↦
          rw (q, take)
            (dispatch-Respects (record s { queued_requests = Dict.delete j s.queued_requests }) j
              (env.launch j req) now (ground (arith, q, e)))
      | inr n ↦ rw (n, take) (λ _. refl, λ r. r)
    ]

    drain-Respects : (ids : List String) (s : State) (now : ℕ) → Respects s (drain env ids s now)
    unfolding drain attempt
    drain-Respects [] s now = (λ _. refl, λ r. r)
    drain-Respects (j ∷ ids) s now = elim (Bool-cases (has_room s)) [
      | inl y ↦
          rw (y, drain)
            (Respects-trans s (attempt env s j now) (drain env ids (attempt env s j now) now)
              (take-Respects s j (Dict.get j s.worker_jobs) (Dict.get j s.queued_requests) now refl)
              (drain-Respects ids (attempt env s j now) now))
      | inr n ↦ rw (n, drain) (λ _. refl, λ r. r)
    ]

    finish_job-Respects :
        (s : State) (j : String) (o : Outcome) (now : ℕ) → Respects s (finish_job env s j o now)
    unfolding finish_job process_queue
    finish_job-Respects s j o now = elim (Bool-cases (finished (Dict.get j s.worker_jobs))) [
      | inl f ↦ rw (f, finish_job) (λ _. refl, λ r. r)
      | inr u ↦
          rw (u, finish_job)
            (Respects-trans s (conclude env s j o now)
              (process_queue env (conclude env s j o now) now) (conclude-Respects s j o now u)
              (drain-Respects s.job_queue (conclude env s j o now) now))
    ]

    polled-Respects :
        (s : State) (j : String) (report : Report) (now : ℕ)
        → Respects s (polled env s j report now)
    unfolding polled stop_polling
    polled-Respects s j gone now =
        finish_job-Respects s j (failure "Worker disappeared from SDK tracking") now
    polled-Respects s j still_running now = (λ _. refl, λ r. r)
    polled-Respects s j (ended o) now = finish_job-Respects s j o now

    poll-Respects :
        (s : State) (j : String) (report : Report) (now : ℕ) → Respects s (poll env s j report now)
    unfolding poll
    poll-Respects s j report now = elim (Option-cases (Dict.get j s.poll_timers)) [
      | inl e ↦ rw (e, poll) (λ _. refl, λ r. r)
      | inr (sdk, e) ↦ rw (e, poll) (polled-Respects s j report now)
    ]

    kill_job-Respects : (s : State) (j : String) (now : ℕ) → Respects s (kill_job env s j now).0
    unfolding kill_job stop_polling
    kill_job-Respects s j now =
        let t = record s {
          job_queue = without j s.job_queue;
          queued_requests = Dict.delete j s.queued_requests;
        } in
        ground (
          arith,
          finish_job-Respects t j (failure "Killed while queued") now,
          finish_job-Respects s j (failure "Killed by user") now,
        )

    start_now-Respects :
        (s : State) (j : String) (sdk : Option String) (now : ℕ)
        → finished (Dict.get j s.worker_jobs) ≡ false
        → Respects s (start_now env s j sdk now).0
    unfolding start_now
    start_now-Respects s j none now u = finish_job-Respects s j (failure "Worker spawn failed") now
    start_now-Respects s j (some sdk) now u = started-Respects s j sdk now u

    insert_rows-Respects :
        (s : State) (j : String) (req : SpawnRequest) (now : ℕ)
        → Dict.get j s.worker_jobs ≡ none
        → Respects s (insert_rows s j req now)
          × (finished (Dict.get j (insert_rows s j req now).worker_jobs) ≡ false)
    unfolding insert_rows new_job
    insert_rows-Respects s j req now f =
        let m = get-set j id (new_job req now) s.worker_jobs in
        let n = get-set j j (new_job req now) s.worker_jobs in
        (
          (λ h. ground (arith, f, h, m, eq_iff j id), λ r. ground (arith, r, f, m, eq_iff j id)),
          ground (arith, n, eq_refl j),
        )

    place_job-Respects :
        (s : State) (j : String) (req : SpawnRequest) (now : ℕ)
        → finished (Dict.get j s.worker_jobs) ≡ false
        → Respects s (place_job env s j req now).0
    unfolding place_job
    place_job-Respects s j req now u =
        ground (arith, start_now-Respects s j (env.launch j req) now u)

    spawn_worker_job-Respects :
        (s : State) (j : String) (req : SpawnRequest) (now : ℕ)
        → Dict.get j s.worker_jobs ≡ none
        → Respects s (spawn_worker_job env s j req now).0
    unfolding spawn_worker_job
    spawn_worker_job-Respects s j request now f =
        let req = record request { prompt = env.prepare j request } in
        let (there, unfinished) = insert_rows-Respects s j req now f in
        let t = insert_rows s j req now in
        let all =
          Respects-trans s t (place_job env t j req now).0 there
            (place_job-Respects t j req now unfinished) in
        elim (Bool-cases (env.safe req.prompt)) [
          | inl y ↦ rw (y, spawn_worker_job) all
          | inr n ↦ rw (n, spawn_worker_job) (λ _. refl, λ r. r)
        ]

  abandon-Respects : (ids : List String) (now : ℕ) (s : State) → Respects s (abandon ids now s)
  unfolding abandon
  abandon-Respects [] now s = (λ _. refl, λ r. r)
  abandon-Respects (j ∷ ids) now s =
      let t = record s {
        agents = Dict.modify j (crash now) s.agents;
        worker_jobs = Dict.modify j (abandon_job now) s.worker_jobs;
      } in
      let m = get-modify j id (abandon_job now) s.worker_jobs in
      Respects-trans s t (abandon ids now t)
        (λ f. ground (arith, f, m, eq_iff j id), λ r. ground (arith, r, m, eq_iff j id))
        (abandon-Respects ids now t)

  step-Respects : (env : Env) (s : State) (e : Event) → IsFresh s e → Respects s (step env s e)
  unfolding step cleanup_orphaned_agents
  step-Respects env s (spawns j req now) f = spawn_worker_job-Respects env s j req now f.0
  step-Respects env s (polls j report now) f = poll-Respects env s j report now
  step-Respects env s (kills j now) f = kill_job-Respects env s j now
  step-Respects env s (cleans now) f = abandon-Respects (orphans s.agents) now s

  run-Respects :
      (env : Env) (s : State) (es : List Event) → AreFresh env s es → Respects s (run env s es)
  unfolding run
  run-Respects env s [] f = (λ _. refl, λ r. r)
  run-Respects env s (e ∷ es) f =
      Respects-trans s (step env s e) (run env (step env s e) es) (step-Respects env s e f.0)
        (run-Respects env (step env s e) es f.1)

-- A job that has ended keeps its row as it is: no late poll, kill, cleanup, spawn or second finish
-- changes its result. The ids of the spawned jobs are new.
pub finished_stays :
    (env : Env) (s : State) (es : List Event) (id : String)
    → AreFresh env s es
    → finished (Dict.get id s.worker_jobs) ≡ true
    → Dict.get id (run env s es).worker_jobs ≡ Dict.get id s.worker_jobs
finished_stays env s es id f h = (run-Respects id env s es f).0 h

-- The listeners are told of each job at most once, after it has ended and with the status that it
-- ended with, if that holds at the start. The ids of the spawned jobs are new.
pub told_once :
    (env : Env) (s : State) (es : List Event) (id : String)
    → AreFresh env s es
    → IsReported id s
    → IsReported id (run env s es)
told_once env s es id f r = (run-Respects id env s es f).1 r
