-- ===== src/Agents/Samples.antt =====
-- The theorems about jobs at small inputs: two workers, of which one fits beside the comms agent.
use kithkit.Base.{true, List, [], ◌∷◌, none, some, ◌≡◌, inl, refl, arith}
use kithkit.Base.Dict
use kithkit.Agents.Agent
use kithkit.Agents.Job.{SpawnRequest, Outcome, done}
use kithkit.Agents.Lifecycle.{
  State, Env, spawn_worker_job, place_job, insert_rows, start_now, started, finish_job, conclude,
  process_queue, drain, attempt, take, dispatch, count_running_agents, new_agent, new_job,
  stop_polling,
}
use kithkit.Agents.Control.{
  Event, spawns, polls, kills, cleans, ended, gone, step, run, AreFresh, poll, polled,
  cleanup_orphaned_agents, restart,
}
use kithkit.Agents.Control.Capacity.{IsBalanced, run-IsBalanced}
use kithkit.Agents.Control.Finality.{IsReported, told, finished_stays, told_once}
use kithkit.Agents.Control.Custody.{IsInCustody, IsQuiet}
use kithkit.Agents.Control.Custody.Runs.{run-IsInCustody, cleanup_ends_all}

abbrev env : Env
env = record {
  sanitize = λ t. t;
  safe = λ _. true;
  prepare = λ id req. req.prompt;
  launch = λ id req. some "sdk";
}

abbrev coder : SpawnRequest
coder = record { profile = "coding"; prompt = "fix it"; spawned_by = none }

abbrev start : State
start = record {
  agents =
      (
        "comms",
        record {
          kind = Agent.comms;
          profile = none;
          status = Agent.idle;
          started_at = none;
          last_activity = none;
          state = none;
          created_at = 0;
          updated_at = 0;
        },
      )
      ∷ [];
  worker_jobs = [];
  max_concurrent_agents = 2;
  job_queue = [];
  queued_requests = [];
  poll_timers = [];
  notified = [];
}

abbrev result : Outcome
result = record {
  ending = done;
  result = some "fixed";
  error = none;
  tokens_in = 10;
  tokens_out = 20;
  resolved_model = none;
  turns_used = some 3;
}

abbrev both : List Event
both = spawns "a" coder 1 ∷ spawns "b" coder 2 ∷ polls "a" (ended result) 3 ∷ []

abbrev late : List Event
late = polls "a" gone 4 ∷ kills "a" 5 ∷ cleans 6 ∷ []

both-AreFresh : AreFresh env start both
unfolding step spawn_worker_job place_job insert_rows start_now started count_running_agents
    Dict.get Dict.set Dict.modify new_agent new_job
both-AreFresh = ((refl, refl), ((refl, refl), (tt, tt)))

run-IsBalanced_example : IsBalanced (run env start both)
unfolding count_running_agents
run-IsBalanced_example = run-IsBalanced env start both both-AreFresh (omega arith, inl refl)

finished_stays_example :
    Dict.get "a" (run env (run env start both) late).worker_jobs
    ≡ Dict.get "a" (run env start both).worker_jobs
unfolding run step spawn_worker_job place_job insert_rows start_now started count_running_agents
    Dict.get Dict.set Dict.modify new_agent new_job poll polled finish_job conclude process_queue
    drain attempt take dispatch stop_polling Dict.delete
finished_stays_example = finished_stays env (run env start both) late "a" (tt, (tt, (tt, tt))) refl

told_once_example : IsReported "a" (run env start both)
unfolding Dict.get told
told_once_example = told_once env start both "a" both-AreFresh refl

run-IsInCustody_example : IsInCustody "b" (run env start both)
unfolding Dict.get
run-IsInCustody_example = run-IsInCustody "b" env start both tt

cleanup_ends_all_example :
    IsQuiet (Dict.get "b" (cleanup_orphaned_agents (restart (run env start both)) 9).0.worker_jobs)
unfolding Dict.get
cleanup_ends_all_example = cleanup_ends_all "b" env start both 9 tt
