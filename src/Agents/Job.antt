-- ===== src/Agents/Job.antt =====
-- The rows of the table `worker_jobs` in daemon/src/agents/lifecycle.ts, and how a job ends. The
-- cost of a job, a fraction, and the identity of the daemon that owns it are left out.
use kithkit.Base.{ℕ, String, Bool, true, false, Option}

pub data JobStatus : Type 0 where
  queued running completed failed timeout : JobStatus

pub record JobRecord : Type 0 where
  pub profile : String
  pub prompt : String
  pub status : JobStatus
  pub result : Option String
  pub error : Option String
  pub tokens_in : ℕ
  pub tokens_out : ℕ
  pub resolved_model : Option String
  pub turns_used : Option ℕ
  pub started_at : Option ℕ
  pub finished_at : Option ℕ
  pub created_at : ℕ
  pub spawned_by : Option String

pub record SpawnRequest : Type 0 where
  pub profile : String
  pub prompt : String
  pub spawned_by : Option String

-- The statuses that `finishJob` is given.
pub data Ending : Type 0 where
  done gave_up ran_out : Ending

abbrev pub ending_status : Ending → JobStatus
ending_status done = completed
ending_status gave_up = failed
ending_status ran_out = timeout

-- What `finishJob` is told: the last three are those of the SDK's state, where there is one.
pub record Outcome : Type 0 where
  pub ending : Ending
  pub result : Option String
  pub error : Option String
  pub tokens_in : ℕ
  pub tokens_out : ℕ
  pub resolved_model : Option String
  pub turns_used : Option ℕ

abbrev pub is_finished : JobStatus → Bool
is_finished queued = false
is_finished running = false
is_finished completed = true
is_finished failed = true
is_finished timeout = true

abbrev pub is_queued : JobStatus → Bool
is_queued queued = true
is_queued _ = false
