-- ===== src/Tasks/Row.antt =====
-- The row of the table `tasks`, as far as the routes of daemon/src/api/unified-tasks.ts and
-- daemon/src/api/task-queue.ts that are modelled read or write it, and what a route answers.
use kithkit.Base.{ℕ, String, Bool, true, false, List, Option, some}
use kithkit.Base.Js.{Number}
use kithkit.Tasks.Status.{TaskStatus}

pub data TaskKind : Type 0 where
  todo orchestrator : TaskKind

pub data PlanStatus : Type 0 where
  submitted approved rejected : PlanStatus

-- `calibration_mult` is the quotient of its two numbers, before it is rounded.
pub record Task : Type 0 where
  pub external_id : Option String
  pub kind : TaskKind
  pub source : Option String
  pub title : String
  pub description : Option String
  pub category : Option String
  pub priority : String
  pub due_date : Option String
  pub snooze_until : Option String
  pub status : TaskStatus
  pub assigned_to : Option String
  pub plan : Option String
  pub plan_status : Option PlanStatus
  pub plan_submitted_at : Option ℕ
  pub plan_approved_at : Option ℕ
  pub plan_rejected_reason : Option String
  pub result : Option String
  pub error : Option String
  pub outcome : Option String
  pub outcome_reason : Option String
  pub retry_count : ℕ
  pub last_retry_reason : Option String
  pub comms_outcome : Option String
  pub comms_corrections : Option String
  pub acknowledged_at : Option String
  pub assigned_at : Option ℕ
  pub started_at : Option ℕ
  pub completed_at : Option ℕ
  pub updated_at : ℕ
  pub work_notes : Option String
  pub tags : String
  pub complexity : Option Number
  pub risk : Option Number
  pub estimated_minutes : Option Number
  pub actual_minutes : Option Number
  pub calibration_mult : Option (Number × Number)
  pub task_type : Option String
  pub completion_status : Option String
  pub estimation_method : Option String
  pub workers_used : Option Number
  pub generate_retro : Option Bool
  pub canonical_task_external_id : Option String
  pub timeout_seconds : Option Number
  pub requesting_peer : Option String
  pub created_at : ℕ

abbrev pub is_todo : TaskKind → Bool
is_todo todo = true
is_todo orchestrator = false

abbrev pub is_submitted : Option PlanStatus → Bool
is_submitted (some submitted) = true
is_submitted _ = false

-- What a route does beside the row itself: the stage of a `task_activity` row, the receiver of a
-- `messages` row or of an injected text, a worker whose job is marked failed, a retro evaluation.
pub data Effect : Type 0 where
  activity message inject fail_job : String → Effect
  store_memory evaluate : Effect

-- A refusal with its status code, before anything is written; or status 200, the UPDATE of the row
-- as a function of the row that stands in the table at that moment, and the other effects, as a
-- function of the row that results.
pub data Answer : Type 0 where
  refused : ℕ → Answer
  accepted : (Task → Task) → (Task → List Effect) → Answer

-- The row after a request that nothing interleaves with.
abbrev pub written : Answer → Task → Task
written (refused code) t = t
written (accepted update effects) t = update t

abbrev pub is_accepted : Answer → Bool
is_accepted (refused code) = false
is_accepted (accepted update effects) = true
