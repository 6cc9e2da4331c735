-- ===== src/TaskQueue/Routes.antt =====
-- daemon/src/api/task-queue.ts: the routes submit-plan, approve-plan, reject-plan, retry, cancel,
-- activity and workers. `task` is the row as the handler read it.
use kithkit.Base.{
  ℕ, ◌+◌, String, Bool, not, ◌||◌, List, [], ◌∷◌, ◌++◌, map, Option, none, some, any, str_eq, leb,
  if◌then◌else◌,
}
use kithkit.Base.Js.{Field, text}
use kithkit.Tasks.Checked.{Checked, ok, fail}
use kithkit.Tasks.Status.{pending, in_progress, awaiting_approval, failed, cancelled, same}
use kithkit.Tasks.Row.{
  Task, submitted, approved, rejected, is_submitted, Effect, activity, message, inject, fail_job,
  Answer, refused, accepted,
}
use kithkit.Tasks.Plan.{plan_text, rejection_reason}
use kithkit.TaskQueue.Status.{is_terminal}

-- Comms hears of it from the second retry on.
abbrev retry_alert : ℕ → List Effect
retry_alert count = if leb 2 count then inject "comms" ∷ [] else []

-- The new count is computed from the row as read.
unfoldable pub retry : Task → ℕ → Answer
retry task ts =
    if not (same task.status failed)
    then refused 409
    else accepted
        (λ row. record row {
          status = pending;
          assigned_to = none;
          error = none;
          result = none;
          retry_count = task.retry_count + 1;
          completed_at = none;
          updated_at = ts;
        })
        (λ _. activity "retry" ∷ retry_alert (task.retry_count + 1))

-- `workers` are the ids in `task_workers`.
unfoldable pub cancel : Task → List String → ℕ → Answer
cancel task workers ts =
    if is_terminal task.status
    then refused 409
    else accepted
        (λ row. record row { status = cancelled; completed_at = some ts; updated_at = ts })
        (λ _.
          (if same task.status in_progress then map fail_job workers else [])
          ++ activity "cancelled" ∷ [])

module _ (safe : String → Bool) where
  abbrev submit_text : Option String → ℕ → Answer
  submit_text none ts = refused 400
  submit_text (some plan) ts =
      if safe plan
      then accepted
          (λ row. record row {
            plan = some plan;
            plan_status = some submitted;
            plan_submitted_at = some ts;
            status = awaiting_approval;
            updated_at = ts;
          })
          (λ _. activity "plan_submitted" ∷ message "comms" ∷ inject "comms" ∷ [])
      else refused 400

  unfoldable pub submit_plan : Task → Field → ℕ → Answer
  submit_plan task plan ts =
      if not (same task.status in_progress) then refused 409 else submit_text (plan_text plan) ts

-- Unlike the route of unified-tasks.ts it leaves `started_at`.
unfoldable pub approve_plan : Task → ℕ → Answer
approve_plan task ts =
    if not (same task.status awaiting_approval)
    then refused 409
    else if not (is_submitted task.plan_status)
    then refused 409
    else accepted
        (λ row. record row {
          plan_status = some approved;
          plan_approved_at = some ts;
          status = in_progress;
          updated_at = ts;
        })
        (λ _. activity "plan_approved" ∷ message "orchestrator" ∷ inject "orchestrator" ∷ [])

-- Unlike the route of unified-tasks.ts it takes the task back to `in_progress`.
unfoldable pub reject_plan :
    (trim : String → String) (safe : String → Bool) → Task → Field → ℕ → Answer
reject_plan trim safe task reason ts =
    if not (same task.status awaiting_approval)
    then refused 409
    else if not (is_submitted task.plan_status)
    then refused 409
    else if not (safe (rejection_reason trim safe reason))
    then refused 400
    else accepted
        (λ row. record row {
          plan_status = some rejected;
          plan_rejected_reason = some (rejection_reason trim safe reason);
          status = in_progress;
          updated_at = ts;
        })
        (λ _. activity "plan_rejected" ∷ message "orchestrator" ∷ inject "orchestrator" ∷ [])

pub record ActivityBody : Type 0 where
  pub message : Field
  pub kind : Field
  pub stage : Option String

abbrev activity_kind : Field → String
activity_kind (some (text s)) = s
activity_kind _ = "note"

abbrev stage_name : Option String → String
stage_name none = ""
stage_name (some s) = s

abbrev post_message : (String → Bool) → ActivityBody → Option String → ℕ → Answer
post_message safe b none ts = refused 400
post_message safe b (some s) ts =
    if not (str_eq (activity_kind b.kind) "progress" || str_eq (activity_kind b.kind) "note")
    then refused 400
    else if not (safe s)
    then refused 400
    else accepted (λ row. record row { updated_at = ts })
        (λ _.
          activity (stage_name b.stage)
          ∷ (if str_eq (activity_kind b.kind) "progress" then inject "comms" ∷ [] else []))

-- An activity counts as a sign of life: it sets `updated_at`.
unfoldable pub post_activity : (String → Bool) → ActivityBody → ℕ → Answer
post_activity safe b ts = post_message safe b (plan_text b.message) ts

-- The workers of a task, with the new one. The pair of task and worker is the table's primary key.
abbrev add_worker : List String → Option String → Checked (List String)
add_worker workers none = fail 400
add_worker workers (some worker) =
    if any (λ w. str_eq w worker) workers then fail 409 else ok (workers ++ worker ∷ [])

unfoldable pub assign_worker : Task → List String → Field → Checked (List String)
assign_worker task workers worker_id =
    if is_terminal task.status then fail 409 else add_worker workers (plan_text worker_id)
