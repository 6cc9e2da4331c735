-- ===== src/Tasks/Plan.antt =====
-- The plan routes of daemon/src/api/unified-tasks.ts: submit-plan, approve-plan, reject-plan.
-- `task` is the row as the handler read it. `safe` stands for the credential guard: it says that
-- the text carries no credential, and the handler answers 400 where it does.
use kithkit.Base.{ℕ, String, Bool, not, ◌||◌, [], ◌∷◌, Option, none, some, if◌then◌else◌}
use kithkit.Base.Js.{Field, text, is_empty}
use kithkit.Tasks.Status.{planning, in_progress, awaiting_approval, same}
use kithkit.Tasks.Row.{
  Task, submitted, approved, rejected, is_submitted, activity, message, inject, Answer, refused,
  accepted,
}

-- `started_at = COALESCE(started_at, ts)`
abbrev pub coalesce : Option ℕ → ℕ → Option ℕ
coalesce none ts = some ts
coalesce (some t) ts = some t

-- A body's `plan` that is a non-empty string.
abbrev pub plan_text : Field → Option String
plan_text (some (text s)) = if is_empty s then none else some s
plan_text _ = none

module _ (safe : String → Bool) where
  submit_text : Task → Option String → ℕ → Answer
  submit_text task none ts = refused 400
  submit_text task (some plan) ts =
      if safe plan
      then accepted
          (λ row. record row {
            plan = some plan;
            plan_status = some submitted;
            plan_submitted_at = some ts;
            status = awaiting_approval;
            updated_at = ts;
          })
          (λ _. activity "plan_submitted" ∷ message "comms" ∷ inject "comms" ∷ [])
      else refused 400

  unfoldable pub submit_plan : Task → Field → ℕ → Answer
  unfolding submit_text
  submit_plan task plan ts =
      if not (same task.status in_progress || same task.status planning)
      then refused 409
      else submit_text task (plan_text plan) ts

unfoldable pub approve_plan : Task → ℕ → Answer
approve_plan task ts =
    if not (same task.status awaiting_approval)
    then refused 409
    else if not (is_submitted task.plan_status)
    then refused 409
    else accepted
        (λ row. record row {
          plan_status = some approved;
          plan_approved_at = some ts;
          status = in_progress;
          started_at = coalesce row.started_at ts;
          updated_at = ts;
        })
        (λ _. activity "plan_approved" ∷ message "orchestrator" ∷ inject "orchestrator" ∷ [])

-- `trim` is JavaScript's.
module _ (trim : String → String) (safe : String → Bool) where
  abbrev pub rejection_reason : Field → String
  rejection_reason (some (text s)) = if is_empty (trim s) then "No reason provided" else trim s
  rejection_reason _ = "No reason provided"

  unfoldable pub reject_plan : Task → Field → ℕ → Answer
  reject_plan task reason ts =
      if not (same task.status awaiting_approval)
      then refused 409
      else if not (is_submitted task.plan_status)
      then refused 409
      else if not (safe (rejection_reason reason))
      then refused 400
      else accepted
          (λ row. record row {
            plan_status = some rejected;
            plan_rejected_reason = some (rejection_reason reason);
            status = planning;
            updated_at = ts;
          })
          (λ _. activity "plan_rejected" ∷ message "orchestrator" ∷ inject "orchestrator" ∷ [])
