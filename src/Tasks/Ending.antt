-- ===== src/Tasks/Ending.antt =====
-- The retry and cancel routes of daemon/src/api/unified-tasks.ts. `task` is the row as the handler
-- read it.
use kithkit.Base.{
  ℕ, ◌+◌, String, not, ◌||◌, List, [], ◌∷◌, ◌++◌, map, Option, none, some, any, str_eq, leb,
  if◌then◌else◌,
}
use kithkit.Base.Js.{Field, text}
use kithkit.Tasks.Status.{pending, in_progress, blocked, failed, cancelled, same, is_terminal}
use kithkit.Tasks.Row.{Task, Effect, activity, message, inject, fail_job, Answer, refused, accepted}

abbrev valid_last_retry_reasons : List String
valid_last_retry_reasons =
    "timeout" ∷ "worker_error" ∷ "cancelled" ∷ "transient_failure" ∷ "plan_rejected"
    ∷ "peer_unreachable" ∷ []

abbrev pub retry_reason : Field → Option String
retry_reason (some (text s)) =
    if any (λ r. str_eq r s) valid_last_retry_reasons then some s else none
retry_reason _ = none

-- Comms hears of it from the second retry on.
abbrev retry_alert : ℕ → List Effect
retry_alert count = if leb 2 count then inject "comms" ∷ [] else []

-- The new count is computed from the row as read, not from the row that is written.
unfoldable pub retry : Task → Field → ℕ → Answer
retry task reason ts =
    if not (same task.status failed)
    then refused 409
    else accepted
        (λ row. record row {
          status = pending;
          assigned_to = none;
          error = none;
          result = none;
          retry_count = task.retry_count + 1;
          completed_at = none;
          last_retry_reason = retry_reason reason;
          updated_at = ts;
        })
        (λ _. activity "retry" ∷ retry_alert (task.retry_count + 1))

abbrev killed : Task → List String → List Effect
killed task workers =
    if same task.status in_progress || same task.status blocked then map fail_job workers else []

-- `workers` are the ids in `task_workers`.
unfoldable pub cancel : Task → List String → ℕ → Answer
cancel task workers ts =
    if is_terminal task.status
    then refused 409
    else accepted
        (λ row. record row { status = cancelled; completed_at = some ts; updated_at = ts })
        (λ _. killed task workers ++ activity "cancelled" ∷ message "comms" ∷ inject "comms" ∷ [])
