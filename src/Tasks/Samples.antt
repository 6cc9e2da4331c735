-- ===== src/Tasks/Samples.antt =====
-- Small tasks and requests, and the theorems at them.
use kithkit.Base.{true, false, List, [], ◌∷◌, none, some, ◌≡◌, ◌↔◌, inl, refl, arith}
use kithkit.Base.Js.{text, number, whole}
use kithkit.Tasks.Status.{
  TaskStatus, pending, awaiting_approval, in_progress, completed, failed, status_text,
  validate_transition, validate_raw_transition,
}
use kithkit.Tasks.Status.Graph.{validate_raw_iff}
use kithkit.Tasks.Row.{Task, orchestrator, submitted}
use kithkit.Tasks.Writes.{Body}
use kithkit.Tasks.Update.Cases.{status_body}
use kithkit.Tasks.Requests.{Env, Request, submits, approves, cancels, updates, step, run}
use kithkit.Tasks.Requests.Stamps.{IsStamped, run-IsStamped}
use kithkit.Tasks.Requests.Moves.{Move, step-Move}
use kithkit.Tasks.Requests.Final.{SameButFeedback, step-final}

abbrev plain : Env
plain = record { trim = λ s. s; safe_text = λ s. true; safe_record = λ t b. true; retro = false }

abbrev fresh : Task
fresh = record {
  external_id = some "11111111-1111-4111-8111-111111111111";
  kind = orchestrator;
  source = none;
  title = "port the parser";
  description = none;
  category = none;
  priority = "medium";
  due_date = none;
  snooze_until = none;
  status = pending;
  assigned_to = none;
  plan = none;
  plan_status = none;
  plan_submitted_at = none;
  plan_approved_at = none;
  plan_rejected_reason = none;
  result = none;
  error = none;
  outcome = none;
  outcome_reason = none;
  retry_count = 0;
  last_retry_reason = none;
  comms_outcome = none;
  comms_corrections = none;
  acknowledged_at = none;
  assigned_at = none;
  started_at = none;
  completed_at = none;
  updated_at = 0;
  work_notes = none;
  tags = "[]";
  complexity = none;
  risk = none;
  estimated_minutes = none;
  actual_minutes = none;
  calibration_mult = none;
  task_type = none;
  completion_status = none;
  estimation_method = none;
  workers_used = none;
  generate_retro = none;
  canonical_task_external_id = none;
  timeout_seconds = none;
  requesting_peer = none;
  created_at = 0;
}

abbrev working : Task
working = record fresh { status = in_progress; started_at = some 5 }

abbrev reviewed : Task
reviewed = record working {
  status = awaiting_approval;
  plan = some "1. read";
  plan_status = some submitted;
}

abbrev broken : Task
broken = record working { status = failed; completed_at = some 9 }

abbrev requests : List Request
requests =
    submits (some (text "1. read")) 6
    ∷ approves 7
    ∷ updates (status_body (text "done")) 8
    ∷ cancels [] 9
    ∷ []

run-IsStamped_example : IsStamped (run plain working requests)
run-IsStamped_example = run-IsStamped plain working requests (ground arith)

step-Move_example : Move in_progress (step plain working (submits (some (text "1. read")) 6)).status
step-Move_example = step-Move plain working (submits (some (text "1. read")) 6) refl

-- Feedback with the minutes that the task took.
abbrev late_minutes : Body
late_minutes = record (status_body (text "")) {
  status = none;
  comms_outcome = some (text "accepted");
  actual_minutes = some (number (whole 90));
}

abbrev finished : Task
finished = record broken { status = completed; estimated_minutes = some (whole 60) }

step-final_example : SameButFeedback finished (step plain finished (updates late_minutes 12))
step-final_example = step-final plain finished (updates late_minutes 12) (inl refl)

validate_raw_iff_example : (validate_raw_transition failed (text "done") ≡ true) ↔ (
    (to : TaskStatus) × (text "done" ≡ text (status_text to))
    × (validate_transition failed to ≡ true))
validate_raw_iff_example = validate_raw_iff failed (text "done")
