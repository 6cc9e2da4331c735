-- ===== src/TaskQueue/Samples.antt =====
-- Small tasks and requests at the older routes, and the theorems at them.
use kithkit.Base.{String, true, false, List, [], ◌∷◌, none, some, ◌≡◌, inl, refl}
use kithkit.Base.Js.{text, number, whole}
use kithkit.Base.Sort
use kithkit.Tasks.Checked.{ok}
use kithkit.Tasks.Status.{
  pending, planning, completed, abandoned, cancelled, parse_status, normalize_status_alias,
}
use kithkit.Tasks.Row.{Task, refused}
use kithkit.Tasks.Requests
use kithkit.TaskQueue.{Env, Request, retries, cancels, updates, handle, step, run}
use kithkit.TaskQueue.Status.{is_drift}
use kithkit.TaskQueue.Update.{Body}
use kithkit.TaskQueue.Rows.{CreateBody, new_task, create, list, task_to_orchestrator_response}
use kithkit.TaskQueue.Drift.{IsAligned, run-IsAligned}
use kithkit.TaskQueue.Moves.{TableMove, step-TableMove}
use kithkit.TaskQueue.Both.{
  newer, older, any_run, SameResult, any_run-SameResult, abandoned_cancelled,
}
use kithkit.TaskQueue.Created.{Echoes, created_reads_back}
use kithkit.TaskQueue.Throws.{unlisted_status_throws}

abbrev plain : Env
plain = record {
  trim = λ s. s;
  safe_text = λ s. true;
  safe_record = λ t b. true;
  retro = false;
  note_time = "10:00";
}

abbrev plain_newer : Requests.Env
plain_newer = record {
  trim = λ s. s;
  safe_text = λ s. true;
  safe_record = λ t b. true;
  retro = false;
}

abbrev wish : CreateBody
wish = record {
  title = some (text "port the parser");
  description = none;
  priority = some (number (whole 1));
  source = none;
  work_notes = none;
  timeout_seconds = none;
  complexity = some (text "L");
  canonical_task_external_id = none;
  requesting_peer = none;
}

abbrev fresh : Task
fresh = new_task (λ s. s) "11111111-1111-4111-8111-111111111111" wish "port the parser" 1

abbrev over : Task
over = record fresh { status = completed; completed_at = some 4; result = some "done" }

abbrev given_up : Task
given_up = record fresh { status = abandoned; completed_at = some 4 }

abbrev planned : Task
planned = record fresh { status = planning; assigned_to = some "orchestrator" }

abbrev status_body : String → Body
status_body s = record {
  caller = none;
  status = some (text s);
  assignee = none;
  result = none;
  error = none;
  work_notes = none;
  append_work_notes = false;
  outcome = none;
  outcome_notes = none;
  complexity = none;
  generate_retro = none;
  canonical_task_external_id = none;
  comms_outcome = none;
  comms_corrections = none;
  acknowledged_at = none;
  plan = none;
}

abbrev assign_body : Body
assign_body = record (status_body "assigned") { assignee = some (some "orchestrator") }

-- An estimate in a body that has feedback too.
abbrev feedback_body : Body
feedback_body = record (status_body "") {
  status = none;
  comms_outcome = some (text "accepted");
  complexity = some (text "XL");
}

abbrev requests : List Request
requests =
    updates assign_body 2
    ∷ updates (status_body "in_progress") 3
    ∷ updates (status_body "failed") 4
    ∷ retries 5
    ∷ []

assigned_and_retried : (run plain fresh requests).assigned_at ≡ some 2
unfolding run
assigned_and_retried = refl

estimate_of_a_completed_task :
    (step plain over (updates feedback_body 9)).complexity ≡ some (whole 4)
unfolding step
estimate_of_a_completed_task = refl

abbrev urgent : Task
urgent = record fresh { priority = "urgent" }

abbrev low : Task
low = record fresh { priority = "low" }

abbrev high : Task
high = record fresh { priority = "high" }

-- The texts are compared, so a task of priority `high` comes last.
high_is_last : list (high ∷ low ∷ urgent ∷ []) none ≡ ok (urgent ∷ low ∷ high ∷ [])
unfolding list Sort.sort
high_is_last = refl

run-IsAligned_example : IsAligned (run plain fresh requests)
unfolding is_drift
run-IsAligned_example = run-IsAligned plain fresh requests refl

step-TableMove_example : TableMove pending (step plain fresh (updates assign_body 2)).status
step-TableMove_example = step-TableMove plain fresh (updates assign_body 2) refl

any_run-SameResult_example : SameResult over (
    any_run plain_newer plain over
      (older (updates feedback_body 9) ∷ newer (Requests.retries none 10) ∷ []))
any_run-SameResult_example =
    any_run-SameResult plain_newer plain over
      (older (updates feedback_body 9) ∷ newer (Requests.retries none 10) ∷ []) (inl refl)

abandoned_cancelled_example :
    let u = Requests.run plain_newer given_up (Requests.approves 5 ∷ []) in
    (u.status ≡ abandoned) × ((step plain u (cancels [] 6)).status ≡ cancelled)
abandoned_cancelled_example =
    abandoned_cancelled plain_newer plain given_up (Requests.approves 5 ∷ []) [] 6 refl refl

created_reads_back_example :
    Echoes "11111111-1111-4111-8111-111111111111" wish 1 (task_to_orchestrator_response fresh)
unfolding create
created_reads_back_example =
    created_reads_back (λ s. s) (λ b. true) "11111111-1111-4111-8111-111111111111" wish 1 fresh refl

unlisted_status_throws_example :
    handle plain planned (updates (status_body "completed") 7) ≡ refused 500
unfolding parse_status normalize_status_alias
unlisted_status_throws_example =
    unlisted_status_throws plain planned (status_body "completed") (text "completed") completed 7
      refl refl refl refl refl
