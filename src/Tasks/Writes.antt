-- ===== src/Tasks/Writes.antt =====
-- The body of PUT /api/tasks/:id of daemon/src/api/unified-tasks.ts, and what it writes into a row.
use Prim.Native.String.{◌++◌ as ◌<>◌}
use kithkit.Base.{ℕ, String, Bool, false, not, ◌&&◌, Option, none, some, if◌then◌else◌}
use kithkit.Base.Js.{
  Field, text, truthy, is_empty, text_or_null, number_or_null, flag_or_null, Number, is_positive,
  is_zero,
}
use kithkit.Tasks.Status.{TaskStatus, pending, same, get_transition_side_effects}
use kithkit.Tasks.Row.{Task}

-- `caller` is the header `x-agent`, and `note` the text `[time] ${work_notes}`. `tags` is the JSON of
-- an array, and `some none` where what the body has for tags is no array.
pub record Body : Type 0 where
  pub caller : Option String
  pub status : Field
  pub assigned_to : Field
  pub result : Field
  pub error : Field
  pub outcome : Field
  pub outcome_reason : Field
  pub plan : Field
  pub title : Field
  pub description : Field
  pub priority : Field
  pub due_date : Field
  pub snooze_until : Field
  pub category : Field
  pub comms_outcome : Field
  pub comms_corrections : Field
  pub acknowledged_at : Field
  pub work_notes : Field
  pub append_work_notes : Bool
  pub note : String
  pub tags : Option (Option String)
  pub complexity : Field
  pub risk : Field
  pub estimated_minutes : Field
  pub actual_minutes : Field
  pub task_type : Field
  pub completion_status : Field
  pub estimation_method : Field
  pub workers_used : Field
  pub generate_retro : Field
  pub canonical_task_external_id : Field

-- `if (effects.f) updates.f = effects.f`
abbrev pub or_keep : Option ℕ → Option ℕ → Option ℕ
or_keep (some t) old = some t
or_keep none old = old

-- Where a body's value goes into a nullable text column.
abbrev write_text : Field → Option String → Option String
write_text none old = old
write_text (some v) old = text_or_null v

unfoldable pub write_status : Task → Option TaskStatus → ℕ → Task → Task
write_status task none ts row = row
write_status task (some new) ts row =
    let effects = get_transition_side_effects task.status new task.assigned_at task.started_at ts in
    record row {
      status = new;
      assigned_at = or_keep effects.assigned_at row.assigned_at;
      started_at = or_keep effects.started_at row.started_at;
      completed_at = or_keep effects.completed_at row.completed_at;
      plan_submitted_at = or_keep effects.plan_submitted_at row.plan_submitted_at;
      plan_approved_at = or_keep effects.plan_approved_at row.plan_approved_at;
      assigned_to = if same new pending then none else row.assigned_to;
    }

abbrev pub clears_assignee : Option TaskStatus → Bool
clears_assignee none = false
clears_assignee (some new) = same new pending

-- `!task.assigned_at && !updates.assigned_at`: in either case of the second the column gets `ts`.
abbrev first_assigned : Option ℕ → ℕ → Option ℕ → Option ℕ
first_assigned none ts old = some ts
first_assigned (some t) ts old = old

unfoldable pub write_assignee : Task → Field → ℕ → Task → Task
write_assignee task none ts row = row
write_assignee task (some v) ts row =
    if truthy v
    then record row {
      assigned_to = text_or_null v;
      assigned_at = first_assigned task.assigned_at ts row.assigned_at;
    }
    else record row { assigned_to = text_or_null v }

abbrev or_same : Option String → String → String
or_same none old = old
or_same (some s) old = s

abbrev write_priority : Field → String → String
write_priority (some (text s)) old = s
write_priority _ old = old

abbrev pub has_text : Option String → Bool
has_text none = false
has_text (some s) = not (is_empty s)

abbrev text_of : Option String → String
text_of none = ""
text_of (some s) = s

unfoldable pub write_texts : Body → Option String → ℕ → Task → Task
write_texts b title ts row = record row {
  title = or_same title row.title;
  description = write_text b.description row.description;
  category = write_text b.category row.category;
  priority = write_priority b.priority row.priority;
  due_date = write_text b.due_date row.due_date;
  snooze_until = write_text b.snooze_until row.snooze_until;
  result = write_text b.result row.result;
  error = write_text b.error row.error;
  outcome = write_text b.outcome row.outcome;
  outcome_reason = write_text b.outcome_reason row.outcome_reason;
  plan = write_text b.plan row.plan;
  comms_outcome = write_text b.comms_outcome row.comms_outcome;
  comms_corrections = write_text b.comms_corrections row.comms_corrections;
  acknowledged_at = write_text b.acknowledged_at row.acknowledged_at;
  updated_at = ts;
}

-- `old` is the notes as the handler read them, `row_notes` as they stand when it writes.
abbrev write_notes : Body → (old row_notes : Option String) → Option String
write_notes b old row_notes = elim b.work_notes [
  | none ↦ row_notes
  | some v ↦
      if b.append_work_notes
      then some (if has_text old then text_of old <> "\n\n" <> b.note else b.note)
      else text_or_null v
]

abbrev write_tags : Option (Option String) → String → String
write_tags none old = old
write_tags (some none) old = "[]"
write_tags (some (some s)) old = s

abbrev write_number : Field → Option Number → Option Number
write_number none old = old
write_number (some v) old = number_or_null v

-- The quotient where both numbers are there and not zero, and the estimate is positive.
abbrev calibrated :
    (estimated actual : Option Number) → Option (Number × Number) → Option (Number × Number)
calibrated (some e) (some a) old = if is_positive e && not (is_zero a) then some (a, e) else old
calibrated _ _ old = old

abbrev write_flag : Field → Option Bool → Option Bool
write_flag none old = old
write_flag (some v) old = flag_or_null v

unfoldable pub write_extras : Task → Body → Task → Task
write_extras task b row = record row {
  work_notes = write_notes b task.work_notes row.work_notes;
  tags = write_tags b.tags row.tags;
  complexity = write_number b.complexity row.complexity;
  risk = write_number b.risk row.risk;
  estimated_minutes = write_number b.estimated_minutes row.estimated_minutes;
  actual_minutes = write_number b.actual_minutes row.actual_minutes;
  calibration_mult =
      calibrated (write_number b.estimated_minutes task.estimated_minutes)
        (write_number b.actual_minutes task.actual_minutes) row.calibration_mult;
  task_type = write_text b.task_type row.task_type;
  completion_status = write_text b.completion_status row.completion_status;
  estimation_method = write_text b.estimation_method row.estimation_method;
  workers_used = write_number b.workers_used row.workers_used;
  generate_retro = write_flag b.generate_retro row.generate_retro;
  canonical_task_external_id =
      write_text b.canonical_task_external_id row.canonical_task_external_id;
}
