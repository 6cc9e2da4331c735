-- ===== src/TaskQueue/Update.antt =====
-- daemon/src/api/task-queue.ts: PUT /api/orchestrator/tasks/:id. `task` is the row as the handler
-- read it. The assignee, result, error and work notes of a body are texts or null, where given.
use Prim.Native.String.{◌++◌ as ◌<>◌}
use kithkit.Base.{
  ℕ, String, Bool, true, false, not, ◌&&◌, ◌||◌, List, [], ◌∷◌, ◌++◌, Option, none, some, str_eq,
  if◌then◌else◌,
}
use kithkit.Base.Js.{Field, Number, whole, text, given, is_empty, text_or_null, flag_or_null}
use kithkit.Tasks.Checked.{Checked, ok, fail, ◌>>=◌, ◌>>◌, deny_if}
use kithkit.Tasks.Status.{
  TaskStatus, pending, assigned, in_progress, completed, failed, same, includes, parse_status,
  normalize_status_alias,
}
use kithkit.Tasks.Row.{
  Task, is_submitted, Effect, activity, message, inject, store_memory, evaluate, Answer, refused,
  accepted,
}
use kithkit.Tasks.Update.{
  caller_is_comms, is_human, valid_outcomes, valid_comms_outcomes, null_or_one_of,
}
use kithkit.TaskQueue.Status
use kithkit.TaskQueue.Status.{valid_transitions, is_terminal, is_drift}

-- A text or null, where the field is given.
abbrev pub Cell : Type 0
Cell = Option (Option String)

abbrev has : Cell → Bool
has none = false
has (some v) = true

pub record Body : Type 0 where
  pub caller : Option String
  pub status : Field
  pub assignee : Cell
  pub result : Cell
  pub error : Cell
  pub work_notes : Cell
  pub append_work_notes : Bool
  pub outcome : Field
  pub outcome_notes : Field
  pub complexity : Field
  pub generate_retro : Field
  pub canonical_task_external_id : Field
  pub comms_outcome : Field
  pub comms_corrections : Field
  pub acknowledged_at : Field
  pub plan : Field

abbrev pub has_comms_feedback : Body → Bool
has_comms_feedback b = given b.comms_outcome || given b.comms_corrections || given b.acknowledged_at

abbrev pub has_non_feedback_fields : Body → Bool
has_non_feedback_fields b =
    given b.status
    || has b.assignee
    || has b.result
    || has b.error
    || has b.work_notes
    || given b.outcome
    || given b.outcome_notes
    || given b.plan

-- Tested on the status as it stands in the body, before aliases are replaced.
abbrev pub escapes : TaskStatus → Field → Bool
escapes from none = false
escapes from (some v) = elim (valid_transitions from) [
  | none ↦ false
  | some allowed ↦ elim (parse_status allowed v) [ none ↦ false | some _ ↦ true ]
]

abbrev pub is_failed_escape_valve : Task → Body → Bool
is_failed_escape_valve task b = same task.status failed && escapes task.status b.status

abbrev pub changes_ended : Task → Body → Bool
changes_ended task b =
    is_terminal task.status
    && not (is_failed_escape_valve task b)
    && (has_non_feedback_fields b || not (has_comms_feedback b))

unfoldable pub guards : Task → Body → Checked (Unit {0})
unfolding valid_transitions
guards task b = do
  deny_if (given b.acknowledged_at && not (is_terminal task.status)) 409
  deny_if (given b.acknowledged_at && is_human task.source && not (caller_is_comms b.caller)) 403
  deny_if (changes_ended task b) 409

-- A status without an entry in the table makes the handler throw, which is answered with 500.
abbrev pub aim : Option (List TaskStatus) → TaskStatus → Checked (Option TaskStatus)
aim none new = fail 500
aim (some allowed) new = if includes allowed new then ok (some new) else fail 409

unfoldable pub target : Task → Field → Checked (Option TaskStatus)
unfolding valid_transitions parse_status normalize_status_alias
target task none = ok none
target task (some v) = elim (parse_status Status.valid_statuses (normalize_status_alias v)) [
  | none ↦ fail 400
  | some new ↦ aim (valid_transitions task.status) new
]

abbrev pub or_status : Option TaskStatus → TaskStatus → TaskStatus
or_status none old = old
or_status (some new) old = new

abbrev clears : Option TaskStatus → Bool
clears none = false
clears (some new) = same new pending

abbrev pub target_assignee : Task → Option TaskStatus → Cell → Option String
target_assignee task new (some assignee) = assignee
target_assignee task new none = if clears new then none else task.assigned_to

abbrev pub valid_complexity : List String
valid_complexity = "S" ∷ "M" ∷ "L" ∷ "XL" ∷ []

abbrev pub number_of : String → Option Number
number_of s =
    if str_eq s "S"
    then some (whole 1)
    else if str_eq s "M"
    then some (whole 2)
    else if str_eq s "L"
    then some (whole 3)
    else if str_eq s "XL"
    then some (whole 4)
    else none

unfoldable pub complexity_to_int : Option String → Option Number
complexity_to_int none = none
complexity_to_int (some s) = number_of s

abbrev null_if : Bool → Option ℕ → ℕ → Option ℕ
null_if true old ts = some ts
null_if false old ts = old

abbrev is_null : Option ℕ → Bool
is_null none = true
is_null (some _) = false

unfoldable pub write_status : Task → Option TaskStatus → ℕ → Task → Task
write_status task none ts row = row
write_status task (some new) ts row = record row {
  status = new;
  assigned_at = null_if (same new assigned && is_null task.assigned_at) row.assigned_at ts;
  started_at = null_if (same new in_progress && is_null task.started_at) row.started_at ts;
  completed_at = null_if (is_terminal new) row.completed_at ts;
  assigned_to = if same new pending then none else row.assigned_to;
}

abbrev is_name : Option String → Bool
is_name none = false
is_name (some s) = not (is_empty s)

unfoldable pub write_assignee : Task → Cell → ℕ → Task → Task
write_assignee task none ts row = row
write_assignee task (some assignee) ts row = record row {
  assigned_to = assignee;
  assigned_at = null_if (is_name assignee && is_null task.assigned_at) row.assigned_at ts;
}

abbrev write_cell : Cell → Option String → Option String
write_cell none old = old
write_cell (some v) old = v

abbrev write_text : Field → Option String → Option String
write_text none old = old
write_text (some v) old = text_or_null v

-- `${v}`
abbrev shown : Option String → String
shown none = "null"
shown (some s) = s

-- `note_time` is the present instant as a text.
abbrev appended : (note_time : String) → Option String → Option String → String
appended note_time old v =
    if is_name old
    then shown old <> "\n\n[" <> note_time <> "] " <> shown v
    else "[" <> note_time <> "] " <> shown v

abbrev write_notes : String → Bool → Cell → (read old : Option String) → Option String
write_notes note_time append none read old = old
write_notes note_time true (some v) read old = some (appended note_time read v)
write_notes note_time false (some v) read old = v

abbrev write_complexity : Field → Option Number → Option Number
write_complexity none old = old
write_complexity (some v) old = complexity_to_int (text_or_null v)

abbrev flag : Field → Option Bool → Option Bool
flag none old = old
flag (some v) old = flag_or_null v

unfoldable pub write_texts : String → Task → Body → ℕ → Task → Task
unfolding complexity_to_int
write_texts note_time task b ts row = record row {
  result = write_cell b.result row.result;
  error = write_cell b.error row.error;
  work_notes =
      write_notes note_time b.append_work_notes b.work_notes task.work_notes row.work_notes;
  outcome = write_text b.outcome row.outcome;
  outcome_reason = write_text b.outcome_notes row.outcome_reason;
  complexity = write_complexity b.complexity row.complexity;
  generate_retro = flag b.generate_retro row.generate_retro;
  canonical_task_external_id =
      write_text b.canonical_task_external_id row.canonical_task_external_id;
  comms_outcome = write_text b.comms_outcome row.comms_outcome;
  comms_corrections = write_text b.comms_corrections row.comms_corrections;
  acknowledged_at = write_text b.acknowledged_at row.acknowledged_at;
  plan = write_text b.plan row.plan;
  updated_at = ts;
}

abbrev has_text : Option String → Bool
has_text none = false
has_text (some s) = not (is_empty s)

abbrev when : Bool → List Effect → List Effect
when true es = es
when false es = []

abbrev is_correction : Option String → Field → Bool
is_correction old (some (text s)) =
    (str_eq s "corrected" || str_eq s "redirected")
    && elim old [ none ↦ true | some o ↦ not (str_eq o s) ]
is_correction old _ = false

pub status_effects : Bool → Option TaskStatus → Task → List Effect
status_effects retro none updated = []
status_effects retro (some new) updated =
    activity "status_change" ∷ when (is_terminal new) (message "comms" ∷ inject "comms" ∷ [])
    ++ (when (same new completed && has_text updated.result) (store_memory ∷ [])
        ++ when (retro && (same new completed || same new failed)) (evaluate ∷ []))

-- The row that an accepted PUT leaves.
abbrev pub put_row : String → Task → Body → ℕ → Option TaskStatus → Task → Task
put_row note_time task b ts new row =
    write_texts note_time task b ts
      (write_assignee task b.assignee ts (write_status task new ts row))

-- `safe` stands for the credential guard's verdict on the columns that are written, `retro` for the
-- configuration's `retro.enabled`.
module _ (safe : Task → Body → Bool) (retro : Bool) (note_time : String) where
  -- What the handler checks, in its order. It gives the new status, if there is one.
  unfoldable pub checks : Task → Body → Checked (Option TaskStatus)
  unfolding guards target null_or_one_of is_drift
  checks task b = do
    guards task b
    new ← target task b.status
    null_or_one_of valid_outcomes b.outcome
    null_or_one_of valid_complexity b.complexity
    null_or_one_of valid_comms_outcomes b.comms_outcome
    deny_if (given b.plan && is_submitted task.plan_status) 409
    deny_if (is_drift (or_status new task.status) (target_assignee task new b.assignee)) 400
    deny_if (not (safe task b)) 400
    ok new

  abbrev pub answer : Task → Body → ℕ → Checked (Option TaskStatus) → Answer
  answer task b ts (fail code) = refused code
  answer task b ts (ok new) = accepted (put_row note_time task b ts new) (λ updated.
      status_effects retro new updated
      ++ when (retro && is_correction task.comms_outcome b.comms_outcome) (evaluate ∷ []))

  unfoldable pub update : Task → Body → ℕ → Answer
  unfolding checks write_status write_assignee write_texts
  update task b ts = answer task b ts (checks task b)
