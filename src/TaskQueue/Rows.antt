-- ===== src/TaskQueue/Rows.antt =====
-- daemon/src/api/task-queue.ts: the creation of a task, the older shape in which tasks are answered,
-- and the list of tasks.
use kithkit.Base.{
  ℕ, String, Bool, false, not, ◌&&◌, ◌||◌, List, [], ◌∷◌, Option, none, some, any, filter, length,
  str_eq, leb, ◌==◌, if◌then◌else◌,
}
use kithkit.Base.Sort
use kithkit.Base.Js.{
  Field, Number, whole, is_zero, is_whole, above, text_or_null, number_or_null, codes, codes_le,
}
use kithkit.Tasks.Checked.{Checked, ok, fail, ◌>>◌, deny_if}
use kithkit.Tasks.Status.{TaskStatus, pending, cancelled, same, includes, find_status}
use kithkit.Tasks.Row.{Task, orchestrator, is_todo}
use kithkit.Tasks.Plan.{plan_text}
use kithkit.TaskQueue.Status
use kithkit.TaskQueue.Update.{complexity_to_int}

unfoldable pub legacy_int_to_priority_text : Number → String
legacy_int_to_priority_text n =
    if not (above 0 n) then "low" else if is_whole 1 n then "medium" else "urgent"

unfoldable pub priority_text_to_legacy_int : String → ℕ
priority_text_to_legacy_int p =
    if str_eq p "medium" || str_eq p "high" then 1 else if str_eq p "urgent" then 2 else 0

unfoldable pub int_to_complexity : Option Number → Option String
int_to_complexity none = none
int_to_complexity (some n) =
    if is_whole 1 n
    then some "S"
    else if is_whole 2 n
    then some "M"
    else if is_whole 3 n
    then some "L"
    else if is_whole 4 n
    then some "XL"
    else none

pub record CreateBody : Type 0 where
  pub title : Field
  pub description : Field
  pub priority : Field
  pub source : Field
  pub work_notes : Field
  pub timeout_seconds : Field
  pub complexity : Field
  pub canonical_task_external_id : Field
  pub requesting_peer : Field

abbrev pub or_zero : Option Number → Number
or_zero none = whole 0
or_zero (some n) = n

-- `typeof v === 'number' ? v : null`
abbrev pub number_of : Field → Option Number
number_of none = none
number_of (some v) = number_or_null v

abbrev pub is_below_zero : Number → Bool
is_below_zero n = n.negative && not (is_zero n)

-- `typeof v === 'string' ? v : null`
abbrev pub text_of : Field → Option String
text_of none = none
text_of (some v) = text_or_null v

abbrev pub source_of : Option String → String
source_of none = "orchestrator"
source_of (some s) = s

abbrev pub is_peer_code : ℕ → Bool
is_peer_code c = leb b'a' c && leb c b'z' || leb b'0' c && leb c b'9' || c == b'_' || c == b'-'

abbrev pub is_peer : List ℕ → Bool
is_peer [] = false
is_peer (c ∷ cs) = leb (length (c ∷ cs)) 64 && not (any (λ d. not (is_peer_code d)) (c ∷ cs))

-- `clean` is `trim().toLowerCase()`.
unfoldable pub sanitize_peer : (clean : String → String) → Option String → Option String
unfolding codes
sanitize_peer clean none = none
sanitize_peer clean (some s) = if is_peer (codes (clean s)) then some (clean s) else none

abbrev pub new_task : (clean : String → String) → String → CreateBody → String → ℕ → Task
new_task clean external_id b title ts = record {
  external_id = some external_id;
  kind = orchestrator;
  source = some (source_of (text_of b.source));
  title = title;
  description = text_of b.description;
  category = none;
  priority = legacy_int_to_priority_text (or_zero (number_of b.priority));
  due_date = none;
  snooze_until = none;
  status = pending;
  assigned_to = none;
  plan = none;
  plan_status = none;
  plan_submitted_at = none;
  plan_approved_at = none;
  plan_rejected_reason = none;
  result = none;
  error = none;
  outcome = none;
  outcome_reason = none;
  retry_count = 0;
  last_retry_reason = none;
  comms_outcome = none;
  comms_corrections = none;
  acknowledged_at = none;
  assigned_at = none;
  started_at = none;
  completed_at = none;
  updated_at = ts;
  work_notes = text_of b.work_notes;
  tags = "[]";
  complexity = complexity_to_int (text_of b.complexity);
  risk = none;
  estimated_minutes = none;
  actual_minutes = none;
  calibration_mult = none;
  task_type = none;
  completion_status = none;
  estimation_method = none;
  workers_used = none;
  generate_retro = none;
  canonical_task_external_id = text_of b.canonical_task_external_id;
  timeout_seconds = number_of b.timeout_seconds;
  requesting_peer = sanitize_peer clean (text_of b.requesting_peer);
  created_at = ts;
}

-- `safe` is the credential guard's verdict. `external_id` is a random UUID.
module _ (clean : String → String) (safe : CreateBody → Bool) where
  abbrev pub create_titled : String → CreateBody → ℕ → Option String → Checked Task
  create_titled external_id b ts none = fail 400
  create_titled external_id b ts (some title) = do
    deny_if
        (is_below_zero (or_zero (number_of b.priority)) || above 2 (or_zero (number_of b.priority)))
        400
    deny_if (not (safe b)) 400
    ok (new_task clean external_id b title ts)

  unfoldable pub create : String → CreateBody → ℕ → Checked Task
  unfolding legacy_int_to_priority_text complexity_to_int sanitize_peer
  create external_id b ts = create_titled external_id b ts (plan_text b.title)

-- The columns of the older shape that differ from the row's.
pub record OrchestratorTask : Type 0 where
  pub id : Option String
  pub title : String
  pub status : TaskStatus
  pub assignee : Option String
  pub priority : ℕ
  pub outcome_notes : Option String
  pub complexity : Option String

-- The id is the row's number where it has no external id.
unfoldable pub task_to_orchestrator_response : Task → OrchestratorTask
unfolding priority_text_to_legacy_int int_to_complexity
task_to_orchestrator_response t = record {
  id = t.external_id;
  title = t.title;
  status = t.status;
  assignee = t.assigned_to;
  priority = priority_text_to_legacy_int t.priority;
  outcome_notes = t.outcome_reason;
  complexity = int_to_complexity t.complexity;
}

-- `ORDER BY priority DESC, created_at ASC`, with the priorities as texts.
unfoldable pub listed_before : Task → Task → Bool
unfolding codes codes_le
listed_before t u =
    if str_eq t.priority u.priority
    then leb t.created_at u.created_at
    else codes_le (codes u.priority) (codes t.priority)

unfoldable pub parse_statuses : List String → Option (List TaskStatus)
parse_statuses [] = some []
parse_statuses (s ∷ ss) = elim (find_status s Status.valid_statuses) [
  | none ↦ none
  | some status ↦ elim (parse_statuses ss) [ none ↦ none | some more ↦ some (status ∷ more) ]
]

abbrev select : (TaskStatus → Bool) → List Task → List Task
select test tasks =
    Sort.sort listed_before (filter (λ t. not (is_todo t.kind) && test t.status) tasks)

abbrev list_of : List Task → Option (List TaskStatus) → Checked (List Task)
list_of tasks none = fail 400
list_of tasks (some statuses) = ok (select (includes statuses) tasks)

-- `statuses` are the parts of the filter between the commas, trimmed; `none` where there is no filter.
unfoldable pub list : List Task → (statuses : Option (List String)) → Checked (List Task)
unfolding parse_statuses Sort.sort listed_before
list tasks none = ok (select (λ s. not (same s cancelled)) tasks)
list tasks (some statuses) = list_of tasks (parse_statuses statuses)
