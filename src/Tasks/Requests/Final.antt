-- ===== src/Tasks/Requests/Final.antt =====
-- Completed, abandoned and cancelled tasks.
use kithkit.Base.{
  ℕ, String, Bool, true, false, not, ◌||◌, ◌&&◌, Option, none, some, ◌≡◌, ◌⊎◌, refl, arith,
}
use kithkit.Base.Js.{Field, given}
use kithkit.Tasks.Checked.{Checked, ok, ◌>>◌, deny_if, deny_if-eq-ok, deny_if-ok}
use kithkit.Tasks.Status.{TaskStatus, completed, abandoned, cancelled, is_terminal}
use kithkit.Tasks.Row.{Task}
use kithkit.Tasks.Plan.{submit_plan, approve_plan, reject_plan}
use kithkit.Tasks.Ending.{retry, cancel}
use kithkit.Tasks.Update.{
  guards, target, has_tags, new_title, has_non_feedback_fields, has_comms_feedback,
  is_failed_escape_valve, acknowledges_early, acknowledges_for_human, changes_ended,
}
use kithkit.Tasks.Writes.{Body, write_status, write_assignee, write_texts, write_extras}
use kithkit.Tasks.Update.Cases.{put_row, update_cases}
use kithkit.Tasks.Requests.{
  Env, Request, submits, approves, rejects, retries, cancels, updates, handle, step,
}

abbrev pub IsFinal : TaskStatus → Type 0
IsFinal s = (s ≡ completed) ⊎ (s ≡ abandoned) ⊎ (s ≡ cancelled)

-- `u` is `t` but for `updated_at` and the columns of the fields that a finished task accepts beside
-- feedback: the feedback itself, the estimates, and those of the retro and the canonical task.
abbrev pub SameButFeedback : Task → Task → Type 0
SameButFeedback t u = u ≡ record t {
  comms_outcome = u.comms_outcome;
  comms_corrections = u.comms_corrections;
  acknowledged_at = u.acknowledged_at;
  updated_at = u.updated_at;
  complexity = u.complexity;
  risk = u.risk;
  estimated_minutes = u.estimated_minutes;
  actual_minutes = u.actual_minutes;
  calibration_mult = u.calibration_mult;
  task_type = u.task_type;
  completion_status = u.completion_status;
  estimation_method = u.estimation_method;
  workers_used = u.workers_used;
  generate_retro = u.generate_retro;
  canonical_task_external_id = u.canonical_task_external_id;
}

-- The fields of a body whose presence a finished task refuses.
abbrev IsFeedback : Body → Type 0
IsFeedback b =
    (b.status ≡ none)
    × (b.assigned_to ≡ none)
    × (b.result ≡ none)
    × (b.error ≡ none)
    × (b.outcome ≡ none)
    × (b.outcome_reason ≡ none)
    × (b.plan ≡ none)
    × (b.title ≡ none)
    × (b.description ≡ none)
    × (b.priority ≡ none)
    × (b.due_date ≡ none)
    × (b.snooze_until ≡ none)
    × (b.category ≡ none)
    × (b.work_notes ≡ none)
    × (b.tags ≡ none)

has_tags-false : (v : Option (Option String)) → has_tags v ≡ false → v ≡ none
has_tags-false none h = refl
has_tags-false (some v) h = cc

given-false : (f : Field) → given f ≡ false → f ≡ none
given-false none h = refl
given-false (some v) h = cc

has_non_feedback_fields-IsFeedback : (b : Body) → has_non_feedback_fields b ≡ false → IsFeedback b
has_non_feedback_fields-IsFeedback b h = ground arith

first_of_or :
    (x y : Bool) (nf z : Bool)
    → x ≡ true
    → y ≡ false
    → (x && not y && (nf || z)) ≡ false
    → nf ≡ false
first_of_or x y nf z p q h = ground arith

final-is_terminal : (s : TaskStatus) → IsFinal s → is_terminal s ≡ true
final-is_terminal s f = ground arith

final-is_failed_escape_valve :
    (t : Task) (b : Body) → IsFinal t.status → is_failed_escape_valve t b ≡ false
final-is_failed_escape_valve t b f = ground arith

guards-final :
    (t : Task) (b : Body)
    → IsFinal t.status
    → guards t b ≡ ok tt
    → has_non_feedback_fields b ≡ false
unfolding guards
guards-final t b f g =
    let last : Checked (Unit {0}) = deny_if (changes_ended t b) 409 in
    let later =
      deny_if-eq-ok (acknowledges_early t b) 409 (deny_if (acknowledges_for_human t b) 403 >> last)
        g in
    let third = deny_if-eq-ok (acknowledges_for_human t b) 403 last later.1 in
    first_of_or (is_terminal t.status) (is_failed_escape_valve t b) (has_non_feedback_fields b)
      (not (has_comms_feedback b)) (final-is_terminal t.status f)
      (final-is_failed_escape_valve t b f) (deny_if-ok (changes_ended t b) 409 third.1)

put_row_final :
    (trim : String → String) (t : Task) (b : Body) (ts : ℕ) (new : Option TaskStatus)
    (title : Option String)
    → IsFeedback b
    → target t b.status ≡ ok new
    → new_title trim b.title ≡ ok title
    → SameButFeedback t (put_row t b ts new title t)
unfolding target new_title write_status write_assignee write_texts write_extras
put_row_final trim t b ts new title f e g = ground arith

-- A completed, abandoned or cancelled task, of either kind, keeps every column but `comms_outcome`,
-- `comms_corrections`, `acknowledged_at`, `updated_at`, `complexity`, `risk`, `estimated_minutes`,
-- `actual_minutes`, `calibration_mult`, `task_type`, `completion_status`, `estimation_method`,
-- `workers_used`, `generate_retro` and `canonical_task_external_id`, whatever request for a
-- plan, an approval, a rejection, a retry, a cancellation or an update the newer routes handle, with no
-- other in between. So its status, result, error, outcome, plan, title, assignee and notes stay.
pub step-final :
    (e : Env) (t : Task) (r : Request) → IsFinal t.status → SameButFeedback t (step e t r)
unfolding step handle submit_plan approve_plan reject_plan retry cancel
step-final e t (submits p ts) f = ground arith
step-final e t (approves ts) f = ground arith
step-final e t (rejects p ts) f = ground arith
step-final e t (retries p ts) f = ground arith
step-final e t (cancels ws ts) f = ground arith
step-final e t (updates b ts) f =
    update_cases (λ u. SameButFeedback t u) e.trim e.safe_record e.retro t b ts refl
      λ new title guarded aimed titled _.
        put_row_final e.trim t b ts new title
          (has_non_feedback_fields-IsFeedback b (guards-final t b f guarded)) aimed titled
