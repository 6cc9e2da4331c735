-- ===== src/Tasks/Update.antt =====
-- PUT /api/tasks/:id of daemon/src/api/unified-tasks.ts. `task` is the row as the handler read it.
pub mod Cases
use Prim.Native.String.{◌++◌ as ◌<>◌}
use kithkit.Base.{
  ℕ, String, Bool, true, false, not, ◌&&◌, ◌||◌, List, [], ◌∷◌, ◌++◌, Option, none, some, any,
  str_eq, if◌then◌else◌,
}
use kithkit.Base.Js.{
  Field, null, text, given, truthy, is_empty, text_or_null, number_or_null, flag_or_null, lowers_to,
  number, Number, is_whole, above, is_positive, is_zero,
}
use kithkit.Tasks.Checked.{Checked, ok, fail, ◌>>=◌, ◌>>◌, deny_if}
use kithkit.Tasks.Status.{
  TaskStatus, pending, completed, failed, same, valid_statuses, is_terminal, parse_status,
  normalize_status_alias, validate_transition, validate_raw_transition, get_transition_side_effects,
}
use kithkit.Tasks.Writes.{
  Body, write_status, clears_assignee, write_assignee, write_texts, write_extras,
}
use kithkit.Tasks.Writes.{has_text}
use kithkit.Tasks.Row.{
  Task, is_todo, is_submitted, Effect, activity, message, inject, store_memory, evaluate, Answer,
  refused, accepted,
}

abbrev pub has_comms_feedback : Body → Bool
has_comms_feedback b = given b.comms_outcome || given b.comms_corrections || given b.acknowledged_at

abbrev pub has_tags : Option (Option String) → Bool
has_tags none = false
has_tags (some v) = true

abbrev pub has_non_feedback_fields : Body → Bool
has_non_feedback_fields b =
    given b.status
    || given b.assigned_to
    || given b.result
    || given b.error
    || given b.work_notes
    || given b.outcome
    || given b.outcome_reason
    || given b.plan
    || given b.title
    || given b.description
    || given b.priority
    || given b.due_date
    || given b.snooze_until
    || has_tags b.tags
    || given b.category

abbrev pub caller_is_comms : Option String → Bool
caller_is_comms none = false
caller_is_comms (some name) = lowers_to name "comms"

abbrev pub is_human : Option String → Bool
is_human none = false
is_human (some s) = str_eq s "human"

-- Tested on the status as it stands in the body, before aliases are replaced.
abbrev pub escapes : TaskStatus → Field → Bool
escapes from none = false
escapes from (some v) = validate_raw_transition from v

abbrev pub is_failed_escape_valve : Task → Body → Bool
is_failed_escape_valve task b =
    same task.status failed && not (is_todo task.kind) && escapes task.status b.status

-- `acknowledged_at` on a task that has not ended.
abbrev pub acknowledges_early : Task → Body → Bool
acknowledges_early task b = given b.acknowledged_at && not (is_terminal task.status)

-- `acknowledged_at` on a task of a human, by another agent than comms.
abbrev pub acknowledges_for_human : Task → Body → Bool
acknowledges_for_human task b =
    given b.acknowledged_at && is_human task.source && not (caller_is_comms b.caller)

-- More than feedback, or none, on a task that has ended.
abbrev pub changes_ended : Task → Body → Bool
changes_ended task b =
    is_terminal task.status
    && not (is_failed_escape_valve task b)
    && (has_non_feedback_fields b || not (has_comms_feedback b))

unfoldable pub guards : Task → Body → Checked (Unit {0})
guards task b = do
  deny_if (acknowledges_early task b) 409
  deny_if (acknowledges_for_human task b) 403
  deny_if (changes_ended task b) 409

-- The new status, if the body has one that the task may take.
unfoldable pub target : Task → Field → Checked (Option TaskStatus)
target task none = ok none
target task (some v) = elim (parse_status valid_statuses (normalize_status_alias v)) [
  | none ↦ fail 400
  | some new ↦
      if not (is_todo task.kind) && not (validate_transition task.status new)
      then fail 422
      else ok (some new)
]

module _ (trim : String → String) where
  unfoldable pub new_title : Field → Checked (Option String)
  new_title none = ok none
  new_title (some (text s)) = if is_empty (trim s) then fail 400 else ok (some (trim s))
  new_title (some _) = fail 400

pub one_of : List String → Field → Checked (Unit {0})
one_of words none = ok tt
one_of words (some (text s)) = deny_if (not (any (λ w. str_eq w s) words)) 400
one_of words (some _) = fail 400

-- The columns that also take `null`.
unfoldable pub null_or_one_of : List String → Field → Checked (Unit {0})
unfolding one_of
null_or_one_of words (some null) = ok tt
null_or_one_of words f = one_of words f

-- Null or a number from 1 to 5.
unfoldable pub null_or_1_to_5 : Field → Checked (Unit {0})
null_or_1_to_5 none = ok tt
null_or_1_to_5 (some null) = ok tt
null_or_1_to_5 (some (number n)) = deny_if (not (is_whole 1 n || above 1 n) || above 5 n) 400
null_or_1_to_5 (some _) = fail 400

abbrev pub valid_priorities : List String
valid_priorities = "low" ∷ "medium" ∷ "high" ∷ "urgent" ∷ []

abbrev pub valid_outcomes : List String
valid_outcomes = "success" ∷ "partial" ∷ "failed" ∷ "unknown" ∷ []

abbrev pub valid_comms_outcomes : List String
valid_comms_outcomes = "accepted" ∷ "corrected" ∷ "redirected" ∷ "cancelled" ∷ []

abbrev when : Bool → List Effect → List Effect
when true es = es
when false es = []

-- `comms_outcome` changes to a corrective value.
abbrev is_correction : Option String → Field → Bool
is_correction old (some (text s)) =
    (str_eq s "corrected" || str_eq s "redirected")
    && elim old [ none ↦ true | some o ↦ not (str_eq o s) ]
is_correction old _ = false

abbrev evaluated : Bool → Task → Bool → List Effect
evaluated retro updated due =
    when (due && retro && not (is_todo updated.kind) && has_text updated.external_id)
      (evaluate ∷ [])

ended_effects : Bool → TaskStatus → Task → List Effect
ended_effects retro new updated =
    when (is_terminal new) (message "comms" ∷ inject "comms" ∷ [])
    ++ (when (same new completed && has_text updated.result) (store_memory ∷ [])
        ++ evaluated retro updated (same new completed || same new failed))

status_effects : Bool → Option TaskStatus → Task → List Effect
unfolding ended_effects
status_effects retro none updated = []
status_effects retro (some new) updated = activity "status_change" ∷ ended_effects retro new updated

-- `safe` stands for the credential guard's verdict on the columns that are written, `retro` for the
-- configuration's `retro.enabled`.
module _ (trim : String → String) (safe : Task → Body → Bool) (retro : Bool) where
  pub put : Task → Body → ℕ → Checked Answer
  put task b ts = do
    guards task b
    new ← target task b.status
    title ← new_title trim b.title
    one_of valid_priorities b.priority
    null_or_one_of valid_outcomes b.outcome
    deny_if (given b.plan && is_submitted task.plan_status) 409
    null_or_1_to_5 b.complexity
    null_or_1_to_5 b.risk
    null_or_one_of valid_comms_outcomes b.comms_outcome
    deny_if (not (safe task b)) 400
    ok (
        accepted
          (λ row. write_extras task b (
            write_texts b title ts (
              write_assignee task (if clears_assignee new then none else b.assigned_to) ts
                (write_status task new ts row))))
          (λ updated.
            status_effects retro new updated
            ++ evaluated retro updated (is_correction task.comms_outcome b.comms_outcome)))

  abbrev pub answer : Checked Answer → Answer
  answer (ok a) = a
  answer (fail code) = refused code

  pub update : Task → Body → ℕ → Answer
  unfolding put
  update task b ts = answer (put task b ts)
