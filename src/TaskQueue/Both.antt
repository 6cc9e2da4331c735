-- ===== src/TaskQueue/Both.antt =====
-- The routes of daemon/src/api/unified-tasks.ts and those of daemon/src/api/task-queue.ts on one row.
use kithkit.Base.{
  ℕ, String, true, false, List, [], ◌∷◌, Option, none, some, ◌≡◌, ◌⊎◌, inl, inr, refl, arith,
}
use kithkit.Base.Js.{Field}
use kithkit.Tasks.Checked.{ok}
use kithkit.Tasks.Status.{TaskStatus, planning, in_progress, completed, abandoned, cancelled}
use kithkit.Tasks.Row.{Task, orchestrator}
use kithkit.Tasks.Requests
use kithkit.Tasks.Requests.Final
use kithkit.Tasks.Requests.Final.{SameButFeedback, step-final}
use kithkit.Tasks.Plan
use kithkit.Tasks.Plan.{plan_text}
use kithkit.TaskQueue.{
  Env, Request, submits, approves, rejects, retries, cancels, updates, posts, handle, step,
}
use kithkit.TaskQueue.Status.{valid_transitions}
use kithkit.TaskQueue.Routes.{retry, cancel, submit_plan, approve_plan, reject_plan, post_activity}
use kithkit.TaskQueue.Update.{
  Body, guards, has_non_feedback_fields, target, write_status, write_assignee, write_texts, put_row,
}
use kithkit.TaskQueue.Cases.{update_cases}

pub data AnyRequest : Type 0 where
  newer : Requests.Request → AnyRequest
  older : Request → AnyRequest

module _ (e_newer : Requests.Env) (e_older : Env) where
  unfoldable pub any_step : Task → AnyRequest → Task
  unfolding Requests.step step
  any_step t (newer r) = Requests.step e_newer t r
  any_step t (older r) = step e_older t r

  unfoldable pub any_run : Task → List AnyRequest → Task
  unfolding any_step
  any_run t [] = t
  any_run t (r ∷ rs) = any_run (any_step t r) rs

-- Of the columns of a row, all but `updated_at` and those of the feedback, the estimates, the wish for
-- a retro and the id of the canonical task.
abbrev pub SameResult : Task → Task → Type 0
SameResult t u = u ≡ record t {
  comms_outcome = u.comms_outcome;
  comms_corrections = u.comms_corrections;
  acknowledged_at = u.acknowledged_at;
  updated_at = u.updated_at;
  complexity = u.complexity;
  risk = u.risk;
  estimated_minutes = u.estimated_minutes;
  actual_minutes = u.actual_minutes;
  calibration_mult = u.calibration_mult;
  task_type = u.task_type;
  completion_status = u.completion_status;
  estimation_method = u.estimation_method;
  workers_used = u.workers_used;
  generate_retro = u.generate_retro;
  canonical_task_external_id = u.canonical_task_external_id;
}

abbrev pub IsOver : TaskStatus → Type 0
IsOver s = (s ≡ completed) ⊎ (s ≡ cancelled)

-- The fields of a body whose presence a task that is over refuses.
abbrev IsFeedback : Body → Type 0
IsFeedback b =
    (b.status ≡ none)
    × ((b.assignee ≡ none)
        × ((b.result ≡ none)
            × ((b.error ≡ none)
                × ((b.work_notes ≡ none)
                    × ((b.outcome ≡ none) × ((b.outcome_notes ≡ none) × (b.plan ≡ none)))))))

has_non_feedback_fields-IsFeedback : (b : Body) → has_non_feedback_fields b ≡ false → IsFeedback b
has_non_feedback_fields-IsFeedback b h = ground (arith, h)

guards-IsFeedback : (t : Task) (b : Body) → IsOver t.status → guards t b ≡ ok tt → IsFeedback b
unfolding guards valid_transitions
guards-IsFeedback t b o h = ground (arith, o, h, has_non_feedback_fields-IsFeedback b)

put_row-SameResult :
    (note_time : String) (t : Task) (b : Body) (ts : ℕ) (new : Option TaskStatus)
    → IsFeedback b
    → target t b.status ≡ ok new
    → SameResult t (put_row note_time t b ts new t)
unfolding write_texts write_assignee write_status target
put_row-SameResult note_time t b ts none f h = ground (arith, f)
put_row-SameResult note_time t b ts (some new) f h = ground (arith, f, h)

step-SameResult : (e : Env) (t : Task) (r : Request) → IsOver t.status → SameResult t (step e t r)
unfolding step handle submit_plan approve_plan reject_plan retry cancel post_activity
step-SameResult e t (submits f ts) o = ground (arith, o)
step-SameResult e t (approves ts) o = ground (arith, o)
step-SameResult e t (rejects f ts) o = ground (arith, o)
step-SameResult e t (retries ts) o = ground (arith, o)
step-SameResult e t (cancels ws ts) o = ground (arith, o)
step-SameResult e t (posts b ts) o = ground (arith, o)
step-SameResult e t (updates b ts) o = ground (
  arith,
  o,
  update_cases e.safe_record e.retro e.note_time (SameResult t) t b ts refl (λ new c.
      put_row-SameResult e.note_time t b ts new (guards-IsFeedback t b o c.guarded) c.aimed),
)

IsFinal-over : (s : TaskStatus) → IsOver s → Final.IsFinal s
IsFinal-over s (inl h) = inl h
IsFinal-over s (inr h) = inr (inr h)

any_step-SameResult :
    (e_newer : Requests.Env) (e_older : Env) (t : Task) (r : AnyRequest)
    → IsOver t.status
    → SameResult t (any_step e_newer e_older t r)
unfolding any_step
any_step-SameResult e_newer e_older t (newer r) o =
    ground (arith, step-final e_newer t r (IsFinal-over t.status o))
any_step-SameResult e_newer e_older t (older r) o = step-SameResult e_older t r o

SameResult-trans : (t u v : Task) → SameResult t u → SameResult u v → SameResult t v
SameResult-trans t u v h k = ground (arith, h, k)

-- Whatever requests for plans, approvals, rejections, retries, cancellations, updates and, at the
-- older routes, notes of activity either set of routes handles, one after the other and in any
-- order, a completed or cancelled task keeps all columns but `comms_outcome`, `comms_corrections`,
-- `acknowledged_at`, `updated_at`, `complexity`, `risk`, `estimated_minutes`, `actual_minutes`,
-- `calibration_mult`, `task_type`, `completion_status`, `estimation_method`, `workers_used`,
-- `generate_retro` and `canonical_task_external_id`.
pub any_run-SameResult :
    (e_newer : Requests.Env) (e_older : Env) (t : Task) (rs : List AnyRequest)
    → IsOver t.status
    → SameResult t (any_run e_newer e_older t rs)
unfolding any_run
any_run-SameResult e_newer e_older t [] o = refl
any_run-SameResult e_newer e_older t (r ∷ rs) o =
    let u = any_step e_newer e_older t r in
    let one = any_step-SameResult e_newer e_older t r o in
    SameResult-trans t u (any_run e_newer e_older u rs) one
      (any_run-SameResult e_newer e_older u rs (ground (arith, one, o)))

newer-abandoned :
    (e : Requests.Env) (t : Task) (rs : List Requests.Request)
    → t.status ≡ abandoned
    → t.kind ≡ orchestrator
    → ((Requests.run e t rs).status ≡ abandoned) × ((Requests.run e t rs).kind ≡ orchestrator)
unfolding Requests.run
newer-abandoned e t [] h k = (h, k)
newer-abandoned e t (r ∷ rs) h k =
    let same = step-final e t r (inr (inl h)) in
    newer-abandoned e (Requests.step e t r) rs (ground (arith, same, h)) (ground (arith, same, k))

-- An abandoned orchestrator task keeps its status whatever requests arrive at the newer routes, and
-- then the older cancel still cancels it.
pub abandoned_cancelled :
    (e_newer : Requests.Env) (e_older : Env) (t : Task) (rs : List Requests.Request)
    (ws : List String) (ts : ℕ)
    → t.status ≡ abandoned
    → t.kind ≡ orchestrator
    → let u = Requests.run e_newer t rs in
      (u.status ≡ abandoned) × ((step e_older u (cancels ws ts)).status ≡ cancelled)
unfolding step handle cancel
abandoned_cancelled e_newer e_older t rs ws ts h k =
    let (s, o) = newer-abandoned e_newer t rs h k in (s, ground (arith, s, o))

-- A plan that the newer submit-plan took in the status `planning` and the older approve-plan approves
-- leaves the task in progress without the time of its start.
pub approved_unstarted :
    (e_newer : Requests.Env) (e_older : Env) (t : Task) (plan : Field) (s : String) (ts later : ℕ)
    → t.status ≡ planning
    → t.kind ≡ orchestrator
    → t.started_at ≡ none
    → plan_text plan ≡ some s
    → e_newer.safe_text s ≡ true
    → let u =
        any_run e_newer e_older t
          (newer (Requests.submits plan ts) ∷ older (approves later) ∷ []) in
      (u.status ≡ in_progress) × (u.started_at ≡ none)
unfolding any_run any_step step handle approve_plan Requests.step Requests.handle Plan.submit_plan
approved_unstarted e_newer e_older t plan s ts later h k n p q = ground (arith, h, k, n, p, q)
